-- ===== src/ControlPlane/Licence/Grace.antt =====
-- The seats of an organisation after its licence was checked again.
use metamodels.Common.{
  ℕ, ◌+◌, String, ◌≡◌, refl, ap, ◌∙◌, Bool, false, ◌||◌, Option, some, arith, str_eq, ltb,
  if◌then◌else◌, or_else, is_empty,
}
use metamodels.ControlPlane.Database.{Entitlement, Db}
use metamodels.ControlPlane.Rows.{find_updated, find_passes}
use metamodels.ControlPlane.Seats.{
  base_seats, resolve_seats_for_variant, resolve_entitlement_seats, get_entitlement, get_seat_limit,
  seats_of,
}
use metamodels.ControlPlane.Licence.{
  grace_ms, ValidationPatch, LsResult, is_of, validated, update_validation, LemonSqueezy, patch_of,
  revalidated, with_key, revalidate_license,
}

get_entitlement-update_validation :
    (org_id : String) (patch : ValidationPatch) (now : ℕ) (db : Db) (e : Entitlement)
    → get_entitlement db org_id ≡ some e
    → get_entitlement (update_validation org_id patch now db) org_id ≡ some (validated patch now e)
unfolding update_validation
get_entitlement-update_validation org_id patch now db e at =
    find_updated (is_of org_id) (is_of org_id) (validated patch now) e db.entitlements (λ x. refl)
      at
    ∙ ap (λ b. some (if b then validated patch now e else e))
        (find_passes (is_of org_id) e db.entitlements at)

two_ways :
    (a b : Bool) (x y : ℕ) → (if a then x else if b then x else y) ≡ (if a || b then x else y)
two_ways a b x y = ground arith

module _ (decrypt : String → Option String) (ls : LemonSqueezy) where
  -- The seats that the licence is good for after the check at `now`, and until when without being active.
  abbrev pub seats_after : Entitlement → LsResult → ℕ
  seats_after e res = if res.valid then resolve_seats_for_variant res.variant_name else e.seats

  abbrev pub grace_after : ℕ → Entitlement → LsResult → ℕ
  grace_after now e res = if res.valid then now + grace_ms else or_else e.grace_until now

  -- When the stored key decrypts to one that is not empty and the licence server answers, a check gives a
  -- database in which, at any time, the organisation has the seats of the answer if its status is active or the
  -- grace is not over, and otherwise the base seats. The seats of the answer are those of its variant if it is
  -- valid, else the ones held before; the grace runs anew from a valid answer, else as before or to the check.
  pub revalidate_license-seats :
      (org_id key : String) (now later : ℕ) (db : Db) (e : Entitlement) (res : LsResult)
      → get_entitlement db org_id ≡ some e
      → decrypt e.license_key_enc ≡ some key
      → is_empty key ≡ false
      → ls.validate key e.instance_id ≡ some res
      → (db' : Db) × (revalidate_license decrypt ls org_id now db ≡ some db')
        × (get_seat_limit db' org_id later ≡ (
            if str_eq res.status "active" || ltb later (grace_after now e res)
            then seats_after e res
            else base_seats))
  unfolding revalidate_license with_key revalidated get_seat_limit resolve_entitlement_seats
  revalidate_license-seats org_id key now later db e res at opens full answer = (
    update_validation org_id (patch_of decrypt ls e now res) now db,
    simp (at, opens, full, answer),
    ap (seats_of later)
          (get_entitlement-update_validation org_id (patch_of decrypt ls e now res) now db e at)
        ∙ two_ways (str_eq res.status "active") (ltb later (grace_after now e res))
            (seats_after e res) base_seats,
  )
