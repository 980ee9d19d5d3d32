-- ===== src/ControlPlane/Licence.antt =====
-- apps/control-plane/src/server: entitlement-service.ts and license-service.ts, the licence of an organisation.
pub mod Grace
use metamodels.Common.{
  append, ℕ, suc, ◌+◌, String, Bool, not, Option, none, some, List, [], ◌∷◌, ◌++◌, map, str_eq,
  if◌then◌else◌, or_else, first_some, any, pos, is_empty,
}
use metamodels.Json.{Value, null, num, str, obj, end, field}
use metamodels.ControlPlane.Authorize.{Actor, license_manage, authorize}
use metamodels.ControlPlane.Database.{
  ◌>>=◌, ◌>>◌, Entitlement, Db, Reply, returns, throws, license_unreadable, require_capability,
  update_where, delete_where, write_audit,
}
use metamodels.ControlPlane.Seats.{resolve_seats_for_variant, get_entitlement}

-- `GRACE_MS`
abbrev pub grace_ms : ℕ
grace_ms = 604800000

pub record SaveEntitlementInput : Type 0 where
  pub license_key : String
  pub instance_id : Option String
  pub status : String
  pub seats : ℕ
  pub tier : Option String
  pub last_validated_at : ℕ
  pub grace_until : ℕ

pub record ValidationPatch : Type 0 where
  pub status : String
  pub seats : ℕ
  pub instance_id : Option String
  pub grace_until : ℕ

-- `LsResult`: what the licence server answers.
pub record LsResult : Type 0 where
  pub valid : Bool
  pub status : String
  pub variant_name : Option String
  pub instance_id : Option String

abbrev pub is_of : String → Entitlement → Bool
is_of org_id e = str_eq e.org_id org_id

-- `INSERT … ON CONFLICT (org_id) DO UPDATE`
abbrev pub upsert_entitlement : Entitlement → List Entitlement → List Entitlement
upsert_entitlement new rows =
    if any (is_of new.org_id) rows
    then update_where (is_of new.org_id) (λ e. new) rows
    else rows ++ new ∷ []

abbrev entitlement_target : String → String
entitlement_target org_id = append "entitlement:" org_id

abbrev tier_value : Option String → Value
tier_value none = null
tier_value (some t) = str t

-- `encrypt` and `last4` are `encryptLicenseKey` under the secret and `licenseLast4`.
module _ (encrypt last4 : String → String) where
  abbrev pub entitlement_row : String → SaveEntitlementInput → Entitlement
  entitlement_row org_id input = record {
    org_id = org_id;
    license_key_enc = encrypt input.license_key;
    license_last4 = last4 input.license_key;
    instance_id = input.instance_id;
    status = input.status;
    seats = input.seats;
    tier = input.tier;
    last_validated_at = some input.last_validated_at;
    grace_until = some input.grace_until;
  }

  unfoldable pub save_entitlement : Actor → SaveEntitlementInput → Db → Reply Db
  unfolding authorize write_audit
  save_entitlement actor input db =
      require_capability actor license_manage
      >> returns (
          write_audit actor "license.activate" (entitlement_target actor.org_id)
            (obj (
              field "tier" (tier_value input.tier) (
                field "seats" (num (pos input.seats))
                  (field "last4" (str (last4 input.license_key)) end))))
            (record db {
              entitlements =
                  upsert_entitlement (entitlement_row actor.org_id input) db.entitlements;
            }))

abbrev pub validated : ValidationPatch → ℕ → Entitlement → Entitlement
validated patch now e = record e {
  status = patch.status;
  seats = patch.seats;
  instance_id = patch.instance_id;
  last_validated_at = some now;
  grace_until = some patch.grace_until;
}

-- `updateValidation`
unfoldable pub update_validation : String → ValidationPatch → ℕ → Db → Db
update_validation org_id patch now db = record db {
  entitlements = update_where (is_of org_id) (validated patch now) db.entitlements;
}

unfoldable pub clear_entitlement : Actor → Db → Reply Db
unfolding authorize write_audit
clear_entitlement actor db =
    require_capability actor license_manage
    >> returns (
        write_audit actor "license.deactivate" (entitlement_target actor.org_id) null
          (record db { entitlements = delete_where (is_of actor.org_id) db.entitlements }))

-- The licence server; a call that throws gives nothing.
pub record LemonSqueezy : Type 0 where
  pub activate : (license_key instance_name : String) → Option LsResult
  pub validate : (license_key : String) (instance_id : Option String) → Option LsResult

pub data Activation : Type 0 where
  activated : Activation
  refused : String → Activation

-- `deactivateLicense`: what the licence server answers is not looked at.
abbrev pub deactivated : Actor → Db → Option (Option String) → Reply Db
unfolding clear_entitlement
deactivated actor db (some none) = throws license_unreadable
deactivated actor db (some (some key)) = clear_entitlement actor db
deactivated actor db none = clear_entitlement actor db

abbrev pub stored_key : (String → Option String) → Option Entitlement → Option (Option String)
stored_key decrypt none = none
stored_key decrypt (some e) = some (decrypt e.license_key_enc)

unfoldable pub deactivate_license : (String → Option String) → Actor → Db → Reply Db
unfolding deactivated authorize
deactivate_license decrypt actor db =
    require_capability actor license_manage
    >> deactivated actor db (stored_key decrypt (get_entitlement db actor.org_id))

module _ (encrypt last4 : String → String) (ls : LemonSqueezy) where
  abbrev no_server : Db → Reply (Activation × Db)
  no_server db = returns (refused "Could not reach the license server. Try again.", db)

  abbrev input_of : String → ℕ → Option String → LsResult → SaveEntitlementInput
  unfolding resolve_seats_for_variant
  input_of license_key now instance_id res = record {
    license_key = license_key;
    instance_id = first_some res.instance_id instance_id;
    status = res.status;
    seats = resolve_seats_for_variant res.variant_name;
    tier = res.variant_name;
    last_validated_at = now;
    grace_until = now + grace_ms;
  }

  abbrev confirmed :
      Actor → String → ℕ → Db → Option String → Option LsResult → Reply (Activation × Db)
  unfolding save_entitlement input_of
  confirmed actor license_key now db instance_id none = no_server db
  confirmed actor license_key now db instance_id (some res) =
      if not res.valid
      then returns (refused "License key is not valid.", db)
      else (save_entitlement encrypt last4 actor (input_of license_key now instance_id res) db
          >>= λ db'. returns (activated, db'))

  abbrev activation : Actor → String → ℕ → Db → Option LsResult → Reply (Activation × Db)
  unfolding confirmed
  activation actor license_key now db none = no_server db
  activation actor license_key now db (some a) =
      if not a.valid
      then returns (refused "License key could not be activated.", db)
      else confirmed actor license_key now db a.instance_id (ls.validate license_key a.instance_id)

  unfoldable pub activate_license : Actor → String → String → ℕ → Db → Reply (Activation × Db)
  unfolding activation authorize
  activate_license actor license_key instance_name now db =
      require_capability actor license_manage
      >> activation actor license_key now db (ls.activate license_key instance_name)

-- `decrypt` is `decryptLicenseKey` under the secret; it gives nothing where it throws.
module _ (decrypt : String → Option String) (ls : LemonSqueezy) where
  abbrev pub patch_of : Entitlement → ℕ → LsResult → ValidationPatch
  patch_of view now res = record {
    status = res.status;
    seats = if res.valid then resolve_seats_for_variant res.variant_name else view.seats;
    instance_id = first_some res.instance_id view.instance_id;
    grace_until = if res.valid then now + grace_ms else or_else view.grace_until now;
  }

  unfoldable pub revalidated : String → ℕ → Db → Entitlement → Option LsResult → Db
  unfolding update_validation
  revalidated org_id now db view none = db
  revalidated org_id now db view (some res) =
      update_validation org_id (patch_of view now res) now db

  unfoldable pub with_key : String → ℕ → Db → Entitlement → Option String → Option Db
  unfolding revalidated
  with_key org_id now db view none = none
  with_key org_id now db view (some key) = some (
      if is_empty key
      then db
      else revalidated org_id now db view (ls.validate key view.instance_id))

  abbrev pub revalidate_found : String → ℕ → Db → Option Entitlement → Option Db
  unfolding with_key
  revalidate_found org_id now db none = some db
  revalidate_found org_id now db (some view) =
      with_key org_id now db view (decrypt view.license_key_enc)

  -- It gives nothing where it throws, which is where the stored key does not decrypt.
  unfoldable pub revalidate_license : String → ℕ → Db → Option Db
  unfolding revalidate_found
  revalidate_license org_id now db = revalidate_found org_id now db (get_entitlement db org_id)

  pub record Pass : Type 0 where
    pub total : ℕ
    pub succeeded : ℕ
    pub failed : ℕ

  abbrev pub counted : (Db → Pass × Db) → Db → Option Db → Pass × Db
  counted rest db none =
      let (p, db') = rest db in (record p { total = suc p.total; failed = suc p.failed }, db')
  counted rest db (some next) =
      let (p, db') = rest next in
      (record p { total = suc p.total; succeeded = suc p.succeeded }, db')

  abbrev pub pass_over : List String → ℕ → Db → Pass × Db
  unfolding revalidate_license
  pass_over [] now db = (record { total = 0; succeeded = 0; failed = 0 }, db)
  pass_over (org_id ∷ ids) now db =
      counted (pass_over ids now) db (revalidate_license org_id now db)

  -- `revalidateAllEntitlements`, at one time.
  unfoldable pub revalidate_all_entitlements : ℕ → Db → Pass × Db
  unfolding pass_over
  revalidate_all_entitlements now db =
      pass_over (map (λ (e : Entitlement). e.org_id) db.entitlements) now db
