-- ===== src/ControlPlane/Seats.antt =====
-- apps/control-plane/src/server: seats.ts, and the tiers of entitlement-service.ts.
use metamodels.Common.{
  ℕ, ◌+◌, ◌-◌, String, Bool, true, false, ◌&&◌, Option, none, some, str_eq, ltb, if◌then◌else◌,
  find,
}
use metamodels.ControlPlane.Authorize.{Actor, user_manage, authorize}
use metamodels.ControlPlane.Database.{
  ◌>>◌, User, Invite, Entitlement, Db, Reply, returns, require_capability, count_where,
}

abbrev pub base_seats : ℕ
base_seats = 1

-- `resolveSeatsForVariant`
unfoldable pub resolve_seats_for_variant : Option String → ℕ
resolve_seats_for_variant none = base_seats
resolve_seats_for_variant (some name) =
    if str_eq name "Team 5" then 5 else if str_eq name "Team 10" then 10 else base_seats

abbrev pub runs_until : Option ℕ → ℕ → Bool
runs_until none now = false
runs_until (some until) now = ltb now until

-- `resolveEntitlementSeats`
unfoldable pub resolve_entitlement_seats : Entitlement → ℕ → ℕ
resolve_entitlement_seats e now =
    if str_eq e.status "active"
    then e.seats
    else if runs_until e.grace_until now
    then e.seats
    else base_seats

-- `getEntitlement`
abbrev pub get_entitlement : Db → String → Option Entitlement
get_entitlement db org_id = find (λ (e : Entitlement). str_eq e.org_id org_id) db.entitlements

abbrev pub seats_of : ℕ → Option Entitlement → ℕ
seats_of now none = base_seats
seats_of now (some e) = resolve_entitlement_seats e now

unfoldable pub get_seat_limit : Db → String → ℕ → ℕ
unfolding resolve_entitlement_seats
get_seat_limit db org_id now = seats_of now (get_entitlement db org_id)

abbrev pub is_active_user : String → User → Bool
is_active_user org_id u = str_eq u.org_id org_id && str_eq u.status "active"

abbrev pub is_open : Option ℕ → Bool
is_open none = true
is_open (some t) = false

abbrev pub is_pending : String → ℕ → Invite → Bool
is_pending org_id now i = str_eq i.org_id org_id && is_open i.accepted_at && ltb now i.expires_at

abbrev pub count_active_users : Db → String → ℕ
count_active_users db org_id = count_where (is_active_user org_id) db.users

abbrev pub count_pending_invites : Db → String → ℕ → ℕ
count_pending_invites db org_id now = count_where (is_pending org_id now) db.invites

pub record SeatUsage : Type 0 where
  pub used : ℕ
  pub limit : ℕ
  pub free : ℕ

-- `seatUsage`; `-` stops at 0, as `Math.max(0, …)` does.
unfoldable pub seat_usage : Actor → ℕ → ℕ → Db → Reply SeatUsage
unfolding authorize
seat_usage actor limit now db =
    let used = count_active_users db actor.org_id + count_pending_invites db actor.org_id now in
    require_capability actor user_manage
    >> returns (record { used = used; limit = limit; free = limit - used })
