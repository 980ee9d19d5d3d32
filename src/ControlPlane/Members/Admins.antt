-- ===== src/ControlPlane/Members/Admins.antt =====
-- Whatever its members do, an organisation that has an active admin keeps one.
use metamodels.Common.{ℕ, String, ◌≡◌, true, [], ◌∷◌, before}
use metamodels.ControlPlane.Database.{Db}
use metamodels.ControlPlane.Rows.{any-append}
use metamodels.ControlPlane.Users.LastAdmin.{
  has_active_admin, change_user_role-HasAdmin, set_user_status-HasAdmin,
}
use metamodels.ControlPlane.Users.{is_active_admin}
use metamodels.ControlPlane.Invites.Effects.{
  invite_user-rows, revoke_invite-rows, joined, accept_read-rows, accept_invite-reads,
}
use metamodels.ControlPlane.Members.{
  Step, changes_role, changes_status, invites, revokes, accepts, Steps, waits, steps,
}
use metamodels.ControlPlane.Members.Seats.{IsSound, Steps-IsSound, IsSound-later}

module _ (hash_invite_token : String → String) (limit : String → ℕ) (o : String) where
  Step-HasAdmin :
      (now : ℕ) (db db' : Db)
      → Step hash_invite_token limit now db db'
      → IsSound hash_invite_token limit now db
      → has_active_admin o db.users ≡ true
      → has_active_admin o db'.users ≡ true
  Step-HasAdmin now db db' (changes_role actor id role run) (keyed, _) h =
      change_user_role-HasAdmin o actor id role db db' keyed h run
  Step-HasAdmin now db db' (changes_status actor id status run) (keyed, _) h =
      set_user_status-HasAdmin o actor id status (limit actor.org_id) now db db' keyed h run
  Step-HasAdmin now db db' (invites actor input token id made run) _ h =
      let (_, _, u, _) =
        invite_user-rows hash_invite_token actor input token id (limit actor.org_id) now db made
          run in
      rw u h
  Step-HasAdmin now db db' (revokes actor id run) _ h =
      let (u, _) = revoke_invite-rows actor id db db' run in rw u h
  Step-HasAdmin now db db' (accepts token n password_hash id made run) _ h =
      let (inv, _, _, read) =
        accept_invite-reads hash_invite_token token n password_hash id now db made run in
      let (_, u, _) = accept_read-rows inv password_hash id now db made read in
      rw u (any-append (is_active_admin o) db.users (joined inv password_hash id ∷ []) h)

  -- Along any sequence of successful role changes, status changes, invites, revocations of invites and
  -- acceptances, at times that do not decrease, from a database in which the ids of the users are unique and no
  -- organisation has more active users and pending invites than its seats, which stay fixed: an organisation
  -- that has an active admin at the start has one at the end.
  pub Steps-HasAdmin :
      (start now : ℕ) (db db' : Db)
      → Steps hash_invite_token limit start db now db'
      → IsSound hash_invite_token limit start db
      → has_active_admin o db.users ≡ true
      → has_active_admin o db'.users ≡ true
  Steps-HasAdmin start now db _ (waits late) sound h = h
  Steps-HasAdmin start now db db' (steps {now = before} {db' = mid} trace late last) sound h =
      let k = Steps-IsSound hash_invite_token limit start before db mid trace sound in
      Step-HasAdmin now mid db' last (IsSound-later hash_invite_token limit before now mid late k)
        (Steps-HasAdmin start before db mid trace sound h)
