-- ===== src/ControlPlane/Users/Effects.antt =====
-- What a successful change of a member writes to the tables of the users and the invites.
use metamodels.Common.{
  ℕ, ◌+◌, String, ◌≡◌, refl, sym, ap, ◌∙◌, Bool, true, false, not, ◌&&◌, some, List, [], ◌∷◌,
  str_eq, leb, ◌==◌, if◌then◌else◌, filter, find,
}
use metamodels.ControlPlane.Authorize.{Role, Actor, user_manage}
use metamodels.ControlPlane.Database.{
  User, ApiKey, Db, returns, update_where, write_audit, self_action, not_found,
}
use metamodels.ControlPlane.Success.{passed, found, allowed_to, returns-inj}
use metamodels.ControlPlane.Seats.{count_active_users, count_pending_invites}
use metamodels.ControlPlane.Keys.{
  audit_revoked, is_oauth_key_of, revoked, revoke_oauth_keys_for_user,
}
use metamodels.ControlPlane.Users.{
  is_user, other_active_admins, with_role, is_viewer, is_admin, change_user_role, UserStatus,
  is_active, with_status, set_user_status, role_written, status_written,
}

-- The database has these users and the invites that it had.
abbrev pub Rewrites : Db → Db → List User → Type 0
Rewrites db db' users = (db'.users ≡ users) × (db'.invites ≡ db.invites)

pub audit_revoked-Rewrites :
    (actor : Actor) (reason : String) (ks : List ApiKey) (db : Db)
    → Rewrites db (audit_revoked actor reason ks db) db.users
unfolding audit_revoked
audit_revoked-Rewrites actor reason [] db = (refl, refl)
audit_revoked-Rewrites actor reason (k ∷ ks) db = audit_revoked-Rewrites actor reason ks _

pub revoke_oauth_keys_for_user-Rewrites :
    (actor : Actor) (id reason : String) (db : Db)
    → Rewrites db (revoke_oauth_keys_for_user actor id reason db).1 db.users
unfolding revoke_oauth_keys_for_user
revoke_oauth_keys_for_user-Rewrites actor id reason db =
    audit_revoked-Rewrites actor reason (filter (is_oauth_key_of actor.org_id id) db.keys)
      (record db { keys = update_where (is_oauth_key_of actor.org_id id) revoked db.keys })

moved : (db x y : Db) (users : List User) → x ≡ y → Rewrites db x users → Rewrites db y users
moved db x y users e (u, i) =
    (sym (ap (λ (d : Db). d.users) e) ∙ u, sym (ap (λ (d : Db). d.invites) e) ∙ i)

-- With the keys of the member revoked or not.
revoked_or_not :
    (b : Bool) (actor : Actor) (id reason : String) (x : Db)
    → Rewrites x (if b then (revoke_oauth_keys_for_user actor id reason x).1 else x) x.users
revoked_or_not true actor id reason x = revoke_oauth_keys_for_user-Rewrites actor id reason x
revoked_or_not false actor id reason x = (refl, refl)

kept_or_revoked :
    (b : Bool) (actor : Actor) (id reason : String) (x : Db)
    → Rewrites x (if b then x else (revoke_oauth_keys_for_user actor id reason x).1) x.users
kept_or_revoked true actor id reason x = (refl, refl)
kept_or_revoked false actor id reason x = revoke_oauth_keys_for_user-Rewrites actor id reason x

pub change_user_role-Rewrites :
    (actor : Actor) (id : String) (role : Role) (db db' : Db)
    → change_user_role actor id role db ≡ returns db'
    → (target : User) × (find (is_user actor.org_id id) db.users ≡ some target)
      × (str_eq target.role "admin"
            && not (is_admin role)
            && str_eq target.status "active"
            && other_active_admins db actor.org_id id == 0
          ≡ false)
      × (db' ≡ (
          if is_viewer role
          then (revoke_oauth_keys_for_user actor id "user.role" (role_written actor id role db)).1
          else role_written actor id role db))
      × Rewrites db db' (update_where (is_user actor.org_id id) (with_role role) db.users)
unfolding change_user_role write_audit
change_user_role-Rewrites actor id role db db' h =
    let (_, h1) = allowed_to actor user_manage _ db' h in
    let (target, f, h2) = found _ _ _ db' h1 in
    let (guard, h3) = passed _ _ _ db' h2 in
    let out = returns-inj _ db' h3 in
    (
      target,
      f,
      guard,
      sym out,
      moved db _ db' _ out (revoked_or_not (is_viewer role) actor id "user.role" _),
    )

-- The test of `setUserStatus` for a member who is put back.
abbrev pub takes_seat : UserStatus → User → Bool
takes_seat status target = is_active status && not (str_eq target.status "active")

pub set_user_status-Rewrites :
    (actor : Actor) (id : String) (status : UserStatus) (limit now : ℕ) (db db' : Db)
    → set_user_status actor id status limit now db ≡ returns db'
    → (target : User) × (find (is_user actor.org_id id) db.users ≡ some target)
      × (not (is_active status)
            && str_eq target.role "admin"
            && str_eq target.status "active"
            && other_active_admins db actor.org_id id == 0
          ≡ false)
      × (takes_seat status target
            && leb limit
                (count_active_users db actor.org_id + count_pending_invites db actor.org_id now)
          ≡ false)
      × (db' ≡ (
          if is_active status
          then status_written actor id status db
          else (revoke_oauth_keys_for_user actor id "user.deactivate"
              (status_written actor id status db)).1))
      × Rewrites db db' (update_where (is_user actor.org_id id) (with_status status) db.users)
unfolding set_user_status write_audit
set_user_status-Rewrites actor id status limit now db db' h =
    let (_, h1) = allowed_to actor user_manage _ db' h in
    let (own, h2) = passed (not (is_active status) && str_eq id actor.id) self_action _ db' h1 in
    let (self, at, h3) =
      found (find (is_user actor.org_id actor.id) db.users) (not_found id) _ db' h2 in
    let (standing, h4) = passed (not (str_eq self.status "active")) (not_found id) _ db' h3 in
    let (target, f, h5) = found (find (is_user actor.org_id id) db.users) (not_found id) _ db' h4 in
    let (last, h6) = passed _ _ _ db' h5 in
    let (seat, h7) = passed _ _ _ db' h6 in
    let out = returns-inj _ db' h7 in
    (
      target,
      f,
      last,
      seat,
      sym out,
      moved db _ db' _ out (kept_or_revoked (is_active status) actor id "user.deactivate" _),
    )
