-- ===== src/ControlPlane/Users.antt =====
-- apps/control-plane/src/server/users-service.ts: the members of an organisation.
pub mod Effects
pub mod LastAdmin
pub mod Approvals
use metamodels.Common.{
  append, ℕ, ◌+◌, String, Bool, true, false, not, ◌&&◌, str_eq, leb, ◌==◌, if◌then◌else◌, find,
}
use metamodels.Json.{null, str, obj, end, field}
use metamodels.ControlPlane.Authorize.{
  Role, admin, member, viewer, Actor, user_manage, authorize, role_name,
}
use metamodels.ControlPlane.Database.{
  ◌>>=◌, ◌>>◌, User, Db, not_found, last_admin, self_action, seat_limit, Reply, returns, fail_if,
  or_fail, require_capability, update_where, count_where, write_audit,
}
use metamodels.ControlPlane.Keys.{revoke_oauth_keys_for_user}
use metamodels.ControlPlane.Seats.{count_active_users, count_pending_invites}

abbrev pub is_user : String → String → User → Bool
is_user org_id id u = str_eq u.id id && str_eq u.org_id org_id

abbrev pub is_active_admin : String → User → Bool
is_active_admin org_id u =
    str_eq u.org_id org_id && str_eq u.role "admin" && str_eq u.status "active"

-- `otherActiveAdmins`
abbrev pub other_active_admins : Db → String → String → ℕ
other_active_admins db org_id except =
    count_where (λ (u : User). is_active_admin org_id u && not (str_eq u.id except)) db.users

abbrev user_target : String → String
user_target id = append "user:" id

abbrev pub with_role : Role → User → User
with_role role u = record u { role = role_name role }

abbrev pub is_viewer : Role → Bool
is_viewer viewer = true
is_viewer admin = false
is_viewer member = false

abbrev pub is_admin : Role → Bool
is_admin admin = true
is_admin member = false
is_admin viewer = false

abbrev pub role_written : Actor → String → Role → Db → Db
unfolding write_audit
role_written actor user_id role db =
    write_audit actor "user.role" (user_target user_id)
      (obj (field "role" (str (role_name role)) end))
      (record db { users = update_where (is_user actor.org_id user_id) (with_role role) db.users })

-- `changeUserRole`, under the lock of the organisation.
unfoldable pub change_user_role : Actor → String → Role → Db → Reply Db
unfolding authorize revoke_oauth_keys_for_user
change_user_role actor user_id role db = do
  require_capability actor user_manage
  target ← or_fail (find (is_user actor.org_id user_id) db.users) (not_found user_id)
  fail_if
      (str_eq target.role "admin"
        && not (is_admin role)
        && str_eq target.status "active"
        && other_active_admins db actor.org_id user_id == 0)
      last_admin
  let db' = role_written actor user_id role db
  returns
      (if is_viewer role then (revoke_oauth_keys_for_user actor user_id "user.role" db').1 else db')

pub data UserStatus : Type 0 where
  active deactivated : UserStatus

abbrev pub status_name : UserStatus → String
status_name active = "active"
status_name deactivated = "deactivated"

abbrev pub is_active : UserStatus → Bool
is_active active = true
is_active deactivated = false

abbrev pub with_status : UserStatus → User → User
with_status status u = record u { status = status_name status }

abbrev status_action : UserStatus → String
status_action active = "user.reactivate"
status_action deactivated = "user.deactivate"

abbrev pub status_written : Actor → String → UserStatus → Db → Db
unfolding write_audit
status_written actor user_id status db =
    write_audit actor (status_action status) (user_target user_id) null (record db {
      users = update_where (is_user actor.org_id user_id) (with_status status) db.users;
    })

-- `setUserStatus`, under the lock of the organisation.
unfoldable pub set_user_status : Actor → String → UserStatus → ℕ → ℕ → Db → Reply Db
unfolding authorize revoke_oauth_keys_for_user
set_user_status actor user_id status limit now db = do
  require_capability actor user_manage
  fail_if (not (is_active status) && str_eq user_id actor.id) self_action
  self ← or_fail (find (is_user actor.org_id actor.id) db.users) (not_found user_id)
  fail_if (not (str_eq self.status "active")) (not_found user_id)
  target ← or_fail (find (is_user actor.org_id user_id) db.users) (not_found user_id)
  fail_if
      (not (is_active status)
        && str_eq target.role "admin"
        && str_eq target.status "active"
        && other_active_admins db actor.org_id user_id == 0)
      last_admin
  fail_if
      (is_active status
        && not (str_eq target.status "active")
        && leb limit
            (count_active_users db actor.org_id + count_pending_invites db actor.org_id now))
      seat_limit
  let db' = status_written actor user_id status db
  returns (
      if is_active status
      then db'
      else (revoke_oauth_keys_for_user actor user_id "user.deactivate" db').1)
