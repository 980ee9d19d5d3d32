-- ===== src/ControlPlane/Users/LastAdmin.antt =====
-- An organisation keeps an active admin.
use metamodels.Common.{
  ℕ, String, ◌≡◌, ap, ◌∙◌, inl, inr, Bool, true, false, not, ◌&&◌, some, List, arith, eq_iff, ◌==◌,
  Bool-cases, find, any,
}
use metamodels.ControlPlane.Authorize.{Role, admin, member, viewer, Actor}
use metamodels.ControlPlane.Database.{User, Db, returns, update_where}
use metamodels.ControlPlane.Rows.{
  any-count, any-update_where, any-update_kept, any_split, any_mono, find_passes, IsKeyed,
  find_only,
}
use metamodels.ControlPlane.Users.{
  is_user, is_active_admin, other_active_admins, with_role, is_admin, change_user_role, UserStatus,
  active, deactivated, is_active, with_status, set_user_status,
}
use metamodels.ControlPlane.Users.Effects.{change_user_role-Rewrites, set_user_status-Rewrites}

abbrev pub user_id : User → String
user_id u = u.id

-- No two members have one id: the primary key of the table.
abbrev pub IsKeyedByUser : List User → Type 0
IsKeyedByUser users = IsKeyed user_id users

abbrev pub has_active_admin : String → List User → Bool
has_active_admin org_id users = any (is_active_admin org_id) users

pub is_user-id : (org_id id : String) (u : User) → is_user org_id id u ≡ true → u.id ≡ id
is_user-id org_id id u h = ground (arith, eq_iff u.id id)

is_user-org :
    (o org_id id : String) (u : User)
    → is_user org_id id u ≡ true
    → is_active_admin o u ≡ true
    → o ≡ org_id
is_user-org o org_id id u h k = ground (arith, eq_iff u.org_id org_id, eq_iff u.org_id o)

other_admin_kept :
    (o org_id id : String) (db : Db)
    → o ≡ org_id
    → (other_active_admins db org_id id == 0) ≡ false
    → any (λ (u : User). is_active_admin o u && not (is_user org_id id u)) db.users ≡ true
other_admin_kept o org_id id db e h =
    any_mono _ _ db.users (λ u k. ground (arith, e, eq_iff u.org_id org_id, eq_iff u.org_id o))
      (any-count _ db.users h)

with_role-admin :
    (o : String) (role : Role) (r : User)
    → is_admin role ≡ true
    → is_active_admin o r ≡ true
    → is_active_admin o (with_role role r) ≡ true
with_role-admin o admin r e h = ground arith
with_role-admin o member r e h = cc
with_role-admin o viewer r e h = cc

with_status-active :
    (o : String) (status : UserStatus) (r : User)
    → is_active status ≡ true
    → is_active_admin o r ≡ true
    → is_active_admin o (with_status status r) ≡ true
with_status-active o active r e h = ground arith
with_status-active o deactivated r e h = cc

-- An update of one member that leaves an admin an admin where it is `safe`, and where it is not finds
-- another one.
update-HasAdmin :
    (o org_id id : String) (f : User → User) (safe : Bool) (target : User) (db : Db)
    → IsKeyedByUser db.users
    → has_active_admin o db.users ≡ true
    → find (is_user org_id id) db.users ≡ some target
    → (safe ≡ true → (r : User) → is_active_admin o r ≡ true → is_active_admin o (f r) ≡ true)
    → (safe ≡ false
        → is_active_admin o target ≡ true
        → (other_active_admins db org_id id == 0) ≡ false)
    → has_active_admin o (update_where (is_user org_id id) f db.users) ≡ true
update-HasAdmin o org_id id f safe target db keyed h at keeps guard =
    let p : User → Bool = is_user org_id id in
    let q : User → Bool = is_active_admin o in
    elim (any_split p q db.users h) [
      | inl kept ↦ any-update_where p q f db.users kept
      | inr hit ↦
          let t = find_only user_id p id (is_user-id org_id id) q target db.users keyed at hit in
          let same = is_user-org o org_id id target (find_passes p target db.users at) t in
          elim (Bool-cases safe) [
            | inl e ↦ any-update_kept p q f db.users (λ r _. keeps e r) h
            | inr e ↦
                any-update_where p q f db.users (other_admin_kept o org_id id db same (guard e t))
          ]
    ]

pub change_user_role-HasAdmin :
    (o : String) (actor : Actor) (id : String) (role : Role) (db db' : Db)
    → IsKeyedByUser db.users
    → has_active_admin o db.users ≡ true
    → change_user_role actor id role db ≡ returns db'
    → has_active_admin o db'.users ≡ true
change_user_role-HasAdmin o actor id role db db' keyed h run =
    let (target, at, guard, _, (u, _)) = change_user_role-Rewrites actor id role db db' run in
    ap (has_active_admin o) u
    ∙ update-HasAdmin o actor.org_id id (with_role role) (is_admin role) target db keyed h at
        (λ e r. with_role-admin o role r e) (λ e t. ground (arith, guard, e, t))

pub set_user_status-HasAdmin :
    (o : String) (actor : Actor) (id : String) (status : UserStatus) (limit now : ℕ) (db db' : Db)
    → IsKeyedByUser db.users
    → has_active_admin o db.users ≡ true
    → set_user_status actor id status limit now db ≡ returns db'
    → has_active_admin o db'.users ≡ true
set_user_status-HasAdmin o actor id status limit now db db' keyed h run =
    let (target, at, guard, _, _, (u, _)) =
      set_user_status-Rewrites actor id status limit now db db' run in
    ap (has_active_admin o) u
    ∙ update-HasAdmin o actor.org_id id (with_status status) (is_active status) target db keyed h at
        (λ e r. with_status-active o status r e) (λ e t. ground (arith, guard, e, t))
