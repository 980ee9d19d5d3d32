-- ===== src/ControlPlane/Users/Approvals.antt =====
-- A member who may no longer approve apps keeps no key that was made for one.
use metamodels.Common.{ℕ, String, ◌≡◌, ap, ◌∙◌, false, any}
use metamodels.ControlPlane.Authorize.{viewer, Actor}
use metamodels.ControlPlane.Database.{Db, returns}
use metamodels.ControlPlane.Keys.{is_oauth_key_of}
use metamodels.ControlPlane.Keys.Revoke.{revoke_oauth_keys_for_user-keys}
use metamodels.ControlPlane.Users.{change_user_role, deactivated, set_user_status}
use metamodels.ControlPlane.Users.Effects.{change_user_role-Rewrites, set_user_status-Rewrites}

-- When a user's role is changed to viewer, no active key of the kind `oauth` of that user is left in the
-- organisation.
pub change_user_role-keys :
    (actor : Actor) (id : String) (db db' : Db)
    → change_user_role actor id viewer db ≡ returns db'
    → any (is_oauth_key_of actor.org_id id) db'.keys ≡ false
change_user_role-keys actor id db db' run =
    let (_, _, _, out, _) = change_user_role-Rewrites actor id viewer db db' run in
    ap (λ (x : Db). any (is_oauth_key_of actor.org_id id) x.keys) out
    ∙ revoke_oauth_keys_for_user-keys actor id "user.role" _

pub set_user_status-keys :
    (actor : Actor) (id : String) (limit now : ℕ) (db db' : Db)
    → set_user_status actor id deactivated limit now db ≡ returns db'
    → any (is_oauth_key_of actor.org_id id) db'.keys ≡ false
set_user_status-keys actor id limit now db db' run =
    let (_, _, _, _, out, _) = set_user_status-Rewrites actor id deactivated limit now db db' run in
    ap (λ (x : Db). any (is_oauth_key_of actor.org_id id) x.keys) out
    ∙ revoke_oauth_keys_for_user-keys actor id "user.deactivate" _
