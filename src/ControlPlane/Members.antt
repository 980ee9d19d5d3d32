-- ===== src/ControlPlane/Members.antt =====
-- apps/control-plane/src/server: every way in which the members and the invites of the organisations
-- change, as a step. `limit` is the seats of an organisation, which the callers read before they call.
pub mod Seats
pub mod Admins
use metamodels.Common.{ℕ, ◌≤◌, String, ◌≡◌, Option, length}
use metamodels.ControlPlane.Authorize.{Role, Actor}
use metamodels.ControlPlane.Database.{Db, returns}
use metamodels.ControlPlane.Users.{change_user_role, UserStatus, set_user_status}
use metamodels.ControlPlane.Invites.{
  InviteInput, CreatedInvite, invite_user, revoke_invite, accept_invite,
}

module _ (hash_invite_token : String → String) (limit : String → ℕ) where
  pub data Step : ℕ → Db → Db → Type 0 where
    changes_role :
        (actor : Actor) (id : String) (role : Role) {now : ℕ} {db db' : Db}
        → change_user_role actor id role db ≡ returns db'
        → Step now db db'
    changes_status :
        (actor : Actor) (id : String) (status : UserStatus) {now : ℕ} {db db' : Db}
        → set_user_status actor id status (limit actor.org_id) now db ≡ returns db'
        → Step now db db'
    invites :
        (actor : Actor) (input : Option InviteInput) (token id : String) {now : ℕ} {db : Db}
        (made : CreatedInvite × Db)
        → invite_user hash_invite_token actor input token id (limit actor.org_id) now db
          ≡ returns made
        → Step now db made.1
    revokes :
        (actor : Actor) (id : String) {now : ℕ} {db db' : Db}
        → revoke_invite actor id db ≡ returns db'
        → Step now db db'
    accepts :
        (token : String) (length : ℕ) (password_hash id : String) {now : ℕ} {db : Db}
        (made : Actor × Db)
        → accept_invite hash_invite_token token length password_hash id now db ≡ returns made
        → Step now db made.1

  -- Steps one after the other, from one time to a later one.
  pub data Steps : ℕ → Db → ℕ → Db → Type 0 where
    waits : {start now : ℕ} {db : Db} → start ≤ now → Steps start db now db
    steps :
        {start now later : ℕ} {db db' db'' : Db}
        → Steps start db now db'
        → now ≤ later
        → Step later db' db''
        → Steps start db later db''
