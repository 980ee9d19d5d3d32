-- ===== src/ControlPlane/Invites.antt =====
-- apps/control-plane/src/server/invites-service.ts: how users join an organisation.
pub mod Effects
use metamodels.Common.{
  append, ℕ, ◌+◌, String, Bool, not, ◌&&◌, ◌||◌, Option, none, some, [], ◌∷◌, ◌++◌, str_eq, ltb,
  leb, if◌then◌else◌, find, any,
}
use metamodels.Json.{null, str, obj, end, field}
use metamodels.ControlPlane.Authorize.{
  Role, viewer, Actor, user_manage, authorize, session, role_name, parse_role,
}
use metamodels.ControlPlane.Database.{
  ◌>>=◌, ◌>>◌, User, Invite, Db, not_found, duplicate_invite, seat_limit, invalid_input,
  unique_violation, invite_invalid, invite_expired, invite_accepted, password_too_short, Reply,
  returns, throws, fail_if, or_fail, require_capability, update_where, delete_where, write_audit,
}
use metamodels.ControlPlane.Seats.{
  is_open, is_active_user, is_pending, count_active_users, count_pending_invites,
}

-- `INVITE_TTL_MS`
abbrev pub invite_ttl_ms : ℕ
invite_ttl_ms = 604800000

-- `inviteInput`, as its schema gives it: the email is trimmed and in lower case.
pub record InviteInput : Type 0 where
  pub email : String
  pub role : Role

pub record CreatedInvite : Type 0 where
  pub id : String
  pub email : String
  pub role : String
  pub token : String

abbrev pub clashes_invite : Invite → Invite → Bool
clashes_invite new i = str_eq i.id new.id || str_eq i.token_hash new.token_hash

abbrev pub insert_invite : Invite → Db → Reply Db
insert_invite new db =
    if any (clashes_invite new) db.invites
    then throws unique_violation
    else returns (record db { invites = db.invites ++ new ∷ [] })

abbrev invite_target : String → String
invite_target id = append "invite:" id

abbrev pub invite_row : Actor → InviteInput → String → String → ℕ → Invite
invite_row actor d id token_hash now = record {
  id = id;
  org_id = actor.org_id;
  email = d.email;
  role = role_name d.role;
  token_hash = token_hash;
  expires_at = now + invite_ttl_ms;
  accepted_at = none;
}

abbrev pub is_revocable : String → String → Invite → Bool
is_revocable org_id id i = str_eq i.id id && str_eq i.org_id org_id && is_open i.accepted_at

abbrev pub clashes_user : User → User → Bool
clashes_user new u = str_eq u.id new.id || str_eq u.email new.email

abbrev pub insert_user : User → Db → Reply Db
insert_user new db =
    if any (clashes_user new) db.users
    then throws unique_violation
    else returns (record db { users = db.users ++ new ∷ [] })

abbrev pub role_or_viewer : Option Role → Role
role_or_viewer none = viewer
role_or_viewer (some r) = r

abbrev pub accepted : ℕ → Invite → Invite
accepted now i = record i { accepted_at = some now }

abbrev pub user_row : Invite → Role → String → String → User
user_row inv role password_hash id = record {
  id = id;
  org_id = inv.org_id;
  email = inv.email;
  password_hash = password_hash;
  role = role_name role;
  status = "active";
}

-- What the transaction of `acceptInvite` does with the invite that was read.
unfoldable pub accept_read : Invite → String → String → ℕ → Db → Reply (Actor × Db)
unfolding write_audit parse_role
accept_read inv password_hash new_id now db = do
  let role = role_or_viewer (parse_role inv.role)
  fail_if (not (any (λ (i : Invite). str_eq i.id inv.id && is_open i.accepted_at) db.invites))
      invite_accepted
  db' ← insert_user (user_row inv role password_hash new_id) db
  let actor : Actor = record {
    id = new_id;
    org_id = inv.org_id;
    email = inv.email;
    role = role;
    grants = none;
    credential = session;
  }
  returns (
    actor,
    write_audit actor "user.accept" (append "user:" new_id)
        (obj (field "role" (str (role_name role)) (field "invite" (str inv.id) end)))
        (record db' {
          invites = update_where (λ (i : Invite). str_eq i.id inv.id) (accepted now) db'.invites;
        }),
  )

module _ (hash_invite_token : String → String) where
  -- `inviteUser`, under the lock of the organisation; `token` is random.
  unfoldable pub invite_user :
      Actor → Option InviteInput → String → String → ℕ → ℕ → Db → Reply (CreatedInvite × Db)
  unfolding authorize write_audit
  invite_user actor input token new_id limit now db = do
    require_capability actor user_manage
    d ← or_fail input invalid_input
    fail_if
        (leb limit (count_active_users db actor.org_id + count_pending_invites db actor.org_id now))
        seat_limit
    fail_if
        (any (λ (u : User). is_active_user actor.org_id u && str_eq u.email d.email) db.users
          || any (λ (i : Invite). is_pending actor.org_id now i && str_eq i.email d.email)
              db.invites)
        (duplicate_invite d.email)
    db' ← insert_invite (invite_row actor d new_id (hash_invite_token token) now) db
    returns (
      record { id = new_id; email = d.email; role = role_name d.role; token = token },
      write_audit actor "user.invite" (invite_target new_id)
          (obj (field "email" (str d.email) (field "role" (str (role_name d.role)) end))) db',
    )

  -- `acceptInvite`; `password_length` and `password_hash` are of the password.
  unfoldable pub accept_invite : String → ℕ → String → String → ℕ → Db → Reply (Actor × Db)
  unfolding accept_read
  accept_invite token password_length password_hash new_id now db = do
    fail_if (ltb password_length 8) password_too_short
    inv ←
        or_fail (find (λ (i : Invite). str_eq i.token_hash (hash_invite_token token)) db.invites)
          invite_invalid
    fail_if (not (is_open inv.accepted_at)) invite_accepted
    fail_if (leb inv.expires_at now) invite_expired
    accept_read inv password_hash new_id now db

-- `revokeInvite`
unfoldable pub revoke_invite : Actor → String → Db → Reply Db
unfolding authorize write_audit
revoke_invite actor id db = do
  require_capability actor user_manage
  fail_if (not (any (is_revocable actor.org_id id) db.invites)) (not_found id)
  returns (
      write_audit actor "invite.revoke" (invite_target id) null
        (record db { invites = delete_where (is_revocable actor.org_id id) db.invites }))
