-- ===== src/ControlPlane/Flocks.antt =====
-- apps/control-plane/src/server/flocks-service.ts: flocks, whose credential is written and never read back.
pub mod Credential
use metamodels.Common.{
  append, String, Bool, true, false, not, ◌&&◌, ◌||◌, Option, none, some, [], ◌∷◌, ◌++◌, str_eq,
  if◌then◌else◌, or_else, is_some, find, any,
}
use metamodels.Json.{Fields, null, str, obj, end, field}
use metamodels.Schema.Sealed.{
  SealBinding, UnsealReason, Opened, opened, unsealed, bad_binding, Crypto, SealKeyring, seal,
  open_sealed,
}
use metamodels.ControlPlane.Authorize.{Actor, read, resource_write, authorize}
use metamodels.ControlPlane.Database.{
  ◌>>=◌, ◌>>◌, FlockRow, Db, not_found, credential_rebind, invalid_input, unique_violation,
  bad_binding as unsealable, Reply, returns, throws, fail_if, or_fail, require_capability,
  update_where, delete_where, write_audit, delete_paddocks, Paddock,
}

-- A credential in the input is omitted, `null`, or a token.
pub data Tristate : Type 0 where
  omitted cleared : Tristate
  token : String → Tristate

-- `saveFlockInput`, as its schema gives it.
pub record SaveFlockInput : Type 0 where
  pub id : Option String
  pub breed : String
  pub name : String
  pub base_url : String
  pub upstream_auth : Tristate
  pub tls_trust : Bool

-- A row without its credential.
pub record FlockView : Type 0 where
  pub id : String
  pub org_id : String
  pub breed : String
  pub name : String
  pub base_url : String
  pub tls_trust : Bool
  pub health_ok : Option Bool
  pub has_upstream_auth : Bool

abbrev pub flock_view : FlockRow → FlockView
flock_view r = record {
  id = r.id;
  org_id = r.org_id;
  breed = r.breed;
  name = r.name;
  base_url = r.base_url;
  tls_trust = r.tls_trust;
  health_ok = r.health_ok;
  has_upstream_auth = is_some r.upstream_auth_enc;
}

abbrev pub is_flock : String → String → FlockRow → Bool
is_flock org_id id r = str_eq r.id id && str_eq r.org_id org_id

-- `getFlock`
unfoldable pub get_flock : Actor → String → Db → Reply FlockView
unfolding authorize
get_flock actor id db = do
  require_capability actor read
  r ← or_fail (find (is_flock actor.org_id id) db.flocks) (not_found id)
  returns (flock_view r)

-- `upstream_auth` is the opened credential, `error` why a stored one does not open.
pub record FlockConnection : Type 0 where
  pub breed : String
  pub base_url : String
  pub tls_trust : Bool
  pub upstream_auth : Option String
  pub error : Option UnsealReason

-- `movesCredential`
abbrev pub moves_credential : FlockRow → SaveFlockInput → Bool
moves_credential stored next =
    not (str_eq stored.base_url next.base_url) || (not stored.tls_trust && next.tls_trust)

abbrev pub rebinds : SaveFlockInput → Option FlockRow → Bool
rebinds d none = false
rebinds d (some stored) = is_some stored.upstream_auth_enc && moves_credential stored d

abbrev pub is_omitted : Tristate → Bool
is_omitted omitted = true
is_omitted cleared = false
is_omitted (token t) = false

abbrev same_bool : Bool → Bool → Bool
same_bool true b = b
same_bool false b = not b

-- The probe's result stays where the connection does.
abbrev health_after : FlockRow → SaveFlockInput → Option Bool
health_after r d =
    if is_omitted d.upstream_auth
      && str_eq r.breed d.breed
      && str_eq r.base_url d.base_url
      && same_bool r.tls_trust d.tls_trust
    then r.health_ok
    else none

-- The column that is written; an omitted one is not.
abbrev pub enc_after : Option String → Option (Option String) → Option String
enc_after stored none = stored
enc_after stored (some enc) = enc

abbrev pub with_input : SaveFlockInput → Option (Option String) → FlockRow → FlockRow
with_input d enc r = record r {
  breed = d.breed;
  name = d.name;
  base_url = d.base_url;
  tls_trust = d.tls_trust;
  upstream_auth_enc = enc_after r.upstream_auth_enc enc;
  health_ok = health_after r d;
}

abbrev flock_target : String → String
flock_target id = append "flock:" id

abbrev credential_audit : Tristate → Fields
credential_audit omitted = end
credential_audit cleared = field "upstreamAuth" (str "cleared") end
credential_audit (token t) = field "upstreamAuth" (str "set") end

abbrev pub insert_flock : FlockRow → Db → Reply Db
insert_flock new db =
    if any (λ (r : FlockRow). str_eq r.id new.id) db.flocks
    then throws unique_violation
    else returns (record db { flocks = db.flocks ++ new ∷ [] })

-- The stored credential as a caller on the server gets it.
abbrev pub connection : FlockRow → Option String → Option UnsealReason → FlockConnection
connection r auth error = record {
  breed = r.breed;
  base_url = r.base_url;
  tls_trust = r.tls_trust;
  upstream_auth = auth;
  error = error;
}

abbrev pub connected : FlockRow → Opened → Reply FlockConnection
connected r (opened t) = returns (connection r (some t) none)
connected r (unsealed reason) = returns (connection r none (some reason))
connected r bad_binding = throws unsealable

unfoldable pub update_flock :
    Actor → SaveFlockInput → String → Option (Option String) → Db → Reply (FlockView × Db)
unfolding write_audit
update_flock actor d id enc db = do
  fail_if (is_omitted d.upstream_auth && rebinds d (find (is_flock actor.org_id id) db.flocks))
      credential_rebind
  r ← or_fail (find (is_flock actor.org_id id) db.flocks) (not_found id)
  returns (
    flock_view (with_input d enc r),
    write_audit actor "flock.update" (flock_target id)
        (obj (field "name" (str d.name) (credential_audit d.upstream_auth)))
        (record db {
          flocks = update_where (is_flock actor.org_id id) (with_input d enc) db.flocks;
        }),
  )

abbrev pub flock_row : Actor → SaveFlockInput → String → Option (Option String) → FlockRow
flock_row actor d id enc = record {
  id = id;
  org_id = actor.org_id;
  breed = d.breed;
  name = d.name;
  base_url = d.base_url;
  upstream_auth_enc = enc_after none enc;
  tls_trust = d.tls_trust;
  health_ok = none;
}

unfoldable pub create_flock :
    Actor → SaveFlockInput → String → Option (Option String) → Db → Reply (FlockView × Db)
unfolding write_audit
create_flock actor d id enc db = do
  db' ← insert_flock (flock_row actor d id enc) db
  returns (
    flock_view (flock_row actor d id enc),
    write_audit actor "flock.create" (flock_target id)
        (obj (
          field "name" (str d.name)
            (field "breed" (str d.breed) (credential_audit d.upstream_auth))))
        db',
  )

unfoldable pub write_flock :
    Actor
    → SaveFlockInput
    → String
    → Option String
    → Option (Option String)
    → Db
    → Reply (FlockView × Db)
unfolding update_flock create_flock
write_flock actor d new_id (some id) enc db = update_flock actor d id enc db
write_flock actor d new_id none enc db = create_flock actor d new_id enc db

-- `upstreamAuthKeys()` is `ring`.
module _ (crypto : Crypto) (lower_case : String → String) (ring : SealKeyring crypto) where
  unfoldable pub open_stored : FlockRow → String → String → Option String → Reply FlockConnection
  unfolding open_sealed
  open_stored r org_id id none = returns (connection r none none)
  open_stored r org_id id (some enc) =
      connected r
        (open_sealed crypto lower_case enc ring (record { org_id = org_id; flock_id = id }))

  -- `openConnection`
  abbrev pub open_connection : FlockRow → String → String → Reply FlockConnection
  unfolding open_stored
  open_connection r org_id id = open_stored r org_id id r.upstream_auth_enc

  unfoldable pub get_flock_connection : Actor → String → Db → Reply FlockConnection
  unfolding open_stored authorize
  get_flock_connection actor id db = do
    require_capability actor read
    r ← or_fail (find (is_flock actor.org_id id) db.flocks) (not_found id)
    open_stored r actor.org_id id r.upstream_auth_enc

  -- The column of the credential: not named, cleared, or sealed for the flock.
  unfoldable pub credential : Tristate → SealBinding → crypto.Bytes → Reply (Option (Option String))
  unfolding seal
  credential omitted bind iv = returns none
  credential cleared bind iv = returns (some none)
  credential (token t) bind iv = do
    enc ← or_fail (seal crypto lower_case t ring bind iv) unsealable
    returns (some (some enc))

  -- `new_id` and `iv` are random.
  unfoldable pub save_flock :
      Actor → Option SaveFlockInput → String → crypto.Bytes → Db → Reply (FlockView × Db)
  unfolding credential write_flock authorize
  save_flock actor input new_id iv db = do
    require_capability actor resource_write
    d ← or_fail input invalid_input
    enc ←
        credential d.upstream_auth
          (record { org_id = actor.org_id; flock_id = or_else d.id new_id }) iv
    write_flock actor d new_id d.id enc db

unfoldable pub record_flock_health : String → String → Bool → Db → Db
record_flock_health org_id id ok db = record db {
  flocks = update_where (is_flock org_id id) (λ r. record r { health_ok = some ok }) db.flocks;
}

unfoldable pub delete_flock : Actor → String → Db → Reply Db
unfolding authorize write_audit delete_paddocks
delete_flock actor id db = do
  require_capability actor resource_write
  fail_if (not (any (is_flock actor.org_id id) db.flocks)) (not_found id)
  returns (
      write_audit actor "flock.delete" (flock_target id) null (
        delete_paddocks (λ (p : Paddock). str_eq p.flock_id id)
          (record db { flocks = delete_where (is_flock actor.org_id id) db.flocks })))
