-- ===== src/ControlPlane/Keys.antt =====
-- apps/control-plane/src/server/keys-service.ts: the API keys of an organisation.
pub mod Revoke
pub mod Mint
pub mod Rebind
pub mod Scope
use metamodels.Common.{
  append, ℕ, zero, suc, String, Bool, false, not, ◌&&◌, ◌||◌, Option, none, some, List, [], ◌∷◌,
  ◌++◌, map, str_eq, ◌==◌, if◌then◌else◌, length, filter, find, any, includes, pos,
}
use metamodels.Json.{Value, null, num, str, obj, end, field}
use metamodels.ControlPlane.Authorize.{Actor, resource_write, authorize}
use metamodels.ControlPlane.Database.{
  ◌>>=◌, ◌>>◌, Paddock, ApiKey, KeyPaddock, Db, not_found, invalid_input, unique_violation, Reply,
  returns, throws, fail_if, or_fail, require_capability, update_where, count_where, write_audit,
}

-- `createKeyInput`, as its schema gives it.
pub record CreateKeyInput : Type 0 where
  pub name : String
  pub paddock_ids : List String
  pub expires_at : Option ℕ
  pub overrides : Value

-- `GeneratedKey`: what `generateApiKey` makes.
pub record GeneratedKey : Type 0 where
  pub plaintext : String
  pub prefix : String
  pub hash : String

pub record CreatedKey : Type 0 where
  pub id : String
  pub name : String
  pub prefix : String
  pub plaintext : String

-- `[...new Set(ids)]`
unfoldable pub unique : List String → List String
unique [] = []
unique (x ∷ xs) = x ∷ filter (λ y. not (str_eq x y)) (unique xs)

-- `INSERT INTO api_key`: the id and the hash are unique.
abbrev pub clashes_key : ApiKey → ApiKey → Bool
clashes_key new k = str_eq k.id new.id || str_eq k.hash new.hash

abbrev pub insert_key : ApiKey → Db → Reply Db
insert_key new db =
    if any (clashes_key new) db.keys
    then throws unique_violation
    else returns (record db { keys = db.keys ++ new ∷ [] })

abbrev pub links_to : String → List String → List KeyPaddock
links_to key_id ids = map (λ p. record { key_id = key_id; paddock_id = p }) ids

abbrev pub in_ids : String → List String → Paddock → Bool
in_ids org_id ids p = str_eq p.org_id org_id && includes ids p.id

abbrev key_target : String → String
key_target id = append "key:" id

abbrev pub live_key_row : Actor → CreateKeyInput → GeneratedKey → String → ApiKey
live_key_row actor d secret id = record {
  id = id;
  org_id = actor.org_id;
  name = d.name;
  prefix = secret.prefix;
  hash = secret.hash;
  status = "active";
  expires_at = d.expires_at;
  overrides = d.overrides;
  kind = "live";
  grant_id = none;
  oauth_client_id = none;
  user_id = none;
}

unfoldable pub create_key :
    Actor → Option CreateKeyInput → GeneratedKey → String → Db → Reply (CreatedKey × Db)
unfolding authorize unique write_audit
create_key actor input secret new_id db = do
  require_capability actor resource_write
  d ← or_fail input invalid_input
  let ids = unique d.paddock_ids
  fail_if (not (count_where (in_ids actor.org_id ids) db.paddocks == length ids))
      (not_found "paddock (cross-org or missing)")
  db' ← insert_key (live_key_row actor d secret new_id) db
  returns (
    record { id = new_id; name = d.name; prefix = secret.prefix; plaintext = secret.plaintext },
    write_audit actor "key.create" (key_target new_id)
        (obj (field "name" (str d.name) (field "paddocks" (num (pos (length ids))) end)))
        (record db' { key_paddocks = db'.key_paddocks ++ links_to new_id ids }),
  )

abbrev pub is_key : String → String → ApiKey → Bool
is_key org_id id k = str_eq k.id id && str_eq k.org_id org_id

abbrev pub is_active_key : String → String → ApiKey → Bool
is_active_key org_id id k = is_key org_id id k && str_eq k.status "active"

abbrev pub revoked : ApiKey → ApiKey
revoked k = record k { status = "revoked" }

-- `revokeKey`: the update is a test and set.
unfoldable pub revoke_key : Actor → String → Db → Reply Db
unfolding authorize write_audit
revoke_key actor id db = do
  require_capability actor resource_write
  if any (is_active_key actor.org_id id) db.keys
      then returns (
          write_audit actor "key.revoke" (key_target id) null
            (record db { keys = update_where (is_active_key actor.org_id id) revoked db.keys }))
      else if any (is_key actor.org_id id) db.keys
      then returns db
      else throws (not_found id)

-- `slice(0, n)`, by characters: it counts units of UTF-16
unfoldable pub clip : ℕ → String → String
clip zero s = String.[]
clip (suc n) String.[] = String.[]
clip (suc n) (String.◌∷◌ c s) = String.◌∷◌ c (clip n s)

-- `oauthKeyName`
unfoldable pub oauth_key_name : String → String → String
unfolding clip
oauth_key_name client_name email = clip 120 (append client_name (append " (MCP) · " email))

pub record MintOauthKeyInput : Type 0 where
  pub client_id : String
  pub client_name : String
  pub paddock_slug : String
  pub grant_id : String

pub data MintOutcome : Type 0 where
  created rebound : MintOutcome

pub record MintedOauthKey : Type 0 where
  pub key_id : String
  pub outcome : MintOutcome

abbrev pub is_open_paddock : String → String → Paddock → Bool
is_open_paddock org_id slug p =
    str_eq p.org_id org_id && str_eq p.slug slug && str_eq p.status "active"

abbrev pub is_text : Option String → String → Bool
is_text none s = false
is_text (some t) s = str_eq t s

-- An active oauth key that the actor approved for the client.
abbrev pub is_approved : Actor → String → ApiKey → Bool
is_approved actor client_id k =
    str_eq k.org_id actor.org_id
    && str_eq k.kind "oauth"
    && str_eq k.status "active"
    && is_text k.user_id actor.id
    && is_text k.oauth_client_id client_id

abbrev pub is_linked : List KeyPaddock → String → ApiKey → Bool
is_linked links paddock_id k =
    any (λ (l : KeyPaddock). str_eq l.key_id k.id && str_eq l.paddock_id paddock_id) links

-- The key that a second consent rebinds.
abbrev pub is_bound : List KeyPaddock → Actor → String → String → ApiKey → Bool
is_bound links actor client_id paddock_id k =
    is_approved actor client_id k && is_linked links paddock_id k

unfoldable pub oauth_key_row : Actor → MintOauthKeyInput → String → String → ApiKey
unfolding oauth_key_name
oauth_key_row actor input id hash = record {
  id = id;
  org_id = actor.org_id;
  name = oauth_key_name input.client_name actor.email;
  prefix = "oauth";
  hash = hash;
  status = "active";
  expires_at = none;
  overrides = null;
  kind = "oauth";
  grant_id = some input.grant_id;
  oauth_client_id = some input.client_id;
  user_id = some actor.id;
}

abbrev oauth_detail : String → Value
oauth_detail client_id = obj (field "kind" (str "oauth") (field "client_id" (str client_id) end))

unfoldable pub rebind : Actor → MintOauthKeyInput → ApiKey → Db → Db
unfolding write_audit
rebind actor input k db =
    write_audit actor "key.rebind" (key_target k.id) (oauth_detail input.client_id) (record db {
      keys =
          update_where (λ (r : ApiKey). str_eq r.id k.id)
            (λ r. record r { grant_id = some input.grant_id }) db.keys;
    })

-- `hash` is that of the random bytes that nobody keeps.
unfoldable pub mint_for :
    Actor
    → MintOauthKeyInput
    → String
    → String
    → Db
    → String
    → Option ApiKey
    → Reply (MintedOauthKey × Db)
unfolding write_audit oauth_key_row rebind
mint_for actor input new_id hash db paddock_id (some k) =
    returns (record { key_id = k.id; outcome = rebound }, rebind actor input k db)
mint_for actor input new_id hash db paddock_id none = do
  db' ← insert_key (oauth_key_row actor input new_id hash) db
  returns (
    record { key_id = new_id; outcome = created },
    write_audit actor "key.create" (key_target new_id) (oauth_detail input.client_id)
        (record db' { key_paddocks = db'.key_paddocks ++ links_to new_id (paddock_id ∷ []) }),
  )

unfoldable pub mint_oauth_key :
    Actor → MintOauthKeyInput → String → String → Db → Reply (MintedOauthKey × Db)
unfolding authorize mint_for
mint_oauth_key actor input new_id hash db = do
  require_capability actor resource_write
  p ←
      or_fail (find (is_open_paddock actor.org_id input.paddock_slug) db.paddocks)
        (not_found input.paddock_slug)
  mint_for actor input new_id hash db p.id
      (find (is_bound db.key_paddocks actor input.client_id p.id) db.keys)

pub data OauthPreflight : Type 0 where
  allowed no_capability no_paddock : OauthPreflight

-- `preflightOauthKey`
unfoldable pub preflight_oauth_key : Actor → Option String → Db → OauthPreflight
unfolding authorize
preflight_oauth_key actor none db =
    if not (authorize actor resource_write) then no_capability else no_paddock
preflight_oauth_key actor (some slug) db =
    if not (authorize actor resource_write)
    then no_capability
    else if any (is_open_paddock actor.org_id slug) db.paddocks
    then allowed
    else no_paddock

abbrev pub is_oauth_key_of : String → String → ApiKey → Bool
is_oauth_key_of org_id user_id k =
    str_eq k.org_id org_id
    && is_text k.user_id user_id
    && str_eq k.kind "oauth"
    && str_eq k.status "active"

-- An audit row for each key that was revoked.
unfoldable pub audit_revoked : Actor → String → List ApiKey → Db → Db
unfolding write_audit
audit_revoked actor reason [] db = db
audit_revoked actor reason (k ∷ ks) db = audit_revoked actor reason ks (
    write_audit actor "key.revoke" (key_target k.id)
      (obj (field "kind" (str "oauth") (field "reason" (str reason) end))) db)

-- `revokeOauthKeysForUser`
unfoldable pub revoke_oauth_keys_for_user : Actor → String → String → Db → ℕ × Db
unfolding audit_revoked
revoke_oauth_keys_for_user actor user_id reason db =
    let hit = filter (is_oauth_key_of actor.org_id user_id) db.keys in
    (
      length hit,
      audit_revoked actor reason hit (record db {
        keys = update_where (is_oauth_key_of actor.org_id user_id) revoked db.keys;
      }),
    )
