-- ===== src/Examples/Keys.antt =====
-- A member's API keys: one that is made and revoked, and one that a consent makes.
use metamodels.Common.{String, ◌≡◌, refl, true, false, none, some, List, [], ◌∷◌, map, any, All, In}
use metamodels.Json.{null}
use metamodels.ControlPlane.Authorize.{member, viewer, Actor, session, authorize}
use metamodels.ControlPlane.Database.{Paddock, KeyPaddock, ApiKey, Db, returns, write_audit}
use metamodels.ControlPlane.Keys.{
  CreateKeyInput, GeneratedKey, CreatedKey, unique, create_key, is_active_key, revoke_key,
  MintOauthKeyInput, MintedOauthKey, rebound, mint_for, mint_oauth_key, preflight_oauth_key,
  is_oauth_key_of, audit_revoked, revoke_oauth_keys_for_user,
}
use metamodels.ControlPlane.Keys.Revoke.{revoke_key_twice}
use metamodels.ControlPlane.Keys.Mint.{returned, is_allowed, mint_oauth_key-preflight}
use metamodels.ControlPlane.Keys.Rebind.{with_grant, is_granted, mint_oauth_key_twice}
use metamodels.ControlPlane.Keys.Scope.{IsScoped, link_paddock, create_key-Scoped}
use metamodels.ControlPlane.Users.{change_user_role}
use metamodels.ControlPlane.Users.Approvals.{change_user_role-keys}
use metamodels.Examples.Members.{value_of, as_ada, ada, bob}

abbrev meadow : Paddock
meadow = record {
  id = "p1";
  org_id = "acme";
  flock_id = "f1";
  slug = "meadow";
  name = "Meadow";
  status = "active";
  theme = "";
}

abbrev one_paddock : Db
one_paddock = record {
  users = ada ∷ bob ∷ [];
  invites = [];
  entitlements = [];
  flocks = [];
  paddocks = meadow ∷ [];
  keys = [];
  key_paddocks = [];
  audit = [];
}

abbrev as_bob : Actor
as_bob = record {
  id = "u2";
  org_id = "acme";
  email = "bob@acme.test";
  role = member;
  grants = none;
  credential = session;
}

abbrev wanted : CreateKeyInput
wanted = record { name = "CI"; paddock_ids = "p1" ∷ "p1" ∷ []; expires_at = none; overrides = null }

abbrev secret : GeneratedKey
secret = record { plaintext = "mm_live_1"; prefix = "mm_live_"; hash = "h1" }

no_key : CreatedKey
no_key = record { id = ""; name = ""; prefix = ""; plaintext = "" }

unfoldable made : CreatedKey × Db
unfolding create_key
made = value_of (no_key, one_paddock) (create_key as_ada (some wanted) secret "k1" one_paddock)

made_run : create_key as_ada (some wanted) secret "k1" one_paddock ≡ returns made
unfolding create_key made write_audit authorize unique
made_run = refl

create_key-Scoped_example :
    (links : List KeyPaddock) × (made.1.key_paddocks ≡ links)
    × All (IsScoped as_ada wanted "k1" one_paddock) links
    × All (λ p. In p (map link_paddock links)) wanted.paddock_ids
    × (k : ApiKey) × (made.1.keys ≡ k ∷ [])
    × (k.id ≡ "k1")
    × (k.org_id ≡ "acme")
    × (k.hash ≡ "h1")
create_key-Scoped_example =
    create_key-Scoped as_ada wanted secret "k1" one_paddock made (refl, tt) made_run

unfoldable without : Db
unfolding revoke_key made
without = value_of one_paddock (revoke_key as_ada "k1" made.1)

without_run : revoke_key as_ada "k1" made.1 ≡ returns without
unfolding revoke_key without made write_audit authorize create_key unique
without_run = refl

revoke_key_twice_example :
    (any (is_active_key "acme" "k1") without.keys ≡ false)
    × (revoke_key as_ada "k1" without ≡ returns without)
revoke_key_twice_example = revoke_key_twice as_ada "k1" made.1 without without_run

abbrev consent_of : String → MintOauthKeyInput
consent_of grant = record {
  client_id = "c1";
  client_name = "Desk";
  paddock_slug = "meadow";
  grant_id = grant;
}

mint_oauth_key-preflight_example :
    returned (mint_oauth_key as_bob (consent_of "g1") "k2" "h2" one_paddock)
    ≡ is_allowed (preflight_oauth_key as_bob (some "meadow") one_paddock)
mint_oauth_key-preflight_example =
    mint_oauth_key-preflight as_bob (consent_of "g1") "k2" "h2" one_paddock refl

abbrev no_mint : MintedOauthKey
no_mint = record { key_id = ""; outcome = rebound }

unfoldable minted : MintedOauthKey × Db
unfolding mint_oauth_key
minted =
    value_of (no_mint, one_paddock) (mint_oauth_key as_bob (consent_of "g1") "k2" "h2" one_paddock)

minted_run : mint_oauth_key as_bob (consent_of "g1") "k2" "h2" one_paddock ≡ returns minted
unfolding mint_oauth_key minted write_audit authorize mint_for
minted_run = refl

mint_oauth_key_twice_example :
    (db' : Db) × (mint_oauth_key as_bob (consent_of "g2") "k3" "h3" minted.1
      ≡ returns (record { key_id = minted.0.key_id; outcome = rebound }, db'))
    × (db'.keys ≡ map (with_grant minted.0.key_id "g2") minted.1.keys)
    × (any (is_granted minted.0.key_id "g2") db'.keys ≡ true)
mint_oauth_key_twice_example =
    mint_oauth_key_twice as_bob (consent_of "g1") (consent_of "g2") "k2" "k3" "h2" "h3" one_paddock
      minted minted_run refl refl

unfoldable demoted : Db
unfolding change_user_role minted
demoted = value_of one_paddock (change_user_role as_ada "u2" viewer minted.1)

demoted_run : change_user_role as_ada "u2" viewer minted.1 ≡ returns demoted
unfolding change_user_role demoted minted write_audit authorize mint_for mint_oauth_key
    revoke_oauth_keys_for_user audit_revoked
demoted_run = refl

change_user_role-keys_example : any (is_oauth_key_of "acme" "u2") demoted.keys ≡ false
change_user_role-keys_example = change_user_role-keys as_ada "u2" minted.1 demoted demoted_run
