-- ===== src/ControlPlane/Keys/Mint.antt =====
-- A consent of the OpenID provider: what `preflightOauthKey` promises of `mintOauthKey`, and a second mint.
use metamodels.Common.{
  String, ◌≡◌, refl, sym, ap, ◌∙◌, inl, inr, Bool, true, false, ◌&&◌, Option, none, some,
  Bool-cases, is_some, find, any,
}
use metamodels.ControlPlane.Authorize.{Actor, resource_write, authorize}
use metamodels.ControlPlane.Database.{ApiKey, Paddock, Db, Reply, returns, throws}
use metamodels.ControlPlane.Rows.{is_some-find}
use metamodels.ControlPlane.Keys.{
  clashes_key, MintOauthKeyInput, is_open_paddock, is_bound, oauth_key_row, mint_for,
  mint_oauth_key, OauthPreflight, allowed, no_capability, no_paddock, preflight_oauth_key,
}

abbrev pub returned {ℓ} : {A : Type ℓ} → Reply A → Bool
returned (returns a) = true
returned (throws e) = false

abbrev pub is_allowed : OauthPreflight → Bool
is_allowed allowed = true
is_allowed no_capability = false
is_allowed no_paddock = false

mint_for-returns :
    (actor : Actor) (input : MintOauthKeyInput) (id hash : String) (db : Db) (paddock_id : String)
    (o : Option ApiKey)
    → any (clashes_key (oauth_key_row actor input id hash)) db.keys ≡ false
    → returned (mint_for actor input id hash db paddock_id o) ≡ true
unfolding mint_for
mint_for-returns actor input id hash db paddock_id (some k) fresh = refl
mint_for-returns actor input id hash db paddock_id none fresh = simp fresh

mint_oauth_key-returns :
    (actor : Actor) (input : MintOauthKeyInput) (id hash : String) (db : Db) (o : Option Paddock)
    → find (is_open_paddock actor.org_id input.paddock_slug) db.paddocks ≡ o
    → any (clashes_key (oauth_key_row actor input id hash)) db.keys ≡ false
    → returned (mint_oauth_key actor input id hash db) ≡ authorize actor resource_write && is_some o
unfolding mint_oauth_key
mint_oauth_key-returns actor input id hash db none at fresh =
    elim (Bool-cases (authorize actor resource_write)) [
      | inl may ↦ simp (may, at)
      | inr not_may ↦ simp not_may
    ]
mint_oauth_key-returns actor input id hash db (some p) at fresh =
    elim (Bool-cases (authorize actor resource_write)) [
      | inl may ↦ simp (
        may,
        at,
        mint_for-returns actor input id hash db p.id
            (find (is_bound db.key_paddocks actor input.client_id p.id) db.keys) fresh,
      )
      | inr not_may ↦ simp not_may
    ]

preflight_oauth_key-allowed :
    (actor : Actor) (slug : String) (db : Db)
    → is_allowed (preflight_oauth_key actor (some slug) db)
      ≡ authorize actor resource_write && any (is_open_paddock actor.org_id slug) db.paddocks
unfolding preflight_oauth_key
preflight_oauth_key-allowed actor slug db = elim (Bool-cases (authorize actor resource_write)) [
  | inl may ↦ elim (Bool-cases (any (is_open_paddock actor.org_id slug) db.paddocks)) [
    | inl there ↦ simp (may, there)
    | inr absent ↦ simp (may, absent)
  ]
  | inr not_may ↦ simp not_may
]

-- When no key has the new id or the new hash, a mint succeeds exactly when the preflight of the same actor and
-- paddock slug allows it.
pub mint_oauth_key-preflight :
    (actor : Actor) (input : MintOauthKeyInput) (id hash : String) (db : Db)
    → any (clashes_key (oauth_key_row actor input id hash)) db.keys ≡ false
    → returned (mint_oauth_key actor input id hash db)
      ≡ is_allowed (preflight_oauth_key actor (some input.paddock_slug) db)
mint_oauth_key-preflight actor input id hash db fresh =
    mint_oauth_key-returns actor input id hash db
      (find (is_open_paddock actor.org_id input.paddock_slug) db.paddocks) refl fresh
    ∙ ap (λ b. authorize actor resource_write && b)
        (is_some-find (is_open_paddock actor.org_id input.paddock_slug) db.paddocks)
    ∙ sym (preflight_oauth_key-allowed actor input.paddock_slug db)
