-- ===== src/ControlPlane/Keys/Rebind.antt =====
-- A second consent of a member for an app and a paddock.
use metamodels.Common.{
  String, ◌≡◌, refl, sym, ap, ◌∙◌, inl, inr, Bool, true, false, ◌&&◌, ◌||◌, Option, none, some,
  List, [], ◌∷◌, ◌++◌, map, arith, str_eq, eq_iff, eq_refl, if◌then◌else◌, Bool-cases, is_some,
  find, any,
}
use metamodels.ControlPlane.Authorize.{Actor, resource_write, authorize}
use metamodels.ControlPlane.Database.{ApiKey, Paddock, Db, returns, not_found, write_audit}
use metamodels.ControlPlane.Rows.{is_some-find, find_new, find_updated, any-snoc, any_less_two}
use metamodels.ControlPlane.Success.{allowed_to, returns-inj, found, went_on, not_refused}
use metamodels.ControlPlane.Keys.{
  clashes_key, insert_key, links_to, MintOauthKeyInput, MintedOauthKey, rebound, is_open_paddock,
  is_linked, is_bound, is_text, oauth_key_row, mint_for, mint_oauth_key, rebind,
}

-- What a rebinding makes of a row of the keys.
abbrev pub with_grant : String → String → ApiKey → ApiKey
with_grant id grant k = if str_eq k.id id then record k { grant_id = some grant } else k

abbrev pub is_granted : String → String → ApiKey → Bool
is_granted id grant k = str_eq k.id id && is_text k.grant_id grant

abbrev id_of : Option ApiKey → String
id_of none = ""
id_of (some k) = k.id

-- A key that was found is under the grant when its rows are.
found-granted :
    (p : ApiKey → Bool) (grant : String) (k : ApiKey) (rows : List ApiKey)
    → find p rows ≡ some k
    → any (is_granted k.id grant) (map (with_grant k.id grant) rows) ≡ true
found-granted p grant k [] h = cc
found-granted p grant k (r ∷ rows) h = elim (Bool-cases (p r)) [
  | inl here ↦
      let same : some r ≡ some k = sym (rw here refl) ∙ h in
      let e : r.id ≡ k.id = ap (λ (o : Option ApiKey). id_of o) same in
      rw ((eq_iff r.id k.id).1 e) (ground (arith, (eq_iff r.id k.id).1 e, eq_refl grant))
  | inr later ↦ ground (arith, found-granted p grant k rows (sym (rw later refl) ∙ h))
]

-- The key that a member's next consent for the app and the paddock finds.
abbrev pub bound_key : Db → Actor → String → String → Option ApiKey
bound_key db actor client_id paddock_id =
    find (is_bound db.key_paddocks actor client_id paddock_id) db.keys

rebind_id :
    (b : Bool) (k : ApiKey) (grant_id : String)
    → (if b then (record k { grant_id = some grant_id }) else k).id ≡ k.id
rebind_id true k grant_id = refl
rebind_id false k grant_id = refl

or_true : (b : Bool) → (b || true) ≡ true
or_true true = refl
or_true false = refl

find-none : {A : Type 0} (p : A → Bool) (rows : List A) → find p rows ≡ none → any p rows ≡ false
find-none p rows h = sym (is_some-find p rows) ∙ ap is_some h

new_bound :
    (actor : Actor) (input : MintOauthKeyInput) (id hash : String) (db : Db) (paddock_id : String)
    → any (clashes_key (oauth_key_row actor input id hash)) db.keys ≡ false
    → bound_key db actor input.client_id paddock_id ≡ none
    → find
        (is_bound
          (db.key_paddocks ++ links_to id (paddock_id ∷ []))
          actor
          input.client_id
          paddock_id)
        (db.keys ++ oauth_key_row actor input id hash ∷ [])
      ≡ some (oauth_key_row actor input id hash)
unfolding oauth_key_row
new_bound actor input id hash db paddock_id fresh at =
    let new = oauth_key_row actor input id hash in
    let linked : ApiKey → Bool =
      is_linked (db.key_paddocks ++ links_to id (paddock_id ∷ [])) paddock_id in
    let more : (k : ApiKey)
        → linked k ≡ (
            is_linked db.key_paddocks paddock_id k
            || (str_eq id k.id && str_eq paddock_id paddock_id)) =
      λ k. any-snoc _ db.key_paddocks (record { key_id = id; paddock_id = paddock_id }) in
    find_new
      (is_bound (db.key_paddocks ++ links_to id (paddock_id ∷ [])) actor input.client_id paddock_id)
      db.keys new
      (any_less_two (is_bound db.key_paddocks actor input.client_id paddock_id) (clashes_key new) _
        db.keys (λ k h j. ground (arith, h, j, more k, eq_iff id k.id, eq_iff k.id id))
        (find-none _ db.keys at) fresh)
      (simp (
        more new,
        eq_refl actor.org_id,
        eq_refl actor.id,
        eq_refl input.client_id,
        eq_refl id,
        eq_refl paddock_id,
        or_true,
      ))

-- What a mint leaves: the paddocks, and the key that it gave as the one that is bound.
mint_for-bound :
    (actor : Actor) (input : MintOauthKeyInput) (id hash : String) (db : Db) (paddock_id : String)
    (o : Option ApiKey) (made : MintedOauthKey × Db)
    → bound_key db actor input.client_id paddock_id ≡ o
    → mint_for actor input id hash db paddock_id o ≡ returns made
    → (k : ApiKey) × (bound_key made.1 actor input.client_id paddock_id ≡ some k)
      × (k.id ≡ made.0.key_id)
      × (made.1.paddocks ≡ db.paddocks)
unfolding mint_for rebind write_audit
mint_for-bound actor input id hash db paddock_id (some k) made at run =
    let out = sym (returns-inj _ made run) in
    let same =
      find_updated (λ (r : ApiKey). str_eq r.id k.id)
        (is_bound db.key_paddocks actor input.client_id paddock_id)
        (λ r. record r { grant_id = some input.grant_id }) k db.keys (λ r. refl) at in
    (
      _,
      ap (λ (m : MintedOauthKey × Db). bound_key m.1 actor input.client_id paddock_id) out ∙ same,
      rebind_id (str_eq k.id k.id) k input.grant_id
          ∙ ap (λ (m : MintedOauthKey × Db). m.0.key_id) (sym out),
      ap (λ (m : MintedOauthKey × Db). m.1.paddocks) out,
    )
mint_for-bound actor input id hash db paddock_id none made at run =
    let (db', rows, h1) = went_on (insert_key (oauth_key_row actor input id hash) db) _ made run in
    let out = sym (returns-inj _ made h1) in
    let (fresh, e) = not_refused _ _ _ db' rows in
    (
      oauth_key_row actor input id hash,
      ap (λ (m : MintedOauthKey × Db). bound_key m.1 actor input.client_id paddock_id) out
          ∙ ap
              (λ (x : Db).
                find
                  (is_bound (x.key_paddocks ++ links_to id (paddock_id ∷ [])) actor input.client_id
                    paddock_id)
                  x.keys)
              (sym e)
          ∙ new_bound actor input id hash db paddock_id fresh at,
      ap (λ (m : MintedOauthKey × Db). m.0.key_id) (sym out),
      ap (λ (m : MintedOauthKey × Db). m.1.paddocks) out ∙ ap (λ (x : Db). x.paddocks) (sym e),
    )

mint_oauth_key-paddock :
    (actor : Actor) (input : MintOauthKeyInput) (id hash : String) (db : Db)
    (made : MintedOauthKey × Db)
    → mint_oauth_key actor input id hash db ≡ returns made
    → (authorize actor resource_write ≡ true)
      × (p : Paddock) × (find (is_open_paddock actor.org_id input.paddock_slug) db.paddocks
          ≡ some p)
      × (mint_for actor input id hash db p.id (bound_key db actor input.client_id p.id)
          ≡ returns made)
unfolding mint_oauth_key
mint_oauth_key-paddock actor input id hash db made run =
    let (may, h1) = allowed_to actor resource_write _ made run in
    let (p, at, h2) =
      found (find (is_open_paddock actor.org_id input.paddock_slug) db.paddocks)
        (not_found input.paddock_slug) _ made h1 in
    (may, p, at, h2)

mint_oauth_key-rebound :
    (actor : Actor) (input : MintOauthKeyInput) (id hash : String) (db : Db) (p : Paddock)
    (k : ApiKey)
    → authorize actor resource_write ≡ true
    → find (is_open_paddock actor.org_id input.paddock_slug) db.paddocks ≡ some p
    → bound_key db actor input.client_id p.id ≡ some k
    → (db' : Db) × (mint_oauth_key actor input id hash db
        ≡ returns (record { key_id = k.id; outcome = rebound }, db'))
      × (db'.keys ≡ map (with_grant k.id input.grant_id) db.keys)
unfolding mint_oauth_key mint_for rebind write_audit
mint_oauth_key-rebound actor input id hash db p k may at bound =
    (rebind actor input k db, simp (may, at, bound), refl)

-- After a mint that succeeded, one of the same actor for the same client and paddock slug, whatever its grant,
-- name, id and hash, succeeds: it gives the key of the first as rebound, and the keys that it leaves are those
-- that were there, but for the grant of the rows with this key's id, which is the new one; there is such a row.
pub mint_oauth_key_twice :
    (actor : Actor) (input again : MintOauthKeyInput) (id id' hash hash' : String) (db : Db)
    (made : MintedOauthKey × Db)
    → mint_oauth_key actor input id hash db ≡ returns made
    → again.client_id ≡ input.client_id
    → again.paddock_slug ≡ input.paddock_slug
    → (db' : Db) × (mint_oauth_key actor again id' hash' made.1
        ≡ returns (record { key_id = made.0.key_id; outcome = rebound }, db'))
      × (db'.keys ≡ map (with_grant made.0.key_id again.grant_id) made.1.keys)
      × (any (is_granted made.0.key_id again.grant_id) db'.keys ≡ true)
mint_oauth_key_twice actor input again id id' hash hash' db made run client slug =
    let (may, p, at, run') = mint_oauth_key-paddock actor input id hash db made run in
    let (k, bound, same, rows) = mint_for-bound actor input id hash db p.id _ made refl run' in
    let (db', run'', keys) =
      mint_oauth_key-rebound actor again id' hash' made.1 p k may
        (ap (λ s. find (is_open_paddock actor.org_id s) made.1.paddocks) slug
          ∙ ap (find (is_open_paddock actor.org_id input.paddock_slug)) rows
          ∙ at)
        (ap (λ c. bound_key made.1 actor c p.id) client ∙ bound) in
    let regranted = keys ∙ ap (λ i. map (with_grant i again.grant_id) made.1.keys) same in
    (
      db',
      run'' ∙ ap (λ i. returns (record { key_id = i; outcome = rebound }, db')) same,
      regranted,
      ap (any (is_granted made.0.key_id again.grant_id)) regranted
          ∙ ap
              (λ i.
                any (is_granted i again.grant_id) (map (with_grant i again.grant_id) made.1.keys))
              (sym same)
          ∙ found-granted (is_bound made.1.key_paddocks actor input.client_id p.id) again.grant_id k
              made.1.keys bound,
    )
