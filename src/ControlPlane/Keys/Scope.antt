-- ===== src/ControlPlane/Keys/Scope.antt =====
-- The paddocks that a key is made for.
use metamodels.Common.{
  ◌+◌, ◌≤◌, String, ◌≡◌, refl, sym, ap, ◌∙◌, inl, inr, Bool, true, false, not, ◌&&◌, some, List, [],
  ◌∷◌, ◌++◌, map, arith, str_eq, eq_iff, ◌==◌, Bool-cases, length, filter, any, All, In,
}
use metamodels.ControlPlane.Authorize.{Actor, resource_write}
use metamodels.ControlPlane.Database.{
  Paddock, ApiKey, KeyPaddock, Db, returns, count_where, not_found, write_audit,
}
use metamodels.ControlPlane.Rows.{IsKeyed, has_key}
use metamodels.ControlPlane.Success.{allowed_to, passed, went_on, not_refused, returns-inj}
use metamodels.ControlPlane.Keys.{
  CreateKeyInput, GeneratedKey, CreatedKey, unique, in_ids, insert_key, links_to, live_key_row,
  create_key,
}

abbrev pub paddock_id : Paddock → String
paddock_id p = p.id

abbrev pub is_paddock_of : String → String → Paddock → Bool
is_paddock_of org_id id p = str_eq p.org_id org_id && str_eq p.id id

-- One id counts once.
count_one_absent :
    (org_id id : String) (rows : List Paddock)
    → has_key paddock_id id rows ≡ false
    → count_where (is_paddock_of org_id id) rows ≡ 0
count_one_absent org_id id [] h = refl
count_one_absent org_id id (p ∷ rows) h = ground (arith, count_one_absent org_id id rows)

count_one :
    (org_id id : String) (rows : List Paddock)
    → IsKeyed paddock_id rows
    → count_where (is_paddock_of org_id id) rows ≤ 1
count_one org_id id [] k = omega arith
count_one org_id id (p ∷ rows) (fresh, k) = elim (Bool-cases (str_eq p.id id)) [
  | inl e ↦ ground (
    arith,
    count_one_absent org_id id rows
        (sym (ap (λ i. has_key paddock_id i rows) ((eq_iff p.id id).0 e)) ∙ fresh),
  )
  | inr e ↦ ground (arith, count_one org_id id rows k)
]

-- The ids count one by one.
count_cons :
    (org_id id : String) (ids : List String) (rows : List Paddock)
    → count_where (in_ids org_id (id ∷ ids)) rows
      ≤ count_where (is_paddock_of org_id id) rows + count_where (in_ids org_id ids) rows
count_cons org_id id ids [] = omega arith
count_cons org_id id ids (p ∷ rows) =
    ground (arith, count_cons org_id id ids rows, eq_iff p.id id, eq_iff id p.id)

count_in_none : (org_id : String) (rows : List Paddock) → count_where (in_ids org_id []) rows ≡ 0
count_in_none org_id [] = refl
count_in_none org_id (p ∷ rows) = ground (arith, count_in_none org_id rows)

count_ids :
    (org_id : String) (ids : List String) (rows : List Paddock)
    → IsKeyed paddock_id rows
    → count_where (in_ids org_id ids) rows ≤ length ids
count_ids org_id [] rows k = omega (arith, count_in_none org_id rows)
count_ids org_id (id ∷ ids) rows k =
    omega (
      arith,
      count_cons org_id id ids rows,
      count_one org_id id rows k,
      count_ids org_id ids rows k,
    )

count-any : (p : Paddock → Bool) (rows : List Paddock) → 1 ≤ count_where p rows → any p rows ≡ true
count-any p [] h = ground arith
count-any p (r ∷ rows) h = ground (arith, count-any p rows)

-- When they count in full, each is there.
all_there :
    (org_id id : String) (ids : List String) (rows : List Paddock)
    → IsKeyed paddock_id rows
    → count_where (in_ids org_id ids) rows ≡ length ids
    → In id ids
    → any (is_paddock_of org_id id) rows ≡ true
all_there org_id id [] rows k h m = elim m [ ]
all_there org_id id (x ∷ ids) rows k h (inl e) =
    ap (λ i. any (is_paddock_of org_id i) rows) (sym e)
    ∙ count-any (is_paddock_of org_id x) rows
        (omega (arith, h, count_cons org_id x ids rows, count_ids org_id ids rows k))
all_there org_id id (x ∷ ids) rows k h (inr m) =
    all_there org_id id ids rows k
      (omega (
        arith,
        h,
        count_cons org_id x ids rows,
        count_one org_id x rows k,
        count_ids org_id ids rows k,
      ))
      m

In-filter :
    (p : String → Bool) (id : String) (ids : List String)
    → p id ≡ true
    → In id ids
    → In id (filter p ids)
In-filter p id [] h m = m
In-filter p id (x ∷ ids) h (inl e) = rw (ap p e ∙ h) (inl e)
In-filter p id (x ∷ ids) h (inr m) = elim (Bool-cases (p x)) [
  | inl t ↦ rw t (inr (In-filter p id ids h m))
  | inr f ↦ rw f (In-filter p id ids h m)
]

unique-In : (id : String) (ids : List String) → In id ids → In id (unique ids)
unfolding unique
unique-In id [] m = m
unique-In id (x ∷ ids) (inl e) = inl e
unique-In id (x ∷ ids) (inr m) = elim (Bool-cases (str_eq x id)) [
  | inl e ↦ inl ((eq_iff x id).0 e)
  | inr e ↦ inr (In-filter _ id (unique ids) (rw e) (unique-In id ids m))
]

filter-In : (p : String → Bool) (id : String) (ids : List String) → In id (filter p ids) → In id ids
filter-In p id [] m = m
filter-In p id (x ∷ ids) m = elim (Bool-cases (p x)) [
  | inl t ↦ elim (rw t at m) [ inl e ↦ inl e | inr later ↦ inr (filter-In p id ids later) ]
  | inr f ↦ inr (filter-In p id ids (rw f at m))
]

In-unique : (id : String) (ids : List String) → In id (unique ids) → In id ids
unfolding unique
In-unique id [] m = m
In-unique id (x ∷ ids) (inl e) = inl e
In-unique id (x ∷ ids) (inr m) = inr (In-unique id ids (filter-In _ id (unique ids) m))

abbrev pub link_paddock : KeyPaddock → String
link_paddock l = l.paddock_id

All-In : (P : String → Type 0) (ids : List String) → ((id : String) → In id ids → P id) → All P ids
All-In P [] h = tt
All-In P (x ∷ ids) h = (h x (inl refl), All-In P ids (λ id m. h id (inr m)))

All-links :
    (P : KeyPaddock → Type 0) (key_id : String) (ids : List String)
    → ((id : String) → In id ids → P (record { key_id = key_id; paddock_id = id }))
    → All P (links_to key_id ids)
All-links P key_id [] h = tt
All-links P key_id (x ∷ ids) h = (h x (inl refl), All-links P key_id ids (λ id m. h id (inr m)))

In-links :
    (key_id id : String) (ids : List String)
    → In id ids
    → In id (map link_paddock (links_to key_id ids))
In-links key_id id [] m = m
In-links key_id id (x ∷ ids) (inl e) = inl e
In-links key_id id (x ∷ ids) (inr m) = inr (In-links key_id id ids m)

-- A link of the new key to a paddock that the input names and the actor's organisation has.
abbrev pub IsScoped : Actor → CreateKeyInput → String → Db → KeyPaddock → Type 0
IsScoped actor d id db l =
    (l.key_id ≡ id)
    × In l.paddock_id d.paddock_ids
    × (any (is_paddock_of actor.org_id l.paddock_id) db.paddocks ≡ true)

-- When the ids of the paddocks are unique and a key is created, the links of the new database are the old ones
-- and links of the new key, each to a paddock of the actor's organisation that the input names, and every
-- paddock that it names is linked. One key is added, with the id, the actor's organisation and the hash.
pub create_key-Scoped :
    (actor : Actor) (d : CreateKeyInput) (secret : GeneratedKey) (id : String) (db : Db)
    (made : CreatedKey × Db)
    → IsKeyed paddock_id db.paddocks
    → create_key actor (some d) secret id db ≡ returns made
    → (links : List KeyPaddock) × (made.1.key_paddocks ≡ db.key_paddocks ++ links)
      × All (IsScoped actor d id db) links
      × All (λ p. In p (map link_paddock links)) d.paddock_ids
      × (k : ApiKey) × (made.1.keys ≡ db.keys ++ k ∷ [])
      × (k.id ≡ id)
      × (k.org_id ≡ actor.org_id)
      × (k.hash ≡ secret.hash)
unfolding create_key write_audit
create_key-Scoped actor d secret id db made keyed run =
    let ids = unique d.paddock_ids in
    let (_, h1) = allowed_to actor resource_write _ made run in
    let (full, h2) =
      passed (not (count_where (in_ids actor.org_id ids) db.paddocks == length ids))
        (not_found "paddock (cross-org or missing)") _ made h1 in
    let (db', rows, h3) = went_on (insert_key (live_key_row actor d secret id) db) _ made h2 in
    let (_, e) = not_refused _ _ _ db' rows in
    let out = sym (returns-inj _ made h3) in
    (
      links_to id ids,
      ap (λ (m : CreatedKey × Db). m.1.key_paddocks) out
          ∙ ap (λ (x : Db). x.key_paddocks ++ links_to id ids) (sym e),
      All-links (IsScoped actor d id db) id ids (λ p m. (
        refl,
        In-unique p d.paddock_ids m,
        all_there actor.org_id p ids db.paddocks keyed (ground (arith, full)) m,
      )),
      All-In (λ p. In p (map link_paddock (links_to id ids))) d.paddock_ids
          (λ p m. In-links id p ids (unique-In p d.paddock_ids m)),
      live_key_row actor d secret id,
      ap (λ (m : CreatedKey × Db). m.1.keys) out ∙ ap (λ (x : Db). x.keys) (sym e),
      refl,
      refl,
      refl,
    )
