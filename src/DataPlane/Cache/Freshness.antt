-- ===== src/DataPlane/Cache/Freshness.antt =====
-- How old an answer of the cache can be, and that it forgets what it is told to forget.
use metamodels.Common.{
  ℕ, ◌+◌, ◌≤◌, ◌<◌, String, ◌≡◌, refl, inl, inr, not, ◌&&◌, Option, none, some, [], arith, str_eq,
  eq_iff, eq_refl, ltb, leb, if◌then◌else◌, lt→ltb, Bool-cases, Option-cases, before,
}
use mathlib.Core.Path.{subst}
use metamodels.JsMap.{get, set, has, size, first_key}
use metamodels.JsMap.Laws.{get-set, get-delete}
use metamodels.DataPlane.Cache.{
  Entry, Cache, Options, evicted, set_bounded, cached, fill, resolve, ConfigCaches, invalidate_all,
  resolve_key_by_id,
}

-- What holds of every entry.
abbrev pub AllEntries : {V : Type 0} → (String → Entry V → Type 0) → Cache V → Type 0
AllEntries {V} P cache = (key : String) (e : Entry V) → get cache key ≡ some e → P key e

module _ {V : Type 0} (P : String → Entry V → Type 0) where
  AllEntries-set :
      (cache : Cache V) (key : String) (entry : Entry V)
      → P key entry
      → AllEntries P cache
      → AllEntries P (set cache key entry)
  AllEntries-set cache key entry p h k e found = elim (Bool-cases (str_eq key k)) [
    | inl same ↦
        let eq : some entry ≡ some e = ground (arith, get-set cache key k entry) in
        subst (λ x. P k x) (let eq' : entry ≡ e = cc eq in eq')
          (subst (λ j. P j entry) ((eq_iff key k).0 same) p)
    | inr other ↦ h k e (ground (arith, get-set cache key k entry))
  ]

  AllEntries-evicted :
      (cache : Cache V) (o : Option String) → AllEntries P cache → AllEntries P (evicted cache o)
  AllEntries-evicted cache none h k e found = h k e found
  AllEntries-evicted cache (some j) h k e found = h k e (ground (arith, get-delete cache j k))

  AllEntries-set_bounded :
      (max : ℕ) (cache : Cache V) (key : String) (entry : Entry V)
      → P key entry
      → AllEntries P cache
      → AllEntries P (set_bounded max cache key entry)
  unfolding set_bounded
  AllEntries-set_bounded max cache key entry p h =
      elim (Bool-cases (not (has cache key) && leb max (size cache))) [
        | inl full ↦ rw full (
            AllEntries-set (evicted cache (first_key cache)) key entry p
              (AllEntries-evicted cache (first_key cache) h))
        | inr free ↦ rw free (AllEntries-set cache key entry p h)
      ]

-- A run of a cache: time passes, a lookup that asked the inner store keeps the answer that it was
-- given at `read`, at most `lag` before, and an invalidation empties the cache.
pub record Machine (V : Type 0) : Type 0 where
  pub clock : ℕ
  pub cache : Cache V

module _ {V : Type 0} (opts : Options) (lag : ℕ) (inner : ℕ → String → Option V) where
  pub data Step : Machine V → Machine V → Type 0 where
    wait : (m : Machine V) (later : ℕ) → m.clock ≤ later → Step m (record m { clock = later })
    keep :
        (m : Machine V) (key : String) (read : ℕ)
        → read ≤ m.clock
        → m.clock ≤ read + lag
        → Step m (record m { cache = fill opts m.clock m.cache key (inner read key) })
    flush : (m : Machine V) → Step m (record m { cache = [] })

  pub data Reach : Machine V → Type 0 where
    start : Reach (record { clock = 0; cache = [] })
    step : {m n : Machine V} → Reach m → Step m n → Reach n

  -- An entry is an answer of the inner store, and expires within the TTL and the lag of its reading.
  abbrev IsRead : ℕ → String → Entry V → Type 0
  IsRead clock key e =
      (read : ℕ) × (e.value ≡ inner read key)
      × (read ≤ clock)
      × (e.expires_at ≤ read + lag + opts.ttl_ms)

  Step-IsRead :
      {m n : Machine V}
      → Step m n
      → AllEntries (IsRead m.clock) m.cache
      → AllEntries (IsRead n.clock) n.cache
  unfolding fill get
  Step-IsRead (wait m later h) i = λ key e found.
      let (read, same, past, bound) = i key e found in (read, same, omega arith, bound)
  Step-IsRead (keep m key read h k) i =
      AllEntries-set_bounded (IsRead m.clock) opts.max_entries m.cache key _
        (read, refl, h, omega arith) i
  Step-IsRead (flush m) i = λ key e found. cc

  Reach-IsRead : {m : Machine V} → Reach m → AllEntries (IsRead m.clock) m.cache
  unfolding get
  Reach-IsRead start = λ key e found. cc
  Reach-IsRead (step r s) = Step-IsRead s (Reach-IsRead r)

-- In every run, what the cache answers at a moment is what the inner store answered at a moment that
-- is past, by less than the TTL and the time that a lookup takes to keep its answer.
pub cached-IsRecent :
    {V : Type 0} (opts : Options) (lag : ℕ) (inner : ℕ → String → Option V) {m : Machine V}
    (key : String) {value : Option V}
    → Reach opts lag inner m
    → cached m.clock m.cache key ≡ some value
    → (read : ℕ) × (value ≡ inner read key)
      × (read ≤ m.clock)
      × (m.clock < read + lag + opts.ttl_ms)
unfolding cached
cached-IsRecent opts lag inner {m} key {value} r hit = elim (Option-cases (get m.cache key)) [
  | inl missing ↦ cc (rw missing at hit)
  | inr (e, found) ↦
      let (read, same, past, bound) = Reach-IsRead opts lag inner r key e found in
      (read, ground (arith, same), past, ground arith)
]

get-set_bounded :
    {V : Type 0} (max : ℕ) (cache : Cache V) (key : String) (entry : Entry V)
    → get (set_bounded max cache key entry) key ≡ some entry
unfolding set_bounded
get-set_bounded max cache key entry =
    elim (Bool-cases (not (has cache key) && leb max (size cache))) [
      | inl full ↦ rw (full, get-set (evicted cache (first_key cache)) key key entry, eq_refl key)
      | inr free ↦ rw (free, get-set cache key key entry, eq_refl key)
    ]

-- An answer that a lookup keeps, whatever was in the cache, is given until its TTL is over, and not
-- after.
pub cached-fill :
    {V : Type 0} (opts : Options) (now later : ℕ) (cache : Cache V) (key : String)
    (value : Option V)
    → cached later (fill opts now cache key value) key
      ≡ (if ltb later (now + opts.ttl_ms) then some value else none)
unfolding cached fill
cached-fill opts now later cache key value = rw (get-set_bounded opts.max_entries cache key)

-- A flush of the caches leaves no answer for any key, oauth key id or paddock.
pub invalidate_all-cached :
    {K P : Type 0} (c : ConfigCaches K P) (now : ℕ) (key : String)
    → (cached now (invalidate_all c).key_cache key ≡ none)
      × (cached now (invalidate_all c).key_by_id_cache key ≡ none)
      × (cached now (invalidate_all c).paddock_cache key ≡ none)
unfolding cached invalidate_all get
invalidate_all-cached c now key = (refl, refl, refl)

-- After a flush a lookup of any oauth key id answers as the inner store does then. But a lookup that missed and
-- asked the inner store before the flush, and keeps its answer after it, brings the store's old answer back: a
-- lookup within the TTL of that answer gives the old one, whatever the inner store says then.
pub stale_after_invalidate_all :
    {K P : Type 0} (opts : Options) (c : ConfigCaches K P) (asked answered later : ℕ)
    (id other : String) (before after : String → Option K)
    → cached asked c.key_by_id_cache id ≡ none
    → later < answered + opts.ttl_ms
    → ((resolve_key_by_id opts later later after (invalidate_all c) other).0 ≡ after other)
      × ((resolve_key_by_id opts asked answered before c id).0 ≡ before id)
      × ((resolve_key_by_id opts later later after
            (record (invalidate_all c) {
              key_by_id_cache =
                  fill opts answered (invalidate_all c).key_by_id_cache id (before id);
            })
            id).0
          ≡ before id)
unfolding resolve_key_by_id resolve
stale_after_invalidate_all opts c asked answered later id other before after missed h =
    let kept = cached-fill opts answered later (invalidate_all c).key_by_id_cache id (before id) in
    (rw (invalidate_all-cached c later other).1 refl, rw missed refl, rw (kept, lt→ltb _ _ h) refl)
