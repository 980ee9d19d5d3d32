-- ===== src/DataPlane/Cache/Bound.antt =====
-- The cache does not grow beyond its bound.
use metamodels.Common.{
  ℕ, ◌≤◌, ◌<◌, String, ◌≡◌, refl, inl, inr, false, Option, none, some, [], ◌∷◌, arith, leb,
  Bool-cases,
}
use metamodels.JsMap.{has, size, first_key}
use metamodels.JsMap.Laws.{get-delete, size-set_new, size-set_old, size-delete_first}
use metamodels.DataPlane.Cache.{
  Entry, Cache, Options, evicted, set_bounded, cached, fill, resolved, resolve,
}

module _ {V : Type 0} where
  -- Some key is the first of a map that has an entry.
  evicted-size :
      (cache : Cache V) → 0 < size cache → size (evicted cache (first_key cache)) < size cache
  unfolding first_key
  evicted-size [] h = absurd (omega arith)
  evicted-size ((k, e) ∷ m) h = size-delete_first ((k, e) ∷ m) k refl

  evicted-has :
      (cache : Cache V) (o : Option String) (key : String)
      → has cache key ≡ false
      → has (evicted cache o) key ≡ false
  evicted-has cache none key h = h
  evicted-has cache (some k) key h = ground (arith, get-delete cache k key)

  -- Keeping one more answer holds the cache to its bound, if the bound leaves room for an entry.
  set_bounded-size :
      (max : ℕ) (cache : Cache V) (key : String) (entry : Entry V)
      → 0 < max
      → size cache ≤ max
      → size (set_bounded max cache key entry) ≤ max
  unfolding set_bounded
  set_bounded-size max cache key entry room h = elim (Bool-cases (has cache key)) [
    | inl old ↦ rw (old, size-set_old cache key entry old) h
    | inr new ↦ elim (Bool-cases (leb max (size cache))) [
      | inl full ↦
          rw
            (
              new,
              full,
              size-set_new (evicted cache (first_key cache)) key entry
                  (evicted-has cache (first_key cache) key new),
            )
            (omega (arith, evicted-size cache (ground arith)))
      | inr free ↦ rw (new, free, size-set_new cache key entry new) (ground arith)
    ]
  ]

  resolved-size :
      (opts : Options) (answered : ℕ) (inner : String → Option V) (cache : Cache V) (key : String)
      (o : Option (Option V))
      → 0 < opts.max_entries
      → size cache ≤ opts.max_entries
      → size (resolved opts answered inner cache key o).1 ≤ opts.max_entries
  unfolding fill
  resolved-size opts answered inner cache key (some v) room h = h
  resolved-size opts answered inner cache key none room h =
      set_bounded-size opts.max_entries cache key _ room h

-- A lookup, of whatever key and however the inner store answers, leaves the cache within its bound,
-- if it was so before and the bound leaves room for an entry.
pub resolve-size :
    {V : Type 0} (opts : Options) (asked answered : ℕ) (inner : String → Option V) (cache : Cache V)
    (key : String)
    → 0 < opts.max_entries
    → size cache ≤ opts.max_entries
    → size (resolve opts asked answered inner cache key).1 ≤ opts.max_entries
unfolding resolve
resolve-size opts asked answered inner cache key room h =
    resolved-size opts answered inner cache key (cached asked cache key) room h
