-- ===== src/Worker/Cycles.antt =====
-- Which events the cycles of the worker count.
use mathlib.Core.Path.{subst}
use metamodels.Common.{
  ℕ, zero, suc, ◌-◌, ◌*◌, ◌≤◌, ◌≡◌, refl, sym, ap, ◌∙◌, ◌⊎◌, inl, inr, Bool, true, false, Option,
  none, some, List, [], ◌∷◌, ◌++◌, arith, Option-cases, length,
}
use metamodels.Worker.{
  RollupEvent, Row, UtcDate, apply_events, StreamEntry, Redis, take, drop, RedisLaws, decoded,
  summed, process_once, cycles,
}
use metamodels.Worker.Sums.{apply_events-append}

module _ {S : Type 0} (redis : Redis S) (laws : RedisLaws redis) (utc : ℕ → UtcDate) where
  -- Whatever comes of a cycle, the entries that it was given are not given again.
  summed-fresh :
      (commits : Bool) (entries : List StreamEntry) (o : Option (List RollupEvent))
      (rows : List Row) (s : S)
      → redis.fresh (summed redis utc commits entries o rows s).1.1 ≡ redis.fresh s
  summed-fresh commits entries none rows s = refl
  summed-fresh commits entries (some []) rows s = refl
  summed-fresh true entries (some (e ∷ es)) rows s = laws.acked _ s
  summed-fresh false entries (some (e ∷ es)) rows s = refl

  process_once-fresh :
      (commits : Bool) (rows : List Row) (s : S)
      → redis.fresh (process_once redis utc commits rows s).1.1 ≡ drop 100 (redis.fresh s)
  unfolding process_once
  process_once-fresh commits rows s =
      summed-fresh commits (redis.read_group 100 s).0 (decoded (redis.read_group 100 s).0) rows
        (redis.read_group 100 s).1
      ∙ laws.left 100 s

  -- A cycle that commits a batch that decodes counts it.
  summed-rows :
      (entries : List StreamEntry) (es : List RollupEvent) (rows : List Row) (s : S)
      → (summed redis utc true entries (some es) rows s).1.0 ≡ apply_events utc rows es
  unfolding apply_events
  summed-rows entries [] rows s = refl
  summed-rows entries (e ∷ es) rows s = refl

  -- One that fails, or whose batch does not decode, counts nothing.
  uncounted :
      (commits : Bool) (entries : List StreamEntry) (o : Option (List RollupEvent))
      (rows : List Row) (s : S)
      → (commits ≡ false) ⊎ (o ≡ none)
      → (summed redis utc commits entries o rows s).1.0 ≡ rows
  uncounted commits entries none rows s h = refl
  uncounted commits entries (some []) rows s h = refl
  uncounted false entries (some (e ∷ es)) rows s h = refl
  uncounted true entries (some (e ∷ es)) rows s (inl h) = cc
  uncounted true entries (some (e ∷ es)) rows s (inr h) = cc

  process_once-rows :
      (commits : Bool) (rows : List Row) (s : S) (o : Option (List RollupEvent))
      → decoded (take 100 (redis.fresh s)) ≡ o
      → (process_once redis utc commits rows s).1.0
        ≡ (summed redis utc commits
            (redis.read_group 100 s).0
            o
            rows
            (redis.read_group 100 s).1).1.0
  unfolding process_once
  process_once-rows commits rows s o e =
      ap
        (λ d.
          (summed redis utc commits (redis.read_group 100 s).0 d rows
            (redis.read_group 100 s).1).1.0)
        (ap decoded (laws.given 100 s) ∙ e)

  -- With nothing fresh, cycles change no rollup.
  cycles_idle :
      (outcomes : List Bool) (rows : List Row) (s : S)
      → redis.fresh s ≡ []
      → (cycles redis utc outcomes rows s).0 ≡ rows
  unfolding cycles
  cycles_idle [] rows s e = refl
  cycles_idle (commits ∷ outcomes) rows s e =
      cycles_idle outcomes (process_once redis utc commits rows s).1.0
        (process_once redis utc commits rows s).1.1
        (process_once-fresh commits rows s ∙ ap (drop 100) e)
      ∙ process_once-rows commits rows s (some []) (ap (λ xs. decoded (take 100 xs)) e)

take-all : {A : Type 0} (n : ℕ) (xs : List A) → length xs ≤ n → take n xs ≡ xs
take-all zero [] h = refl
take-all zero (x ∷ xs) h = absurd (omega arith)
take-all (suc n) [] h = refl
take-all (suc n) (x ∷ xs) h = ap (λ ys. x ∷ ys) (take-all n xs (omega arith))

drop-all : {A : Type 0} (n : ℕ) (xs : List A) → length xs ≤ n → drop n xs ≡ []
drop-all zero [] h = refl
drop-all zero (x ∷ xs) h = absurd (omega arith)
drop-all (suc n) [] h = refl
drop-all (suc n) (x ∷ xs) h = drop-all n xs (omega arith)

length-drop : {A : Type 0} (n : ℕ) (xs : List A) → length (drop n xs) ≡ length xs - n
length-drop zero xs = omega arith
length-drop (suc n) [] = omega arith
length-drop (suc n) (x ∷ xs) = omega (arith, length-drop n xs)

-- The two parts of a list of entries decode to the two parts of its events.
decoded_split :
    (n : ℕ) (xs : List StreamEntry) (es : List RollupEvent)
    → decoded xs ≡ some es
    → (fs : List RollupEvent) × (gs : List RollupEvent) × (decoded (take n xs) ≡ some fs)
      × (decoded (drop n xs) ≡ some gs)
      × (es ≡ fs ++ gs)
decoded_split zero xs es h = ([], es, refl, h, refl)
decoded_split (suc n) [] es h = ([], es, refl, h, refl)
decoded_split (suc n) (x ∷ xs) es h = elim (Option-cases x.event) [
  | inl bad ↦ cc (rw bad at h)
  | inr (v, e) ↦ elim (Option-cases (decoded xs)) [
    | inl bad ↦ cc (rw (e, bad) at h)
    | inr (ds, d) ↦
        let same : v ∷ ds ≡ es = cc (rw (e, d) at h) in
        let (fs, gs, first, rest, joined) = decoded_split n xs ds d in
        (v ∷ fs, gs, rw (e, first) refl, rest, sym same ∙ ap (λ ys. v ∷ ys) joined)
  ]
]

decoded_empty :
    (xs : List StreamEntry) (es : List RollupEvent)
    → decoded xs ≡ some es
    → length xs ≤ 0
    → ([] ≡ es) × (xs ≡ [])
decoded_empty [] es h short = (cc h, refl)
decoded_empty (x ∷ xs) es h short = absurd (omega arith)

abbrev pub repeated : ℕ → Bool → List Bool
repeated zero b = []
repeated (suc n) b = b ∷ repeated n b

-- When every transaction commits and every fresh entry decodes, as many cycles as there are hundreds of
-- fresh entries, begun ones counted, leave none fresh, and the rollups are those of all their events, each
-- counted once, in the order of the stream.
pub cycles_drain :
    {S : Type 0} (redis : Redis S) (laws : RedisLaws redis) (utc : ℕ → UtcDate) (n : ℕ)
    (rows : List Row) (s : S) (es : List RollupEvent)
    → decoded (redis.fresh s) ≡ some es
    → length (redis.fresh s) ≤ 100 * n
    → ((cycles redis utc (repeated n true) rows s).0 ≡ apply_events utc rows es)
      × (redis.fresh (cycles redis utc (repeated n true) rows s).1 ≡ [])
unfolding cycles process_once apply_events
cycles_drain redis laws utc zero rows s es h short =
    let (none_left, empty) = decoded_empty (redis.fresh s) es h (omega arith) in
    (ap (apply_events utc rows) none_left, empty)
cycles_drain redis laws utc (suc n) rows s es h short =
    let (fs, gs, first, rest, joined) = decoded_split 100 (redis.fresh s) es h in
    let (rows', s') = (process_once redis utc true rows s).1 in
    let fresh' = process_once-fresh redis laws utc true rows s in
    let (sum, empty) = cycles_drain redis laws utc n rows' s' gs (ap decoded fresh' ∙ rest) (
      subst (λ xs. length xs ≤ 100 * n) (sym fresh')
        (omega (arith, length-drop 100 (redis.fresh s)))) in
    let first_rows =
      process_once-rows redis laws utc true rows s (some fs) first
      ∙ summed-rows redis laws utc (redis.read_group 100 s).0 fs rows (redis.read_group 100 s).1 in
    (
      sum
          ∙ ap (λ r. apply_events utc r gs) first_rows
          ∙ sym (apply_events-append utc rows fs gs)
          ∙ ap (apply_events utc rows) (sym joined),
      empty,
    )

-- When a cycle's transaction fails, or one of its entries does not decode, and it was given all that was
-- fresh, then, until something is published, no later cycle counts any of its events.
pub cycles_lose :
    {S : Type 0} (redis : Redis S) (laws : RedisLaws redis) (utc : ℕ → UtcDate) (commits : Bool)
    (outcomes : List Bool) (rows : List Row) (s : S)
    → length (redis.fresh s) ≤ 100
    → (commits ≡ false) ⊎ (decoded (redis.fresh s) ≡ none)
    → (cycles redis utc (commits ∷ outcomes) rows s).0 ≡ rows
unfolding cycles
cycles_lose redis laws utc commits outcomes rows s short failed =
    cycles_idle redis laws utc outcomes (process_once redis utc commits rows s).1.0
      (process_once redis utc commits rows s).1.1
      (process_once-fresh redis laws utc commits rows s ∙ drop-all 100 (redis.fresh s) short)
    ∙ process_once-rows redis laws utc commits rows s (decoded (redis.fresh s))
        (ap decoded (take-all 100 (redis.fresh s) short))
    ∙ uncounted redis laws utc commits (redis.read_group 100 s).0 (decoded (redis.fresh s)) rows
        (redis.read_group 100 s).1 failed
