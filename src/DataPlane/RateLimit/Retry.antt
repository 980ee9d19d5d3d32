-- ===== src/DataPlane/RateLimit/Retry.antt =====
-- The `retry-after` of a refusal.
use metamodels.Common.{
  ℕ, ◌+◌, ◌-◌, ◌*◌, ◌≤◌, ◌<◌, String, ◌≡◌, refl, sym, ◌∙◌, ◌⊎◌, inl, inr, true, false, none, some,
  List, [], ◌∷◌, arith, eq_refl, ltb, leb, if◌then◌else◌, lt→ltb, ltb→le, Bool-cases, length,
  filter, head?, length-filter, All,
}
use mathlib.Core.Bool.{false≢true}
use metamodels.JsMap.{set}
use metamodels.JsMap.Laws.{get-set}
use metamodels.DataPlane.RateLimit.{
  RateLimit, Hits, window_ms, ceil_sec, is_recent, recent_hits, retry_after, check,
}

-- The wait lets the oldest hit expire.
retry_expires :
    (oldest window now later : ℕ) {r : ℕ}
    → retry_after (some oldest) window now ≡ some r
    → now + r * 1000 ≤ later
    → is_recent later window oldest ≡ false
unfolding retry_after
retry_expires oldest window now later e h = ground arith

module _ (hits : Hits) (now : ℕ) (bucket : String) (limit : RateLimit) where
  -- What a refusal says of the hits that were left.
  refused-full :
      (check hits now bucket limit).0.allowed ≡ false
      → (limit.max ≤ length (recent_hits hits now bucket limit))
        × ((check hits now bucket limit).1 ≡ set hits bucket (recent_hits hits now bucket limit))
        × ((check hits now bucket limit).0.retry_after_sec
            ≡ retry_after (head? (recent_hits hits now bucket limit)) (window_ms limit) now)
  unfolding check
  refused-full h = elim (Bool-cases (ltb (length (recent_hits hits now bucket limit)) limit.max)) [
    | inl room ↦ absurd (false≢true (sym h ∙ rw room))
    | inr full ↦ (ltb→le _ _ full, rw full, rw full)
  ]

  admits-of-room :
      length (recent_hits hits now bucket limit) < limit.max
      → (check hits now bucket limit).0.allowed ≡ true
  unfolding check
  admits-of-room h = rw (lt→ltb _ _ h)

-- The oldest hit is gone when the wait is over.
refilter_drops :
    (now later window r : ℕ) (ys : List ℕ)
    → retry_after (head? ys) window now ≡ some r
    → now + r * 1000 ≤ later
    → length (filter (is_recent later window) ys) < length ys
unfolding retry_after
refilter_drops now later window r [] e h = cc
refilter_drops now later window r (y ∷ ys) e h =
    rw (retry_expires y window now later e h)
      (omega (arith, length-filter (is_recent later window) ys))

recent_hits-set :
    (hits : Hits) (later : ℕ) (bucket : String) (limit : RateLimit) (v : List ℕ)
    → recent_hits (set hits bucket v) later bucket limit
      ≡ filter (is_recent later (window_ms limit)) v
unfolding recent_hits
recent_hits-set hits later bucket limit v = rw (get-set hits bucket bucket v, eq_refl bucket)

-- A caller that is refused with a wait, while its bucket holds no more hits than the limit, is
-- admitted by the first call on the bucket that is made when the wait is over.
pub retry_after_suffices :
    (hits : Hits) (now later : ℕ) (bucket : String) (limit : RateLimit) (r : ℕ)
    → (check hits now bucket limit).0.allowed ≡ false
    → (check hits now bucket limit).0.retry_after_sec ≡ some r
    → length (recent_hits hits now bucket limit) ≤ limit.max
    → now + r * 1000 ≤ later
    → (check (check hits now bucket limit).1 later bucket limit).0.allowed ≡ true
retry_after_suffices hits now later bucket limit r refused e room h =
    let left = recent_hits hits now bucket limit in
    let (full, state, wait) = refused-full hits now bucket limit refused in
    let fewer = refilter_drops now later (window_ms limit) r left (sym wait ∙ e) h in
    rw state (
      admits-of-room (set hits bucket left) later bucket limit
        (rw (recent_hits-set hits later bucket limit left) (omega arith)))

-- A wait of whole seconds: at least one, no more than the window, long enough for `oldest` to leave the window,
-- and, if it is of more than one, not so a second earlier.
abbrev pub IsWait : RateLimit → ℕ → ℕ → ℕ → Type 0
IsWait limit now oldest r =
    (1 ≤ r)
    × (r ≤ limit.window_sec)
    × (oldest + limit.window_sec * 1000 ≤ now + r * 1000)
    × ((r ≡ 1) ⊎ (now + r * 1000 < oldest + limit.window_sec * 1000 + 1000))

wait_least :
    (limit : RateLimit) (now oldest : ℕ)
    → (let wait = ceil_sec (oldest + window_ms limit - now) in
        let r = if leb wait 1 then 1 else wait in
        (r ≡ 1) ⊎ (now + r * 1000 < oldest + limit.window_sec * 1000 + 1000))
wait_least limit now oldest =
    elim (Bool-cases (leb (ceil_sec (oldest + window_ms limit - now)) 1)) [
      | inl short ↦ rw short (inl refl)
      | inr long ↦ rw long (inr (ground (arith, long)))
    ]

-- The wait that is computed from the hits that are left.
retry_after-range :
    (limit : RateLimit) (now : ℕ) (ys : List ℕ)
    → All (λ t. t ≤ now) ys
    → 0 < limit.window_sec
    → limit.max ≤ length ys
    → ((oldest : ℕ) × (rest : List ℕ) × (ys ≡ oldest ∷ rest)
        × (r : ℕ) × (retry_after (head? ys) (window_ms limit) now ≡ some r)
        × IsWait limit now oldest r)
      ⊎ ((ys ≡ []) × (limit.max ≡ 0) × (retry_after (head? ys) (window_ms limit) now ≡ none))
unfolding retry_after
retry_after-range limit now [] past h full = inr (refl, omega arith, refl)
retry_after-range limit now (y ∷ ys) past h full = inl (
  y,
  ys,
  refl,
  (let wait = ceil_sec (y + window_ms limit - now) in if leb wait 1 then 1 else wait),
  refl,
  (ground arith, ground (arith, past.0), ground arith, wait_least limit now y),
)

-- Where the window is not empty and no recent hit of the bucket is from the future, a refusal is one of two
-- kinds. With a recent hit in the bucket it has a wait of whole seconds, at least one and no more than the
-- window, after which the oldest of them has left the window, and, if it is of more than one, not a second
-- earlier. With none in the bucket the limit is 0, and it has no wait, the
-- NaN of the source.
pub retry_after_range :
    (hits : Hits) (now : ℕ) (bucket : String) (limit : RateLimit)
    → All (λ t. t ≤ now) (recent_hits hits now bucket limit)
    → 0 < limit.window_sec
    → (check hits now bucket limit).0.allowed ≡ false
    → ((oldest : ℕ) × (rest : List ℕ) × (recent_hits hits now bucket limit ≡ oldest ∷ rest)
        × (r : ℕ) × ((check hits now bucket limit).0.retry_after_sec ≡ some r)
        × IsWait limit now oldest r)
      ⊎ ((recent_hits hits now bucket limit ≡ [])
          × (limit.max ≡ 0)
          × ((check hits now bucket limit).0.retry_after_sec ≡ none))
retry_after_range hits now bucket limit past h refused =
    let (full, state, wait) = refused-full hits now bucket limit refused in
    rw wait (retry_after-range limit now (recent_hits hits now bucket limit) past h full)
