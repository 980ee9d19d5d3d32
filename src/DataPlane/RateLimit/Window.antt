-- ===== src/DataPlane/RateLimit/Window.antt =====
-- No window of the limiter's length holds more admitted requests than the limit.
pub mod Reference
use metamodels.Common.{
  ℕ, ◌+◌, ◌≤◌, ◌<◌, String, ◌≡◌, refl, sym, ap, ◌∙◌, inl, inr, false, ◌&&◌, List, [], ◌∷◌, ◌++◌,
  arith, str_eq, eq_iff, eq_refl, ltb, leb, if◌then◌else◌, ltb→lt, Bool-cases, or_else, length,
  filter, filter-append,
}
use mathlib.Core.List.{append-nil, append_assoc}
use metamodels.JsMap.{get, set}
use metamodels.JsMap.Laws.{get-set}
use metamodels.DataPlane.RateLimit.{RateLimit, Hits, window_ms, is_recent, recent_hits, check}

-- How many of the times lie in the window that ends at `t`, both the newest and those before it.
unfoldable pub in_window : ℕ → ℕ → List ℕ → ℕ
in_window w t [] = 0
in_window w t (x ∷ xs) = (if ltb t (x + w) && leb x t then 1 else 0) + in_window w t xs

-- A call of `check`: the time that the clock shows, and the bucket.
pub record Call : Type 0 where
  pub now : ℕ
  pub bucket : String

-- The times at which calls on `bucket` were admitted, in a run of calls under fixed limits.
unfoldable pub admitted : (String → RateLimit) → String → Hits → List Call → List ℕ
admitted limits bucket hits [] = []
admitted limits bucket hits (c ∷ cs) =
    let (result, hits') = check hits c.now c.bucket (limits c.bucket) in
    let rest = admitted limits bucket hits' cs in
    if str_eq c.bucket bucket && result.allowed then c.now ∷ rest else rest

-- The clock does not run backwards.
abbrev pub IsOrdered : ℕ → List Call → Type 0
IsOrdered last [] = Unit
IsOrdered last (c ∷ cs) = (last ≤ c.now) × IsOrdered c.now cs

abbrev stored : Hits → String → List ℕ
stored hits bucket = or_else (get hits bucket) []

-- Dropping what a window that ended earlier has left changes no later window.
filter-filter :
    (w s t : ℕ) (xs : List ℕ)
    → s ≤ t
    → filter (is_recent t w) (filter (is_recent s w) xs) ≡ filter (is_recent t w) xs
filter-filter w s t [] h = refl
filter-filter w s t (x ∷ xs) h = ground (arith, filter-filter w s t xs h)

in_window-append :
    (w t : ℕ) (xs ys : List ℕ) → in_window w t (xs ++ ys) ≡ in_window w t xs + in_window w t ys
unfolding in_window
in_window-append w t [] ys = omega arith
in_window-append w t (x ∷ xs) ys = omega (arith, in_window-append w t xs ys)

in_window-le-recent :
    (w s t : ℕ) (xs : List ℕ) → s ≤ t → in_window w t xs ≤ length (filter (is_recent s w) xs)
unfolding in_window
in_window-le-recent w s t [] h = omega arith
in_window-le-recent w s t (x ∷ xs) h = ground (arith, in_window-le-recent w s t xs h)

module _ (limits : String → RateLimit) (bucket : String) where
  abbrev w : ℕ
  w = window_ms (limits bucket)

  -- What is known of the state after the requests `log` were admitted, the last call at `last`.
  record Tracks (last : ℕ) (hits : Hits) (log : List ℕ) : Type 0 where
    agree :
        (t : ℕ)
        → last ≤ t
        → filter (is_recent t w) (stored hits bucket) ≡ filter (is_recent t w) log
    bounded : (t : ℕ) → in_window w t log ≤ (limits bucket).max

  stored-set :
      (hits : Hits) (k : String) (v : List ℕ)
      → stored (set hits k v) bucket ≡ (if str_eq k bucket then v else stored hits bucket)
  stored-set hits k v = ground (arith, get-set hits k bucket v)

  Tracks-other :
      {last : ℕ} {hits : Hits} {log : List ℕ} (now : ℕ) (other : String) (v : List ℕ)
      → last ≤ now
      → str_eq other bucket ≡ false
      → Tracks last hits log
      → Tracks now (set hits other v) log
  Tracks-other {last} {hits} {log} now other v h ne i = record {
    agree = λ t k. rw (stored-set hits other v, ne) (i.agree t (omega arith));
    bounded = i.bounded;
  }

  -- What `check` keeps of the stored hits.
  abbrev kept : Hits → ℕ → List ℕ
  kept hits now = filter (is_recent now w) (stored hits bucket)

  Tracks-deny :
      {last : ℕ} {hits : Hits} {log : List ℕ} (now : ℕ)
      → last ≤ now
      → Tracks last hits log
      → Tracks now (set hits bucket (kept hits now)) log
  Tracks-deny {last} {hits} {log} now h i = record {
    agree = λ t k.
        rw (stored-set hits bucket (kept hits now), eq_refl bucket)
          (filter-filter w now t (stored hits bucket) k ∙ i.agree t (omega arith));
    bounded = i.bounded;
  }

  Tracks-admit :
      {last : ℕ} {hits : Hits} {log : List ℕ} (now : ℕ)
      → last ≤ now
      → length (kept hits now) < (limits bucket).max
      → Tracks last hits log
      → Tracks now (set hits bucket (kept hits now ++ now ∷ [])) (log ++ now ∷ [])
  unfolding in_window
  Tracks-admit {last} {hits} {log} now h room i = record {
    agree = λ t k.
        rw (stored-set hits bucket (kept hits now ++ now ∷ []), eq_refl bucket)
          (filter-append (is_recent t w) (kept hits now) (now ∷ [])
            ∙ ap (λ xs. xs ++ filter (is_recent t w) (now ∷ []))
                (filter-filter w now t (stored hits bucket) k ∙ i.agree t (omega arith))
            ∙ sym (filter-append (is_recent t w) log (now ∷ [])));
    bounded = λ t. elim (Bool-cases (ltb t now)) [
      | inl early ↦ ground (arith, in_window-append w t log (now ∷ []), i.bounded t)
      | inr late ↦ ground (
        arith,
        in_window-append w t log (now ∷ []),
        in_window-le-recent w now t log,
        i.agree now h,
      )
    ];
  }

  -- What one call adds to the admitted requests of the bucket.
  abbrev added : Hits → Call → List ℕ
  added hits c =
      if str_eq c.bucket bucket && (check hits c.now c.bucket (limits c.bucket)).0.allowed
      then c.now ∷ []
      else []

  Tracks-self :
      {last : ℕ} {hits : Hits} {log : List ℕ} (now : ℕ)
      → last ≤ now
      → Tracks last hits log
      → Tracks now
          (check hits now bucket (limits bucket)).1
          (log ++ added hits (record { now = now; bucket = bucket }))
  unfolding check
  Tracks-self {last} {hits} {log} now h i =
      elim (Bool-cases (ltb (length (kept hits now)) (limits bucket).max)) [
        | inl room ↦ rw (eq_refl bucket, room) (Tracks-admit now h (ltb→lt _ _ room) i)
        | inr full ↦ rw (eq_refl bucket, full, append-nil) (Tracks-deny now h i)
      ]

  check-other :
      {last : ℕ} {hits : Hits} {log : List ℕ} (now : ℕ) (b : String)
      → last ≤ now
      → str_eq b bucket ≡ false
      → Tracks last hits log
      → Tracks now (check hits now b (limits b)).1 log
  unfolding check
  check-other {last} {hits} {log} now b h ne i =
      elim (Bool-cases (ltb (length (recent_hits hits now b (limits b))) (limits b).max)) [
        | inl room ↦ rw room (Tracks-other now b _ h ne i)
        | inr full ↦ rw full (Tracks-other now b _ h ne i)
      ]

  Tracks-check :
      {last : ℕ} {hits : Hits} {log : List ℕ} (c : Call)
      → last ≤ c.now
      → Tracks last hits log
      → Tracks c.now (check hits c.now c.bucket (limits c.bucket)).1 (log ++ added hits c)
  Tracks-check {last} {hits} {log} c h i = elim (Bool-cases (str_eq c.bucket bucket)) [
    | inl same ↦ rw ((eq_iff c.bucket bucket).0 same) (Tracks-self c.now h i)
    | inr other ↦ rw (other, append-nil) (check-other c.now c.bucket h other i)
  ]

  admitted-bounded :
      (last : ℕ) (hits : Hits) (log : List ℕ) (cs : List Call)
      → IsOrdered last cs
      → Tracks last hits log
      → (t : ℕ) → in_window w t (log ++ admitted limits bucket hits cs) ≤ (limits bucket).max
  unfolding admitted
  admitted-bounded last hits log [] h i t = rw append-nil (i.bounded t)
  admitted-bounded last hits log (c ∷ cs) h i t =
      let next =
        admitted-bounded c.now (check hits c.now c.bucket (limits c.bucket)).1 (log ++ added hits c)
          cs h.1 (Tracks-check c h.0 i) t in
      elim (Bool-cases
        (str_eq c.bucket bucket && (check hits c.now c.bucket (limits c.bucket)).0.allowed)) [
          | inl yes' ↦ rw yes' (rw (yes', append_assoc) at next)
          | inr no' ↦ rw no' (rw (no', append-nil) at next)
        ]

-- In any run of calls under fixed limits whose times do not decrease, at every moment the requests
-- of a bucket that were admitted in the window ending there are no more than its limit.
pub admitted-le-max :
    (limits : String → RateLimit) (bucket : String) (cs : List Call) (t : ℕ)
    → IsOrdered 0 cs
    → in_window (window_ms (limits bucket)) t (admitted limits bucket [] cs) ≤ (limits bucket).max
unfolding in_window get
admitted-le-max limits bucket cs t h =
    admitted-bounded limits bucket 0 [] [] cs h
      (record { agree = λ t k. refl; bounded = λ t. omega arith }) t
