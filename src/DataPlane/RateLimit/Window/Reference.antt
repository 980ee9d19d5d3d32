-- ===== src/DataPlane/RateLimit/Window/Reference.antt =====
-- The limiter against its description: a request is admitted if the window that ends at it holds
-- fewer admitted requests than the limit.
use metamodels.Common.{
  ℕ, ◌≤◌, String, ◌≡◌, refl, sym, ap, ◌∙◌, inl, inr, ◌&&◌, List, [], ◌∷◌, ◌++◌, arith, str_eq,
  eq_iff, ltb, if◌then◌else◌, Bool-cases, length, filter, All, All-append,
}
use mathlib.Core.List.{append-nil}
use metamodels.JsMap.{get}
use metamodels.DataPlane.RateLimit.{RateLimit, Hits, window_ms, is_recent, check}
use metamodels.DataPlane.RateLimit.Window.{
  in_window, Call, admitted, IsOrdered, w, added, kept, Tracks, Tracks-check,
}

-- The description, over the log of the requests that were admitted before.
pub admitted_by_log : (String → RateLimit) → String → List ℕ → List Call → List ℕ
unfolding in_window
admitted_by_log limits bucket log [] = []
admitted_by_log limits bucket log (c ∷ cs) =
    let next = admitted_by_log limits bucket (log ++ c.now ∷ []) cs in
    let same = admitted_by_log limits bucket log cs in
    if str_eq c.bucket bucket
      && ltb (in_window (window_ms (limits bucket)) c.now log) (limits bucket).max
    then c.now ∷ next
    else same

-- Of hits that are not from the future the limiter keeps those in the window.
recent-eq-in_window :
    (w t : ℕ) (xs : List ℕ)
    → All (λ x. x ≤ t) xs
    → length (filter (is_recent t w) xs) ≡ in_window w t xs
unfolding in_window
recent-eq-in_window w t [] h = refl
recent-eq-in_window w t (x ∷ xs) (h, hs) = ground (arith, recent-eq-in_window w t xs hs)

All-later : (s t : ℕ) (xs : List ℕ) → s ≤ t → All (λ x. x ≤ s) xs → All (λ x. x ≤ t) xs
All-later s t [] h k = tt
All-later s t (x ∷ xs) h (p, k) = (omega arith, All-later s t xs h k)

module _ (limits : String → RateLimit) (bucket : String) where
  allowed_self :
      (hits : Hits) (now : ℕ)
      → (check hits now bucket (limits bucket)).0.allowed
        ≡ ltb (length (kept limits bucket hits now)) (limits bucket).max
  unfolding check
  allowed_self hits now = ground arith

  allowed-by_log :
      {last : ℕ} {hits : Hits} {log : List ℕ} (c : Call)
      → last ≤ c.now
      → Tracks limits bucket last hits log
      → All (λ x. x ≤ last) log
      → (str_eq c.bucket bucket && (check hits c.now c.bucket (limits c.bucket)).0.allowed) ≡ (
          str_eq c.bucket bucket
          && ltb (in_window (window_ms (limits bucket)) c.now log) (limits bucket).max)
  allowed-by_log {last} {hits} {log} c h i past = elim (Bool-cases (str_eq c.bucket bucket)) [
    | inl same ↦ rw ((eq_iff c.bucket bucket).0 same) (
        ap (λ b. str_eq bucket bucket && b)
          (allowed_self hits c.now
            ∙ ap (λ xs. ltb (length xs) (limits bucket).max) (i.agree c.now h)
            ∙ ap (λ n. ltb n (limits bucket).max)
                (recent-eq-in_window (window_ms (limits bucket)) c.now log
                  (All-later last c.now log h past))))
    | inr other ↦ rw other
  ]

  admitted-eq_from :
      (last : ℕ) (hits : Hits) (log : List ℕ) (cs : List Call)
      → IsOrdered last cs
      → Tracks limits bucket last hits log
      → All (λ x. x ≤ last) log
      → admitted limits bucket hits cs ≡ admitted_by_log limits bucket log cs
  unfolding admitted admitted_by_log
  admitted-eq_from last hits log [] h i past = refl
  admitted-eq_from last hits log (c ∷ cs) h i past =
      let hits' = (check hits c.now c.bucket (limits c.bucket)).1 in
      let next =
        admitted-eq_from c.now hits' (log ++ added limits bucket hits c) cs h.1
          (Tracks-check limits bucket c h.0 i) in
      let older = All-later last c.now log h.0 past in
      let same = allowed-by_log c h.0 i past in
      elim (Bool-cases
        (str_eq c.bucket bucket && (check hits c.now c.bucket (limits c.bucket)).0.allowed)) [
          | inl granted ↦
              rw (granted, sym same ∙ granted)
                (ap (λ xs. c.now ∷ xs)
                  ((rw granted at next)
                    (All-append (λ x. x ≤ c.now) log (c.now ∷ []) older (omega arith, tt))))
          | inr denied ↦ rw (denied, sym same ∙ denied) ((rw (denied, append-nil) at next) older)
        ]

-- In any run of calls under fixed limits whose times do not decrease, the limiter admits exactly the
-- requests of a bucket that the description admits: those at which the window that ends there holds
-- fewer admitted requests than the limit.
pub admitted-eq-by_log :
    (limits : String → RateLimit) (bucket : String) (cs : List Call)
    → IsOrdered 0 cs
    → admitted limits bucket [] cs ≡ admitted_by_log limits bucket [] cs
unfolding in_window get
admitted-eq-by_log limits bucket cs h =
    admitted-eq_from limits bucket 0 [] [] cs h
      (record { agree = λ t k. refl; bounded = λ t. omega arith }) tt
