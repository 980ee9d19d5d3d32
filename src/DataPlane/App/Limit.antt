-- ===== src/DataPlane/App/Limit.antt =====
-- How much of a body is accepted.
use metamodels.Common.{
  ℕ, ◌+◌, ◌≤◌, ◌≡◌, refl, ◌↔◌, inl, inr, Bool, true, false, ◌||◌, some, List, [], ◌∷◌, arith,
  str_eq, ltb, if◌then◌else◌, Bool-cases, or_else, contains,
}
use metamodels.Json.{Value, undefined, str}
use metamodels.DataPlane.App.{HttpRequest, over_limit, read_body}

abbrev pub total : List ℕ → ℕ
total [] = 0
total (n ∷ ns) = n + total ns

over_limit-total :
    (max seen : ℕ) (chunks : List ℕ)
    → seen ≤ max
    → over_limit max seen chunks ≡ ltb max (seen + total chunks)
unfolding over_limit
over_limit-total max seen [] h = ground arith
over_limit-total max seen (n ∷ ns) h = elim (Bool-cases (ltb max (seen + n))) [
  | inl over ↦ rw over (ground arith)
  | inr fits ↦ rw (fits, over_limit-total max (seen + n) ns (ground arith)) (ground arith)
]

-- A body that is read is its JSON, or nothing where that does not parse, or its text.
read :
    (req : HttpRequest) (parses : Bool)
    → (body : Value) × ((if parses then some (or_else req.json undefined) else some (str req.text))
        ≡ some body)
read req true = (or_else req.json undefined, refl)
read req false = (str req.text, refl)

-- A request that may have a body is read exactly when the body, in whatever pieces it arrives, is in
-- total no longer than the limit.
pub read_body_iff :
    (max : ℕ) (req : HttpRequest)
    → req.has_body ≡ true
    → str_eq req.method "GET" || str_eq req.method "HEAD" ≡ false
    → ((body : Value) × (read_body max req ≡ some body)) ↔ (total req.chunks ≤ max)
unfolding read_body
read_body_iff max req has may =
    let counted = over_limit-total max 0 req.chunks (omega arith) in
    elim (Bool-cases (over_limit max 0 req.chunks)) [
      | inl over ↦ simp (has, may, over) ((λ (body, e). cc), λ h. absurd (ground arith))
      | inr fits ↦
          simp (has, may, fits)
            (
              (λ h. ground arith),
              λ h. read req (contains "application/json" (or_else req.content_type "")),
            )
    ]
