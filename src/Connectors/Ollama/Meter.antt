-- ===== src/Connectors/Ollama/Meter.antt =====
-- What a request is metered for.
use metamodels.Common.{
  ℕ, ◌≤◌, ◌≡◌, refl, ◌⊎◌, inl, inr, true, arith, Bool-cases, length, length-append, All, All-append,
  lt_int, ℤ, pos,
}
use metamodels.Connectors.Breed.{MeterDim, tokens_in, tokens_out, MeterEvent, UpstreamResult}
use metamodels.Connectors.Ollama.{token_counts, nullish, counted, is_object, meter}

-- An event of the breed's own dimensions, with a count above zero, at the time of the answer.
abbrev pub IsBillable : ℕ → MeterEvent → Type 0
IsBillable now e =
    ((e.dim ≡ tokens_in) ⊎ (e.dim ≡ tokens_out)) × (lt_int (pos 0) e.value ≡ true) × (e.at ≡ now)

counted-IsBillable :
    (dim : MeterDim) (n : ℤ) (now : ℕ)
    → ((dim ≡ tokens_in) ⊎ (dim ≡ tokens_out))
    → All (IsBillable now) (counted dim n now) × (length (counted dim n now) ≤ 1)
counted-IsBillable dim n now h = elim (Bool-cases (lt_int (pos 0) n)) [
  | inl more ↦ rw more (((h, more, refl), tt), omega arith)
  | inr none' ↦ rw none' (tt, omega arith)
]

-- A response is metered by at most two events, each for tokens in or tokens out, with a count above
-- zero, whatever the upstream server answered.
pub meter-IsBillable :
    (now : ℕ) (upstream : UpstreamResult)
    → All (IsBillable now) (meter now upstream) × (length (meter now upstream) ≤ 2)
unfolding meter
meter-IsBillable now upstream =
    let frame = nullish upstream.final_frame upstream.body in
    let (a, b) = token_counts frame in
    let (ha, la) = counted-IsBillable tokens_in a now (inl refl) in
    let (hb, lb) = counted-IsBillable tokens_out b now (inr refl) in
    elim (Bool-cases (is_object frame)) [
      | inl object ↦ rw object (
        All-append (IsBillable now) (counted tokens_in a now) (counted tokens_out b now) ha hb,
        omega (arith, length-append (counted tokens_in a now) (counted tokens_out b now)),
      )
      | inr other ↦ rw other (tt, omega arith)
    ]
