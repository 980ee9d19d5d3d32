-- ===== src/Connectors/Ollama/Body.antt =====
-- The body that is sent on for a streamed request.
use metamodels.Common.{
  String, ◌≡◌, refl, ◌≢◌, ◌⊎◌, inl, inr, Bool, true, ◌&&◌, arith, str_eq, eq_iff, eq_refl,
  if◌then◌else◌, Bool-cases, starts_with,
}
use metamodels.Json.{
  Value, Fields, undefined, bool, obj, get_field, with_field, prop, is_true, get_field-with,
}
use metamodels.Connectors.Ollama.{spread, include_usage, usage_body}

include_usage-prop :
    (body : Value) (k : String) → k ≢ "stream_options" → prop (include_usage body) k ≡ prop body k
unfolding include_usage prop
include_usage-prop (obj fs) k h = ground (
  arith,
  eq_iff "stream_options" k,
  get_field-with fs "stream_options" k
      (obj (with_field (spread (get_field fs "stream_options")) "include_usage" (bool true))),
)
include_usage-prop undefined k h = refl
include_usage-prop _ k h = refl

-- The options that a caller gives: an object, or none.
abbrev pub IsPlain : Value → Type 0
IsPlain options = ((fs : Fields) × (options ≡ obj fs)) ⊎ (options ≡ undefined)

spread-prop :
    (options : Value) (k : String) → IsPlain options → get_field (spread options) k ≡ prop options k
unfolding spread prop get_field
spread-prop options k (inl (fs, e)) = rw e
spread-prop options k (inr e) = rw e

include_usage-options :
    (fs : Fields) (k : String)
    → IsPlain (get_field fs "stream_options")
    → prop (prop (include_usage (obj fs)) "stream_options") k
      ≡ (if str_eq "include_usage" k then bool true else prop (get_field fs "stream_options") k)
unfolding include_usage prop
include_usage-options fs k plain =
    let options = get_field fs "stream_options" in
    rw (
      get_field-with fs "stream_options" "stream_options"
          (obj (with_field (spread options) "include_usage" (bool true))),
      eq_refl "stream_options",
      get_field-with (spread options) "include_usage" k (bool true),
      spread-prop options k plain,
    )

-- A request to an OpenAI route that asks for a stream.
abbrev pub is_streamed : String → Fields → Bool
is_streamed path fs = starts_with "/v1/" path && is_true (prop (obj fs) "stream")

-- The guard sends every field of a body on as it is, but for `stream_options`; and of those options,
-- where the caller gives an object or none, every one as it is, but for `include_usage`, which it sets
-- exactly where the request goes to an OpenAI route and asks for a stream.
pub usage_body-prop :
    (path : String) (fs : Fields) (key option : String)
    → key ≢ "stream_options"
    → IsPlain (get_field fs "stream_options")
    → (prop (usage_body path (obj fs)) key ≡ prop (obj fs) key)
      × (prop (prop (usage_body path (obj fs)) "stream_options") option ≡ (
          if is_streamed path fs && str_eq "include_usage" option
          then bool true
          else prop (prop (obj fs) "stream_options") option))
unfolding usage_body
usage_body-prop path fs key option other plain = elim (Bool-cases (is_streamed path fs)) [
  | inl streams ↦
      rw streams (include_usage-prop (obj fs) key other, include_usage-options fs option plain)
  | inr still ↦ rw still (refl, refl)
]
