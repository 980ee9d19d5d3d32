-- ===== src/Connectors/Ollama.antt =====
-- packages/connectors/src/ollama: constraint.ts, and the guard and the meter of breed.ts.
pub mod Guard
pub mod Routes
pub mod Body
pub mod Meter
use metamodels.Common.{
  append, ℕ, ◌+◌, String, Bool, true, false, not, ◌&&◌, ◌||◌, Option, none, some, List, [], ◌∷◌,
  ◌++◌, str_eq, if◌then◌else◌, or_else, is_some, any, includes, starts_with, before, decimal,
  lt_int, ℤ, pos,
}
use metamodels.Json.{
  Value, Items, Fields, undefined, null, bool, str, arr, obj, nil, cons, end, field, get_field,
  prop, with_field, is_string, is_number, is_true,
}
use metamodels.Connectors.Breed.{
  MeterDim, tokens_in, tokens_out, RequestCtx, GuardResult, pass, deny, MeterEvent, UpstreamResult,
}

pub data RouteGroup : Type 0 where
  chat generate embed read mutate unknown : RouteGroup

pub record OllamaConstraint : Type 0 where
  pub allowed_routes : List RouteGroup
  pub allowed_models : Option (List String)

abbrev same_group : RouteGroup → RouteGroup → Bool
same_group chat chat = true
same_group generate generate = true
same_group embed embed = true
same_group read read = true
same_group mutate mutate = true
same_group unknown unknown = true
same_group _ _ = false

unfoldable pub group_of : String → RouteGroup
unfolding starts_with
group_of p =
    if str_eq p "/api/chat" || str_eq p "/v1/chat/completions"
    then chat
    else if str_eq p "/api/generate" || str_eq p "/v1/completions"
    then generate
    else if str_eq p "/api/embed" || str_eq p "/api/embeddings" || str_eq p "/v1/embeddings"
    then embed
    else if str_eq p "/api/tags"
        || str_eq p "/api/show"
        || str_eq p "/api/ps"
        || str_eq p "/api/version"
        || str_eq p "/v1/models"
        || starts_with "/v1/models/" p
    then read
    else if str_eq p "/api/pull"
        || str_eq p "/api/push"
        || str_eq p "/api/create"
        || str_eq p "/api/copy"
        || str_eq p "/api/delete"
        || starts_with "/api/blobs" p
    then mutate
    else unknown

-- `routeGroup`: the query string is cut off.
unfoldable pub route_group : String → RouteGroup
unfolding before
route_group path = group_of (before b'?' path)

unfoldable pub ollama_model_allowed : OllamaConstraint → String → Bool
ollama_model_allowed fence model = elim fence.allowed_models [
  | none ↦ true
  | some models ↦ includes models model
]

abbrev pub includes_group : List RouteGroup → RouteGroup → Bool
includes_group groups g = any (λ a. same_group a g) groups

abbrev group_name : RouteGroup → String
group_name chat = "chat"
group_name generate = "generate"
group_name embed = "embed"
group_name read = "read"
group_name mutate = "mutate"
group_name unknown = "unknown"

-- `{ ...v }`: the own properties of an object, the items of an array or a text by their index.
spread_items : ℕ → Items → Fields
spread_items i nil = end
spread_items i (cons v xs) = field (decimal i) v (spread_items (i + 1) xs)

spread_text : ℕ → String → Fields
spread_text i String.[] = end
spread_text i (String.◌∷◌ c s) =
    field (decimal i) (str (String.◌∷◌ c String.[])) (spread_text (i + 1) s)

unfoldable pub spread : Value → Fields
unfolding spread_items spread_text decimal
spread (obj fs) = fs
spread (arr xs) = spread_items 0 xs
spread (str s) = spread_text 0 s
spread undefined = end
spread _ = end

-- A streamed request to the OpenAI routes is made to report its usage.
unfoldable pub include_usage : Value → Value
unfolding spread get_field with_field
include_usage (obj fs) = obj (
    with_field fs "stream_options"
      (obj (with_field (spread (get_field fs "stream_options")) "include_usage" (bool true))))
include_usage undefined = undefined
include_usage v = v

-- The test of the model: a list admits only a `model` that is one of its texts.
unfoldable pub model_permitted : OllamaConstraint → Value → Bool
unfolding ollama_model_allowed
model_permitted fence model =
    not (is_some fence.allowed_models)
    || elim (is_string model) [ none ↦ false | some m ↦ ollama_model_allowed fence m ]

-- The body that is sent on.
unfoldable pub usage_body : String → Value → Value
unfolding include_usage prop starts_with
usage_body path body =
    if starts_with "/v1/" path && is_true (prop body "stream") then include_usage body else body

abbrev forwarded : RequestCtx → Value → GuardResult
forwarded ctx body =
    pass (record { method = ctx.method; path = ctx.path; headers = ctx.headers; body = body })

abbrev infer_guard : RequestCtx → OllamaConstraint → GuardResult
infer_guard ctx fence =
    let model = prop ctx.body "model" in
    if not (model_permitted fence model)
    then deny 403 (append "model not allowed: " (or_else (is_string model) "(none)"))
    else forwarded ctx (usage_body ctx.path ctx.body)

route_guard : RouteGroup → RequestCtx → OllamaConstraint → GuardResult
route_guard g ctx fence =
    if not (includes_group fence.allowed_routes g)
    then deny 403
        (append "route group '" (append (group_name g) "' is not allowed by this paddock"))
    else if same_group g read
    then forwarded ctx ctx.body
    else infer_guard ctx fence

guard_group : RouteGroup → RequestCtx → OllamaConstraint → GuardResult
unfolding route_guard
guard_group mutate ctx fence = deny 403 "model-management endpoints are not permitted"
guard_group unknown ctx fence = deny 403 (append "route not permitted: " ctx.path)
guard_group g ctx fence = route_guard g ctx fence

unfoldable pub guard : RequestCtx → OllamaConstraint → GuardResult
unfolding guard_group route_group
guard ctx fence = guard_group (route_group ctx.path) ctx fence

abbrev number_or : Value → ℤ → ℤ
number_or v d = or_else (is_number v) d

abbrev is_positive : ℤ → Bool
is_positive n = lt_int (pos 0) n

-- A field that is an object or an array: `usage && typeof usage === 'object'`.
abbrev is_object : Value → Bool
is_object (obj fs) = true
is_object (arr xs) = true
is_object undefined = false
is_object _ = false

-- `a ?? b`
abbrev pub nullish : Value → Value → Value
nullish undefined b = b
nullish null b = b
nullish a b = a

unfoldable pub token_counts : Value → ℤ × ℤ
unfolding prop
token_counts frame =
    let usage = prop frame "usage" in
    let own_in = number_or (prop frame "prompt_eval_count") (pos 0) in
    let own_out = number_or (prop frame "eval_count") (pos 0) in
    if is_object usage
    then (
      number_or (prop usage "prompt_tokens") own_in,
      number_or (prop usage "completion_tokens") own_out,
    )
    else (own_in, own_out)

abbrev counted : MeterDim → ℤ → ℕ → List MeterEvent
counted dim n now = if is_positive n then record { dim = dim; value = n; at = now } ∷ [] else []

unfoldable pub meter : ℕ → UpstreamResult → List MeterEvent
unfolding token_counts
meter now upstream =
    let frame = nullish upstream.final_frame upstream.body in
    let (tokens_in', tokens_out') = token_counts frame in
    if is_object frame
    then counted tokens_in tokens_in' now ++ counted tokens_out tokens_out' now
    else []
