-- ===== src/DataPlane/App.antt =====
-- apps/data-plane/src/app.ts, unauthorized.ts and body-limit.ts: the two routes of the proxy, from the
-- request to the answer.
pub mod Access
pub mod Limit
use metamodels.Common.{
  append, ℕ, ◌+◌, String, Bool, true, false, not, ◌&&◌, ◌||◌, Option, none, some, List, [], ◌∷◌,
  str_eq, ltb, leb, ◌==◌, if◌then◌else◌, or_else, first_some, ◌>>=◌, contains, after_prefix_ci,
  is_empty, trim, after_slashes,
}
use Prim.Native.Char.{code}
use metamodels.JsMap.{JsMap}
use metamodels.Json.{Value, undefined, bool, str, arr, obj, end, field, nil, cons, Items}
use metamodels.Connectors.Breed.{
  MeterDim, tokens_in, tokens_out, jobs, gpu_ms, images, RequestCtx, UpstreamResult,
}
use metamodels.Connectors.Comfyui.Result.{Image}
use metamodels.DataPlane.World.{ResolvedKey, World}
use metamodels.DataPlane.Pipeline.{
  Refusal, Scope, Gate, Deps, paddock_scope, limits, BreedOutcome, run,
}
use metamodels.DataPlane.JobResult.{JobAnswer, not_found, view, job_result}

-- A request, once it is routed. `json` is what parsing the body gives, `none` where that throws;
-- `chunks` are the sizes of the pieces in which the body arrives.
pub record HttpRequest : Type 0 where
  pub method : String
  pub path : String
  pub slug : String
  pub authorization : Option String
  pub x_api_key : Option String
  pub content_type : Option String
  pub declared_length : Option ℕ
  pub transfer_encoding : Bool
  pub has_body : Bool
  pub chunks : List ℕ
  pub text : String
  pub json : Option Value

-- `relayed` passes the upstream server's answer on; `failed` is an exception that nothing catches.
pub data Answer : Type 0 where
  json : ℕ → JsMap String → Value → Answer
  relayed : UpstreamResult → Answer
  failed : Answer

pub record AppDeps (C : Type 0) : Type 0 where
  pub pipeline : Deps C
  pub resolve_key_by_hash : String → Option ResolvedKey
  pub hash_api_key : String → String
  pub max_request_body_bytes : ℕ

-- The bearer's text after its spaces; one that is all spaces is trimmed to nothing.
abbrev bearer_text : String → Option String
bearer_text String.[] = none
bearer_text (String.◌∷◌ c s) = if code c == b' ' && not (is_empty s) then some (trim s) else none

abbrev trimmed : Option String → Option String
unfolding trim
trimmed none = none
trimmed (some s) = some (trim s)

abbrev pub non_empty : Option String → Option String
non_empty none = none
non_empty (some s) = if is_empty s then none else some s

-- `extractKey`
unfoldable pub extract_key : Option String → Option String → Option String
unfolding after_prefix_ci trim
extract_key header x_api_key =
    let bearer = non_empty header >>= λ h. after_prefix_ci "bearer" h >>= bearer_text in
    first_some bearer (trimmed (non_empty x_api_key))

pub data KeyRejection : Type 0 where
  no_key_presented no_key_matches key_expired : KeyRejection

abbrev is_presented : KeyRejection → Bool
is_presented no_key_presented = false
is_presented no_key_matches = true
is_presented key_expired = true

-- `unauthorizedKey`: the reason is logged, and answered only as far as a key was presented.
unfoldable pub unauthorized_key : KeyRejection → Answer
unauthorized_key rejection =
    json 401 (("content-type", "application/json") ∷ ("www-authenticate", "Bearer") ∷ []) (
      obj (
        field "error"
          (str (if is_presented rejection then "invalid api key" else "missing api key")) end))

-- `keyExpired`
abbrev pub is_expired : Option ℕ → ℕ → Bool
is_expired none now = false
is_expired (some expires_at) now = leb expires_at now

pub data LiveKey : Type 0 where
  rejected : KeyRejection → LiveKey
  live : ResolvedKey → LiveKey

abbrev unexpired : ℕ → Option ResolvedKey → LiveKey
unexpired now none = rejected no_key_matches
unexpired now (some key) = if is_expired key.expires_at now then rejected key_expired else live key

abbrev pub dim_name : MeterDim → String
dim_name tokens_in = "tokens_in"
dim_name tokens_out = "tokens_out"
dim_name jobs = "jobs"
dim_name gpu_ms = "gpu_ms"
dim_name images = "images"

-- `reply`
abbrev pub reply : Refusal → Answer
reply r = json r.status r.headers (
    obj (
      field "error" (str r.error)
        (elim r.dim [ none ↦ end | some dim ↦ field "dim" (str (dim_name dim)) end ])))

abbrev pub body_too_large : Answer
body_too_large = json 413 [] (obj (field "error" (str "request body too large") end))

-- The counted stream: whether a read fails, `seen` bytes having passed.
pub over_limit : ℕ → ℕ → List ℕ → Bool
over_limit max seen [] = false
over_limit max seen (chunk ∷ chunks) =
    ltb max (seen + chunk) || over_limit max (seen + chunk) chunks

-- `limitRequestBody`: the body is refused by its declared length, unread.
abbrev pub declared_over : ℕ → HttpRequest → Bool
declared_over max req =
    req.has_body
    && not req.transfer_encoding
    && elim req.declared_length [ none ↦ false | some n ↦ ltb max n ]

-- The body that the handler reads, `none` where the read crosses the limit.
unfoldable pub read_body : ℕ → HttpRequest → Option Value
unfolding over_limit contains
read_body max req =
    if str_eq req.method "GET" || str_eq req.method "HEAD"
    then some undefined
    else if req.has_body && over_limit max 0 req.chunks
    then none
    else if contains "application/json" (or_else req.content_type "")
    then some (or_else req.json undefined)
    else some (str req.text)

abbrev pub content_headers : String → JsMap String
content_headers content_type =
    if is_empty content_type then [] else ("content-type", content_type) ∷ []

abbrev pub context : HttpRequest → Value → RequestCtx
unfolding after_slashes
context req body = record {
  method = req.method;
  path = append "/" (after_slashes 3 req.path);
  headers = content_headers (or_else req.content_type "");
  body = body;
  paddock_slug = req.slug;
}

abbrev pub outcome_answer : BreedOutcome → Answer
outcome_answer (BreedOutcome.refused r) = reply r
outcome_answer (BreedOutcome.handled status body) = json status [] body
outcome_answer (BreedOutcome.proxied r) = relayed r
outcome_answer BreedOutcome.threw = failed

image_values : List Image → Items
image_values [] = nil
image_values (i ∷ is) =
    cons
      (obj (
        field "filename" (str i.filename)
          (field "subfolder" (str i.subfolder) (field "type" (str i.type) end))))
      (image_values is)

abbrev pub job_answer : JobAnswer → Answer
unfolding image_values
job_answer not_found = json 404 [] (obj (field "error" (str "not found") end))
job_answer (view done images') =
    json 200 [] (obj (field "done" (bool done) (field "images" (arr (image_values images')) end)))

module _ {C : Type 0} (deps : AppDeps C) where
  abbrev resolved : Option String → LiveKey
  resolved none = rejected no_key_presented
  resolved (some plaintext) =
      unexpired deps.pipeline.now (deps.resolve_key_by_hash (deps.hash_api_key plaintext))

  -- `liveKey`
  unfoldable pub live_key : HttpRequest → LiveKey
  unfolding extract_key
  live_key req = resolved (non_empty (extract_key req.authorization req.x_api_key))

  abbrev pub ran : Scope C → HttpRequest → Option Value → World → Answer × World
  ran scope req none w = (body_too_large, w)
  ran scope req (some body) w =
      let (outcome, w') = run deps.pipeline scope (context req body) w in
      (outcome_answer outcome, w')

  abbrev limited : Scope C → HttpRequest → Option Refusal × World → Answer × World
  limited scope req (some r, w) = (reply r, w)
  limited scope req (none, w) = ran scope req (read_body deps.max_request_body_bytes req) w

  abbrev gated : HttpRequest → Gate C → World → Answer × World
  gated req (Gate.refused r) w = (reply r, w)
  gated req Gate.threw w = (failed, w)
  gated req (Gate.scoped scope) w = limited scope req (limits deps.pipeline scope w)

  abbrev authenticated : HttpRequest → LiveKey → World → Answer × World
  authenticated req (rejected reason) w = (unauthorized_key reason, w)
  authenticated req (live key) w = gated req (paddock_scope deps.pipeline key req.slug) w

  -- `app.all('/p/:slug/*')`, behind the body limit.
  unfoldable pub proxy_request : HttpRequest → World → Answer × World
  unfolding live_key unauthorized_key read_body
  proxy_request req w =
      if declared_over deps.max_request_body_bytes req
      then (body_too_large, w)
      else authenticated req (live_key req) w

  abbrev polled_job : String → Gate C → World → Answer × World
  polled_job job_id (Gate.refused r) w = (reply r, w)
  polled_job job_id Gate.threw w = (failed, w)
  polled_job job_id (Gate.scoped scope) w =
      let (answer, w') = job_result deps.pipeline scope job_id w in (job_answer answer, w')

  abbrev authenticated_poll : HttpRequest → String → LiveKey → World → Answer × World
  authenticated_poll req job_id (rejected reason) w = (unauthorized_key reason, w)
  authenticated_poll req job_id (live key) w =
      polled_job job_id (paddock_scope deps.pipeline key req.slug) w

  -- `app.get('/p/:slug/result/:jobId')`, behind the body limit.
  unfoldable pub result_request : HttpRequest → String → World → Answer × World
  unfolding live_key unauthorized_key
  result_request req job_id w =
      if declared_over deps.max_request_body_bytes req
      then (body_too_large, w)
      else authenticated_poll req job_id (live_key req) w
