-- ===== src/DataPlane/Pipeline.antt =====
-- apps/data-plane/src/pipeline.ts: the gates of every request, and its run.
pub mod Gates
pub mod Sends
pub mod Submits
use metamodels.Common.{
  append, ℕ, String, Bool, true, false, not, ◌&&◌, ◌||◌, Option, none, some, List, [], ◌∷◌, ◌++◌,
  map, str_eq, leb, if◌then◌else◌, or_else, first_some, is_some, ◌>>=◌, any, includes, starts_with,
  decimal,
}
use metamodels.JsMap.{JsMap}
use metamodels.Json.{Value, undefined, null}
use metamodels.Connectors.Breed.{
  MeterDim, RouteSpec, RequestCtx, RewrittenRequest, GuardResult, pass, deny, MeterEvent,
  UpstreamResult, BreedHandleResult,
}
use metamodels.Connectors.Io.{RawResponse, BreedIo, upload_form}
use metamodels.DataPlane.RateLimit.{RateLimit, check}
use metamodels.DataPlane.JobStore.{create_in_postgres}
use metamodels.DataPlane.Proxy.{Outgoing, outgoing, outgoing_raw}
use metamodels.DataPlane.World.{ResolvedKey, ResolvedPaddock, MeterEventRecord, World, Breed}

-- `QuotaRule` of packages/schema/src/config.ts.
pub data QuotaPeriod : Type 0 where
  hour day month : QuotaPeriod

pub record QuotaRule : Type 0 where
  pub dim : MeterDim
  pub max : ℕ
  pub period : QuotaPeriod

-- A refusal, before it is rendered: its `error`, the quota's `dim`, and its headers.
pub record Refusal : Type 0 where
  pub status : ℕ
  pub error : String
  pub dim : Option MeterDim
  pub headers : JsMap String

abbrev pub refusal : ℕ → String → Refusal
refusal status error = record { status = status; error = error; dim = none; headers = [] }

pub record Scope (C : Type 0) : Type 0 where
  pub resolved_key : ResolvedKey
  pub paddock : ResolvedPaddock
  pub breed : Breed C

-- `threw` is an exception that the caller does not catch.
pub data Gate (C : Type 0) : Type 0 where
  scoped : Scope C → Gate C
  refused : Refusal → Gate C
  threw : Gate C

-- What the pipeline is given: the configuration, the registry, the aggregated usage, the upstream
-- servers and the clock. `fetch` and `upload` give `none` where the call throws.
pub record Deps (C : Type 0) : Type 0 where
  pub get_paddock_by_slug : String → Option ResolvedPaddock
  pub breed_of : String → Option (Breed C)
  pub parse_quota : Value → Option (List QuotaRule)
  pub period_usage : Option (String → String → MeterDim → QuotaPeriod → ℕ → ℕ)
  pub default_rate_limit : Option RateLimit
  pub fetch : Outgoing → Option UpstreamResult
  pub upload : Outgoing → Option RawResponse
  pub uuid : ℕ → String
  pub now : ℕ

abbrev pub default_limit : RateLimit
default_limit = record { window_sec = 60; max = 60 }

-- `retry-after: String(retryAfterSec)`
abbrev retry_text : Option ℕ → String
retry_text none = "NaN"
retry_text (some n) = decimal n

abbrev pub is_nullish : Value → Bool
is_nullish undefined = true
is_nullish null = true
is_nullish _ = false

abbrev registered : {C : Type 0} → ResolvedKey → ResolvedPaddock → Option (Breed C) → Gate C
registered key paddock none = threw
registered key paddock (some breed) =
    scoped (record { resolved_key = key; paddock = paddock; breed = breed })

module _ {C : Type 0} (deps : Deps C) where
  abbrev found_paddock : ResolvedKey → String → Option ResolvedPaddock → Gate C
  found_paddock key slug none = refused (refusal 404 "unknown paddock")
  found_paddock key slug (some paddock) =
      if not (str_eq paddock.status "active")
      then refused (refusal 404 "unknown paddock")
      else if not (includes key.paddock_slugs slug)
      then refused (refusal 403 "key not scoped to paddock")
      else if is_some paddock.upstream_auth_error
      then refused (refusal 503 "upstream credential unavailable")
      else registered key paddock (deps.breed_of paddock.breed_id)

  unfoldable pub paddock_scope : ResolvedKey → String → Gate C
  paddock_scope key slug = found_paddock key slug (deps.get_paddock_by_slug slug)

  -- The first rule whose usage has reached its cap.
  unfoldable pub quota_refusal : (MeterDim → QuotaPeriod → ℕ → ℕ) → List QuotaRule → Option Refusal
  quota_refusal used [] = none
  quota_refusal used (rule ∷ rules) =
      let rest = quota_refusal used rules in
      if leb rule.max (used rule.dim rule.period deps.now)
      then some
          (record { status = 429; error = "quota exceeded"; dim = some rule.dim; headers = [] })
      else rest

  -- A quota that does not parse disables the cap.
  abbrev parsed_quota : (MeterDim → QuotaPeriod → ℕ → ℕ) → Option (List QuotaRule) → Option Refusal
  parsed_quota used none = none
  parsed_quota used (some rules) = quota_refusal used rules

  abbrev quota_with :
      Scope C → Option (String → String → MeterDim → QuotaPeriod → ℕ → ℕ) → Option Refusal
  quota_with scope none = none
  quota_with scope (some usage) =
      if is_nullish scope.paddock.fence.quota
      then none
      else parsed_quota (usage scope.resolved_key.key_id scope.paddock.paddock_id)
          (deps.parse_quota scope.paddock.fence.quota)

  unfoldable pub quota : Scope C → Option Refusal
  quota scope = quota_with scope deps.period_usage

  -- `a ?? b ?? c` of the key's override, the fence's limit and the default.
  abbrev pub limit_of : Scope C → RateLimit
  limit_of scope =
      let override = scope.resolved_key.overrides >>= λ o. o.rate_limit in
      or_else
        (first_some override (first_some scope.paddock.fence.rate_limit deps.default_rate_limit))
        default_limit

  abbrev pub bucket_of : Scope C → String
  bucket_of scope = append scope.resolved_key.key_id (append ":" scope.paddock.paddock_id)

  -- Rate limit, then quota; `none` where the request may proceed.
  unfoldable pub limits : Scope C → World → Option Refusal × World
  limits scope w =
      let (rl, hits) = check w.hits deps.now (bucket_of scope) (limit_of scope) in
      let w' : World = record w { hits = hits } in
      (
        if rl.allowed
            then quota scope
            else some (record {
              status = 429;
              error = "rate limit exceeded";
              dim = none;
              headers = ("retry-after", retry_text rl.retry_after_sec) ∷ [];
            }),
        w',
      )

  abbrev pub record_of : Scope C → MeterEvent → MeterEventRecord
  record_of scope e = record {
    org_id = scope.paddock.org_id;
    key_id = scope.resolved_key.key_id;
    paddock_id = scope.paddock.paddock_id;
    breed_id = scope.paddock.breed_id;
    dim = e.dim;
    value = e.value;
    at = e.at;
  }

  -- `emitScoped`; what the sink does not take is lost, and never fails the request.
  abbrev pub emit_scoped : Scope C → List MeterEvent → World → World
  emit_scoped scope events w = record w { meters = w.meters ++ map (record_of scope) events }

  -- `proxyToUpstream`, drained.
  abbrev pub proxy : Scope C → RewrittenRequest → World → Option UpstreamResult × World
  proxy scope req w =
      let out = outgoing scope.paddock.flock req in
      (deps.fetch out, record w { sent = w.sent ++ out ∷ [] })

  -- A transport failure is a 502.
  abbrev or_bad_gateway : Option UpstreamResult → UpstreamResult
  or_bad_gateway none = record { status = 502; body = undefined; final_frame = undefined }
  or_bad_gateway (some r) = r

  unfoldable pub build_io : Scope C → BreedIo World
  unfolding create_in_postgres outgoing outgoing_raw
  build_io scope = record {
    ids = record {
      org_id = scope.paddock.org_id;
      key_id = scope.resolved_key.key_id;
      paddock_id = scope.paddock.paddock_id;
    };
    upstream = λ req w. let (r, w') = proxy scope req w in (or_bad_gateway r, w');
    upload = λ name base64 w.
        let out = outgoing_raw scope.paddock.flock "/upload/image" (upload_form name base64) in
        (deps.upload out, record w { sent = w.sent ++ out ∷ [] });
    emit_meter = emit_scoped scope;
    create_job = λ job w. record w { jobs = create_in_postgres w.jobs job };
    uuid = deps.uuid;
  }

pub data BreedOutcome : Type 0 where
  refused : Refusal → BreedOutcome
  handled : ℕ → Value → BreedOutcome
  proxied : UpstreamResult → BreedOutcome
  threw : BreedOutcome

-- `ctx.path === r.path || ctx.path.startsWith(r.path + '/')`
abbrev under : String → String → Bool
under path route = str_eq path route || starts_with (append route "/") path

-- A route of the upstream server that the breed does not expose.
abbrev pub is_direct : RequestCtx → RouteSpec → Bool
is_direct ctx r = str_eq r.method ctx.method && not r.expose_by_default && under ctx.path r.path

module _ {C : Type 0} (deps : Deps C) (scope : Scope C) (ctx : RequestCtx) where
  abbrev denied : GuardResult → Option Refusal
  denied (pass req) = none
  denied (deny status reason) = some (refusal status reason)

  abbrev answered : BreedHandleResult × World → BreedOutcome × World
  answered (r, w) = (handled r.status r.body, w)

  abbrev relayed : Option UpstreamResult × World → BreedOutcome × World
  relayed (none, w) = (threw, w)
  relayed (some r, w) = (proxied r, emit_scoped deps scope (scope.breed.meter deps.now ctx r) w)

  abbrev guarded : GuardResult → World → BreedOutcome × World
  guarded (deny status reason) w = (refused (refusal status reason), w)
  guarded (pass req) w = relayed (proxy deps scope req w)

  -- The refusal of a request that targets a direct route, if the breed's guard refuses it.
  abbrev bypass : C → Option Refusal
  bypass fence =
      if any (is_direct ctx) scope.breed.routes then denied (scope.breed.guard ctx fence) else none

  abbrev delegated :
      (ℕ → RequestCtx → C → BreedIo World → World → BreedHandleResult × World)
      → C
      → Option Refusal
      → World
      → BreedOutcome × World
  delegated handle fence (some r) w = (refused r, w)
  delegated handle fence none w = answered (handle deps.now ctx fence (build_io deps scope) w)

  run_breed :
      Option (ℕ → RequestCtx → C → BreedIo World → World → BreedHandleResult × World)
      → C
      → World
      → BreedOutcome × World
  unfolding build_io outgoing starts_with
  run_breed (some handle) fence w = delegated handle fence (bypass fence) w
  run_breed none fence w = guarded (scope.breed.guard ctx fence) w

  abbrev run_parsed : Option C → World → BreedOutcome × World
  run_parsed none w = (threw, w)
  run_parsed (some fence) w = run_breed scope.breed.handle fence w

  -- A fence that does not parse throws.
  unfoldable pub run : World → BreedOutcome × World
  unfolding run_breed
  run w = run_parsed (scope.breed.parse scope.paddock.fence.constraint_json) w
