-- ===== src/DataPlane/World.antt =====
-- The types that the data plane's parts share (apps/data-plane/src/config/types.ts, meter/meter-sink.ts),
-- and the state that its requests change.
use metamodels.Common.{ℕ, String, Option, List, ℤ}
use metamodels.Json.{Value}
use metamodels.Connectors.Breed.{
  MeterDim, RouteSpec, RequestCtx, GuardResult, MeterEvent, UpstreamResult, BreedHandleResult,
}
use metamodels.Connectors.Io.{BreedIo}
use metamodels.DataPlane.RateLimit.{RateLimit, Hits}
use metamodels.DataPlane.JobStore.{Jobs}
use metamodels.DataPlane.Proxy.{Flock, Outgoing}

pub record KeyOverrides : Type 0 where
  pub rate_limit : Option RateLimit

pub record ResolvedKey : Type 0 where
  pub key_id : String
  pub org_id : String
  pub status : String
  pub expires_at : Option ℕ
  pub paddock_slugs : List String
  pub overrides : Option KeyOverrides
  pub oauth_client_id : Option String

pub record PaddockFence : Type 0 where
  pub constraint_json : Value
  pub rate_limit : Option RateLimit
  pub quota : Value

pub record ResolvedPaddock : Type 0 where
  pub paddock_id : String
  pub org_id : String
  pub slug : String
  pub name : String
  pub status : String
  pub breed_id : String
  pub flock : Flock
  pub fence : PaddockFence
  pub upstream_auth_error : Option String

pub record MeterEventRecord : Type 0 where
  pub org_id : String
  pub key_id : String
  pub paddock_id : String
  pub breed_id : String
  pub dim : MeterDim
  pub value : ℤ
  pub at : ℕ

-- What requests change: the limiter, the jobs, what was metered, and what was sent upstream.
pub record World : Type 0 where
  pub hits : Hits
  pub jobs : Jobs
  pub meters : List MeterEventRecord
  pub sent : List Outgoing

-- packages/connectors/src/breed.ts, `Breed`, for the fence type `C`; `none` is a `handle` that the breed
-- does not have. `now` is the time of the call.
pub record Breed (C : Type 0) : Type 0 where
  pub id : String
  pub routes : List RouteSpec
  pub parse : Value → Option C
  pub guard : RequestCtx → C → GuardResult
  pub meter : ℕ → RequestCtx → UpstreamResult → List MeterEvent
  pub handle : Option (ℕ → RequestCtx → C → BreedIo World → World → BreedHandleResult × World)
