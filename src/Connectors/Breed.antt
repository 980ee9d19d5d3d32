-- ===== src/Connectors/Breed.antt =====
-- packages/connectors/src/breed.ts: the shapes that a breed and the data plane exchange.
use metamodels.Common.{ℕ, String, Bool, ℤ}
use metamodels.JsMap.{JsMap}
use metamodels.Json.{Value}

-- `MeterDim` of packages/schema/src/enums.ts.
pub data MeterDim : Type 0 where
  tokens_in tokens_out jobs gpu_ms images : MeterDim

pub data RouteClass : Type 0 where
  read infer mutate : RouteClass

pub record RouteSpec : Type 0 where
  pub method : String
  pub path : String
  pub class : RouteClass
  pub expose_by_default : Bool

pub record RequestCtx : Type 0 where
  pub method : String
  pub path : String
  pub headers : JsMap String
  pub body : Value
  pub paddock_slug : String

pub record RewrittenRequest : Type 0 where
  pub method : String
  pub path : String
  pub headers : JsMap String
  pub body : Value

pub data GuardResult : Type 0 where
  pass : RewrittenRequest → GuardResult
  deny : ℕ → String → GuardResult

pub record MeterEvent : Type 0 where
  pub dim : MeterDim
  pub value : ℤ
  pub at : ℕ

pub record UpstreamResult : Type 0 where
  pub status : ℕ
  pub body : Value
  pub final_frame : Value

pub record BreedHandleResult : Type 0 where
  pub status : ℕ
  pub body : Value
