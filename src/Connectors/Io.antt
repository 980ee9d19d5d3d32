-- ===== src/Connectors/Io.antt =====
-- packages/connectors/src/breed.ts, `BreedIO`: what a breed's `handle` may do. The state that the calls
-- change is the caller's, and is handed through them.
use metamodels.Common.{ℕ, String, Bool, Option, List}
use metamodels.Json.{Value, str, obj, end, field}
use metamodels.Connectors.Breed.{RewrittenRequest, MeterEvent, UpstreamResult}
use metamodels.DataPlane.JobStore.{NewJob}

-- The response to an upload: whether its status is a success, and its JSON, if it has any.
pub record RawResponse : Type 0 where
  pub ok : Bool
  pub json : Option Value

pub record Ids : Type 0 where
  pub org_id : String
  pub key_id : String
  pub paddock_id : String

-- The form of an upload: the image with its bytes, here still in base64, and its file name.
abbrev pub upload_form : String → String → Value
upload_form name base64 =
    obj (field "image" (obj (field "name" (str name) (field "base64" (str base64) end))) end)

-- `upload name base64` is the multipart `POST /upload/image`; `none` is a call that throws. `uuid i` is
-- the `i`-th random UUID.
pub record BreedIo (W : Type 0) : Type 0 where
  pub ids : Ids
  pub upstream : RewrittenRequest → W → UpstreamResult × W
  pub upload : String → String → W → Option RawResponse × W
  pub emit_meter : List MeterEvent → W → W
  pub create_job : NewJob → W → W
  pub uuid : ℕ → String
