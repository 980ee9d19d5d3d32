-- ===== src/Connectors/Comfyui/Submit.antt =====
-- packages/connectors/src/comfyui/breed.ts: `handle`, the submission of a job.
pub mod Keeps
use metamodels.Common.{
  append, ℕ, ◌+◌, String, Bool, true, false, Option, none, some, List, [], ◌∷◌, str_eq,
  if◌then◌else◌, find, ℤ,
}
use metamodels.JsMap.{JsMap, get, set}
use metamodels.Json.{Value, Fields, str, obj, end, field, prop, is_string}
use metamodels.Connectors.Breed.{
  jobs, RequestCtx, RewrittenRequest, GuardResult, deny, MeterEvent, BreedHandleResult,
}
use metamodels.Connectors.Io.{RawResponse, BreedIo}
use metamodels.Connectors.Comfyui.Template.{
  ParamKind, text, seed, number, image, ParamSpec, Graph, WorkflowTemplate, ok, err,
  ReconstructResult, reconstruct_graph,
}
use metamodels.DataPlane.JobStore.{NewJob}

pub record ComfyConstraint : Type 0 where
  pub templates : List WorkflowTemplate

-- `{ template_id, params }`
pub record SubmitBody : Type 0 where
  pub template_id : String
  pub params : JsMap Value

abbrev pub failed : ℕ → String → BreedHandleResult
failed status message = record { status = status; body = obj (field "error" (str message) end) }

abbrev named : Option String → Option String
named none = none
named (some name) = if str_eq name "" then none else some name

abbrev filename_in : Option Value → Option String
filename_in none = none
filename_in (some json) = named (is_string (prop json "name"))

abbrev filename_of : Option RawResponse → Option String
filename_of none = none
filename_of (some res) = if res.ok then filename_in res.json else none

module _ {W : Type 0} (io : BreedIo W) where
  -- `uploadImage`
  unfoldable pub upload_image : String → String → W → Option String × W
  unfolding prop
  upload_image name base64 w = let (res, w') = io.upload name base64 w in (filename_of res, w')

-- The outcome of the uploads: an answer that ends the request, or the files by parameter.
pub data Uploads : Type 0 where
  refused : BreedHandleResult → Uploads
  uploaded : JsMap String → Uploads

abbrev pub after_upload :
    {W : Type 0} → Uploads × W → (JsMap String → W → Uploads × W) → Uploads × W
after_upload (refused e, w) k = (refused e, w)
after_upload (uploaded files, w) k = k files w

abbrev pub is_image : ParamKind → Bool
is_image (image t) = true
is_image (text t) = false
is_image (seed ts) = false
is_image (number t lo hi) = false

module _ {W : Type 0} (io : BreedIo W) (params : JsMap Value) where
  -- The name that an upload is sent under is unique to it.
  abbrev upload_name : ℕ → String
  upload_name i = append io.ids.key_id (append "-" (append (io.uuid i) ".png"))

  -- One image parameter whose value is supplied.
  upload_param : ℕ → String → JsMap String → Option String → W → Uploads × W
  unfolding upload_image
  upload_param i name files none w =
      (refused (failed 422 (append "param '" (append name "' must be a base64 image string"))), w)
  upload_param i name files (some raw) w =
      let (file, w') = upload_image io (upload_name i) raw w in
      (
        elim file [
          | none ↦ refused (failed 502 (append "image upload failed for param '" (append name "'")))
          | some f ↦ uploaded (set files name f)
        ],
        w',
      )

  abbrev upload_supplied : ℕ → String → JsMap String → Option Value → W → Uploads × W
  upload_supplied i name files none w = (uploaded files, w)
  upload_supplied i name files (some v) w = upload_param i name files (is_string v) w

  upload_spec : ℕ → ParamSpec → JsMap String → W → Uploads × W
  unfolding upload_param
  upload_spec i s files w =
      if is_image s.kind
      then upload_supplied i s.name files (get params s.name) w
      else (uploaded files, w)

  -- The loop over the template's parameters; `i` counts them, and with them the UUIDs.
  upload_all : ℕ → List ParamSpec → JsMap String → W → Uploads × W
  unfolding upload_spec
  upload_all i [] files w = (uploaded files, w)
  upload_all i (s ∷ specs) files w =
      after_upload (upload_spec i s files w) (λ files' w'. upload_all (i + 1) specs files' w')

abbrev fields_of : JsMap Value → Fields
fields_of [] = end
fields_of ((k, v) ∷ m) = field k v (fields_of m)

abbrev graph_fields : Graph → Fields
graph_fields [] = end
graph_fields ((k, n) ∷ g) =
    field k
      (obj (field "class_type" (str n.class_type) (field "inputs" (obj (fields_of n.inputs)) end)))
      (graph_fields g)

-- The one request that a submission sends to `/prompt`.
abbrev pub prompt_request : Graph → RewrittenRequest
prompt_request g = record {
  method = "POST";
  path = "/prompt";
  headers = ("content-type", "application/json") ∷ [];
  body = obj (field "prompt" (obj (graph_fields g)) end);
}

module _ {W : Type 0} (io : BreedIo W) (now : ℕ) where
  -- The template's id is the `template_id` by which it was found.
  abbrev pub job_of : WorkflowTemplate → String → NewJob
  job_of tpl prompt_id = record {
    job_id = prompt_id;
    key_id = io.ids.key_id;
    paddock_id = io.ids.paddock_id;
    org_id = io.ids.org_id;
    template_id = tpl.id;
    cost = tpl.cost;
    submitted_at = now;
  }

  abbrev pub jobs_event : WorkflowTemplate → List MeterEvent
  jobs_event tpl = record { dim = jobs; value = tpl.cost; at = now } ∷ []

  -- Steps 6 to 8: the job is recorded and metered.
  accept : WorkflowTemplate → Option String → W → BreedHandleResult × W
  accept tpl none w = (failed 502 "upstream did not return a prompt_id", w)
  accept tpl (some prompt_id) w = (
    record { status = 202; body = obj (field "job_id" (str prompt_id) end) },
    io.emit_meter (jobs_event tpl) (io.create_job (job_of tpl prompt_id) w),
  )

  -- Steps 4 and 5: the graph is rebuilt and sent.
  send : WorkflowTemplate → ReconstructResult → W → BreedHandleResult × W
  unfolding accept prop
  send tpl (err reason) w = (failed 422 reason, w)
  send tpl (ok graph) w =
      let (res, w') = io.upstream (prompt_request graph) w in
      accept tpl (named (is_string (prop res.body "prompt_id"))) w'

  abbrev submit_uploaded :
      (ℕ → ℤ) → WorkflowTemplate → JsMap Value → Uploads × W → BreedHandleResult × W
  submit_uploaded rng tpl params (refused e, w) = (e, w)
  submit_uploaded rng tpl params (uploaded files, w) =
      send tpl (reconstruct_graph tpl params files rng) w

  abbrev submit_found :
      (ℕ → ℤ) → String → JsMap Value → Option WorkflowTemplate → W → BreedHandleResult × W
  submit_found rng id params none w = (failed 404 (append "unknown template: " id), w)
  submit_found rng id params (some tpl) w =
      submit_uploaded rng tpl params (upload_all io params 0 tpl.params [] w)

  abbrev submit_parsed : (ℕ → ℤ) → ComfyConstraint → Option SubmitBody → W → BreedHandleResult × W
  submit_parsed rng fence none w =
      (failed 422 "malformed request: expected { template_id, params }", w)
  submit_parsed rng fence (some b) w =
      submit_found rng b.template_id b.params
        (find (λ (t : WorkflowTemplate). str_eq t.id b.template_id) fence.templates) w

-- `handle`: `parse` is the schema check of the body.
unfoldable pub handle :
    {W : Type 0}
    → (Value → Option SubmitBody)
    → (ℕ → ℤ)
    → ℕ
    → RequestCtx
    → ComfyConstraint
    → BreedIo W
    → W
    → BreedHandleResult × W
unfolding send upload_all
handle parse rng now ctx fence io w = submit_parsed io now rng fence (parse ctx.body) w

-- `guard`: no request reaches an upstream route directly.
unfoldable pub guard : RequestCtx → ComfyConstraint → GuardResult
guard ctx fence = deny 403 "direct comfyui routes are not permitted; use the template submit flow"
