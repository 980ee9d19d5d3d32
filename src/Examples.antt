-- ===== src/Examples.antt =====
-- Concrete data, on which the theorems are applied and the definitions run.
mod Limits
mod Caches
mod Chat
mod Art
mod Requests
mod Access
mod Rollups
mod Members
mod Keys
mod Seals
mod Flocks
mod Licences
mod Keyrings
use metamodels.Common.{append, ℕ, String, true, Option, none, some, List, [], ◌∷◌, ℤ, pos}
use metamodels.JsMap.{JsMap}
use metamodels.Json.{Value, undefined, null, bool, num, str, obj, arr, end, field, nil, cons}
use metamodels.Connectors.Breed.{MeterDim, RequestCtx, UpstreamResult}
use metamodels.Connectors.Ollama
use metamodels.Connectors.Ollama.{OllamaConstraint}
use metamodels.Connectors.Comfyui.Template.{Target, text, seed, number, WorkflowTemplate}
use metamodels.Connectors.Comfyui.Submit.{ComfyConstraint, SubmitBody}
use metamodels.DataPlane.Proxy.{Flock}
use metamodels.DataPlane.RateLimit.{RateLimit}
use metamodels.DataPlane.JobStore.{NewJob, unmetered}
use metamodels.DataPlane.World.{ResolvedKey, ResolvedPaddock, World, Breed}
use metamodels.DataPlane.Pipeline.{Deps, QuotaRule, QuotaPeriod}

abbrev pub two_a_minute : RateLimit
two_a_minute = record { window_sec = 60; max = 2 }

abbrev pub flock : Flock
flock = record { base_url = "http://gpu:11434/"; upstream_auth = some "bearer s3cret" }

abbrev pub key : ResolvedKey
key = record {
  key_id = "k1";
  org_id = "o1";
  status = "active";
  expires_at = none;
  paddock_slugs = "art" ∷ "chat" ∷ [];
  overrides = none;
  oauth_client_id = none;
}

abbrev pub paddock_of : String → String → Value → Value → ResolvedPaddock
paddock_of slug breed_id constraint quota = record {
  paddock_id = append slug "-1";
  org_id = "o1";
  slug = slug;
  name = slug;
  status = "active";
  breed_id = breed_id;
  flock = flock;
  fence = record { constraint_json = constraint; rate_limit = some two_a_minute; quota = quota };
  upstream_auth_error = none;
}

abbrev pub chat_paddock : ResolvedPaddock
chat_paddock = paddock_of "chat" "ollama" (obj end) (obj end)

abbrev pub art_paddock : ResolvedPaddock
art_paddock = paddock_of "art" "comfyui" (obj end) null

-- The fence of the chat paddock: two groups of routes, one model.
abbrev pub chat_fence : OllamaConstraint
chat_fence = record {
  allowed_routes = Ollama.chat ∷ Ollama.read ∷ [];
  allowed_models = some ("llama3" ∷ []);
}

abbrev pub chat_body : Value
chat_body = obj (field "model" (str "llama3") (field "stream" (bool true) end))

abbrev pub request : String → String → Value → RequestCtx
request method path body = record {
  method = method;
  path = path;
  headers = ("content-type", "application/json") ∷ [];
  body = body;
  paddock_slug = "chat";
}

abbrev pub chat_request : RequestCtx
chat_request = request "POST" "/v1/chat/completions" chat_body

abbrev pub target : String → String → Target
target node input = record { node = node; input = input }

-- A template with a text, a seed and a bounded number.
abbrev pub template : WorkflowTemplate
template = record {
  id = "t2i";
  graph =
      (
        "3",
        record {
          class_type = "KSampler";
          inputs = ("seed", num (pos 0)) ∷ ("steps", num (pos 20)) ∷ [];
        },
      )
      ∷ ("6", record { class_type = "CLIPTextEncode"; inputs = ("text", str "") ∷ [] })
      ∷ [];
  params =
      record { name = "prompt"; kind = text (target "6" "text") }
      ∷ record { name = "seed"; kind = seed (target "3" "seed" ∷ []) }
      ∷ record { name = "steps"; kind = number (target "3" "steps") (some (pos 1)) (some (pos 50)) }
      ∷ [];
  cost = pos 5;
}

abbrev pub params : JsMap Value
params = ("prompt", str "a cat") ∷ ("steps", num (pos 30)) ∷ []

abbrev pub draw : ℕ → ℤ
draw i = pos 42

abbrev pub art_fence : ComfyConstraint
art_fence = record { templates = template ∷ [] }

abbrev pub parse_submit : Value → Option SubmitBody
parse_submit body = some (record { template_id = "t2i"; params = params })

abbrev pub answer_of : Value → UpstreamResult
answer_of body = record { status = 200; body = body; final_frame = undefined }

-- The history of a job `p1` that is done, with one image and 1500 ms of GPU time.
abbrev pub message : String → ℕ → Value
message kind at = arr (cons (str kind) (cons (obj (field "timestamp" (num (pos at)) end)) nil))

abbrev pub history : Value
history = obj (
    field "p1"
      (obj (
        field "status"
          (obj (
            field "completed" (bool true) (
              field "messages"
                (arr (
                  cons (message "execution_start" 1000)
                    (cons (message "execution_success" 2500) nil)))
                end)))
          (field "outputs"
            (obj (
              field "9"
                (obj
                  (field "images" (arr (cons (obj (field "filename" (str "a.png") end)) nil)) end))
                end))
            end)))
      end)

abbrev pub one_rule : List QuotaRule
one_rule = record { dim = MeterDim.tokens_in; max = 1000; period = QuotaPeriod.day } ∷ []

-- Every paddock is found, and every key has used 7 of each dimension; the upstream server answers `body`.
abbrev pub deps_of : {C : Type 0} → ResolvedPaddock → Breed C → Value → Deps C
deps_of p b body = record {
  get_paddock_by_slug = λ slug. some p;
  breed_of = λ id. some b;
  parse_quota = λ q. some one_rule;
  period_usage = some (λ k p' d period now. 7);
  default_rate_limit = none;
  fetch = λ out. some (answer_of body);
  upload = λ out. none;
  uuid = λ i. "u";
  now = 5000;
}

abbrev pub job : NewJob
job = record {
  job_id = "p1";
  key_id = "k1";
  paddock_id = "art-1";
  org_id = "o1";
  template_id = "t2i";
  cost = pos 5;
  submitted_at = 10;
}

abbrev pub idle : World
idle = record { hits = []; jobs = []; meters = []; sent = [] }

abbrev pub with_job : World
with_job = record { hits = []; jobs = ("p1", unmetered job) ∷ []; meters = []; sent = [] }
