-- ===== src/Examples/Requests.antt =====
-- The pipeline on concrete requests.
use metamodels.Common.{◌≤◌, ◌≡◌, refl, ◌↔◌, true, Option, none, some, [], ◌∷◌, length, pos}
use metamodels.JsMap.{get}
use metamodels.Json.{Value, undefined, obj, end}
use metamodels.Connectors.Ollama.{OllamaConstraint}
use metamodels.Connectors.Comfyui.Submit.{ComfyConstraint}
use metamodels.Connectors.Comfyui.Result.{JobOutcome, parse_history}
use metamodels.DataPlane.RateLimit.{check}
use metamodels.DataPlane.JobStore.{get_job}
use metamodels.DataPlane.JobStore.Once.{is_metered}
use metamodels.DataPlane.Breeds.{ollama_breed, comfyui_breed}
use metamodels.DataPlane.Pipeline.{
  Scope, Deps, Gate, paddock_scope, bucket_of, limit_of, limits, run,
}
use metamodels.DataPlane.JobResult.{not_found, view, job_result}
use metamodels.DataPlane.Pipeline.Gates.{
  IsEntitled, UnderCaps, scope_of, paddock_scope_iff, limits_iff,
}
use metamodels.DataPlane.Pipeline.Sends.{SendsPermitted, run-SendsPermitted}
use metamodels.DataPlane.Pipeline.Submits.{IsFenced, run-IsFenced}
use metamodels.Connectors.Breed.{images, gpu_ms}
use metamodels.DataPlane.JobResult.Polls.{
  job_meter, polls, job_result-foreign, polls-meter_once, job_result-meters,
}
use metamodels.Examples.{
  key, chat_paddock, art_paddock, chat_fence, chat_request, request, art_fence, parse_submit, draw,
  history, one_rule, deps_of, idle, with_job,
}

abbrev parse_chat : Value → Option OllamaConstraint
parse_chat v = some chat_fence

abbrev parse_art : Value → Option ComfyConstraint
parse_art v = some art_fence

abbrev chat_deps : Deps OllamaConstraint
chat_deps = deps_of chat_paddock (ollama_breed parse_chat) undefined

abbrev art_deps : Deps ComfyConstraint
art_deps = deps_of art_paddock (comfyui_breed parse_art parse_submit draw) history

abbrev chat_scope : Scope OllamaConstraint
chat_scope = scope_of key chat_paddock (ollama_breed parse_chat)

abbrev art_scope : Scope ComfyConstraint
art_scope = scope_of key art_paddock (comfyui_breed parse_art parse_submit draw)

run-SendsPermitted_example :
    SendsPermitted parse_chat chat_deps key chat_paddock chat_request idle
      (some chat_fence)
      (run chat_deps chat_scope chat_request idle).1
unfolding get
run-SendsPermitted_example =
    run-SendsPermitted parse_chat chat_deps key chat_paddock chat_request idle refl

run-IsFenced_example :
    IsFenced parse_art parse_submit draw art_deps key art_paddock
      (request "POST" "/submit" (obj end))
      art_fence
      (run art_deps art_scope (request "POST" "/submit" (obj end)) idle).1
run-IsFenced_example =
    run-IsFenced parse_art parse_submit draw art_deps key art_paddock
      (request "POST" "/submit" (obj end)) art_fence idle refl (tt, tt)

paddock_scope_iff_example :
    (paddock_scope chat_deps key "chat" ≡ Gate.scoped chat_scope)
    ↔ IsEntitled chat_deps key "chat" chat_paddock (ollama_breed parse_chat)
paddock_scope_iff_example =
    paddock_scope_iff chat_deps key "chat" chat_paddock (ollama_breed parse_chat)

paddock_scope-granted : paddock_scope chat_deps key "chat" ≡ Gate.scoped chat_scope
unfolding paddock_scope
paddock_scope-granted = refl

abbrev other_deps : Deps OllamaConstraint
other_deps =
    deps_of (record chat_paddock { paddock_id = "video-1"; upstream_auth_error = some "sealed" })
      (ollama_breed parse_chat) undefined

limits_iff_example :
    (((limits chat_deps chat_scope idle).0 ≡ none) ↔ (
      ((check [] 5000 (bucket_of chat_deps chat_scope) (limit_of chat_deps chat_scope)).0.allowed
        ≡ true)
      × UnderCaps (λ d period now. 7) 5000 one_rule))
    × ((limits chat_deps chat_scope idle).1.jobs ≡ [])
    × ((limits chat_deps chat_scope idle).1.meters ≡ [])
    × ((limits chat_deps chat_scope idle).1.sent ≡ [])
limits_iff_example =
    limits_iff chat_deps chat_scope idle (λ k p d period now. 7) one_rule refl refl refl

job_result-foreign_example : job_result art_deps art_scope "p9" with_job ≡ (not_found, with_job)
unfolding get_job get
job_result-foreign_example = job_result-foreign art_deps art_scope "p9" with_job (λ h. h)

polls-meter_once_example :
    length (polls "p1" ((art_deps, art_scope) ∷ (art_deps, art_scope) ∷ []) with_job).meters ≤ 2
unfolding get
polls-meter_once_example =
    polls-meter_once "p1" ((art_deps, art_scope) ∷ (art_deps, art_scope) ∷ []) with_job

abbrev outcome : JobOutcome
outcome = record {
  done = true;
  images = record { filename = "a.png"; subfolder = ""; type = "" } ∷ [];
  gpu_ms = pos 1500;
}

job_result-meters_example :
    ((job_result art_deps art_scope "p1" with_job).0 ≡ view true outcome.images)
    × ((job_result art_deps art_scope "p1" with_job).1.meters
        ≡ job_meter art_deps art_scope images (pos 1)
          ∷ job_meter art_deps art_scope gpu_ms (pos 1500)
          ∷ [])
    × (is_metered (job_result art_deps art_scope "p1" with_job).1.jobs "p1" ≡ true)
unfolding get_job get parse_history
job_result-meters_example =
    job_result-meters art_deps art_scope "p1" with_job outcome (refl, refl) refl
