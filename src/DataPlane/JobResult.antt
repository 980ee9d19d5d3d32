-- ===== src/DataPlane/JobResult.antt =====
-- apps/data-plane/src/pipeline.ts: `jobResult`, the poll for a job's result.
pub mod Polls
use metamodels.Common.{
  append, String, Bool, not, ◌||◌, Option, none, some, List, [], ◌∷◌, str_eq, if◌then◌else◌, length,
  ℤ, pos,
}
use metamodels.Json.{Value, undefined}
use metamodels.Connectors.Breed.{images, gpu_ms, RewrittenRequest, MeterEvent, UpstreamResult}
use metamodels.Connectors.Comfyui.Result.{Image, JobOutcome, parse_history}
use metamodels.DataPlane.JobStore.{JobRecord, get_job, mark_metered}
use metamodels.DataPlane.Proxy.{outgoing}
use metamodels.DataPlane.World.{World}
use metamodels.DataPlane.Pipeline.{Scope, Deps, emit_scoped, proxy}

pub data JobAnswer : Type 0 where
  not_found : JobAnswer
  view : Bool → List Image → JobAnswer

abbrev count_images : List Image → ℤ
count_images xs = pos (length xs)

module _ {C : Type 0} (deps : Deps C) (scope : Scope C) (job_id : String) where
  -- `GET /history/<id>`
  abbrev pub history_request : RewrittenRequest
  history_request = record {
    method = "GET";
    path = append "/history/" job_id;
    headers = [];
    body = undefined;
  }

  abbrev history_body : Option UpstreamResult → Value
  history_body none = undefined
  history_body (some r) = r.body

  abbrev pub result_events : JobOutcome → List MeterEvent
  result_events outcome =
      record { dim = images; value = count_images outcome.images; at = deps.now }
      ∷ record { dim = gpu_ms; value = outcome.gpu_ms; at = deps.now }
      ∷ []

  -- Marked before it is metered, and metered only by the poll that won the mark.
  abbrev metered_once : JobOutcome → World → World
  metered_once outcome w =
      let (won, jobs) = mark_metered w.jobs job_id in
      if outcome.done
      then if won
        then emit_scoped deps scope (result_events outcome) (record w { jobs = jobs })
        else record w { jobs = jobs }
      else w

  abbrev polled : Option UpstreamResult × World → JobAnswer × World
  polled (r, w) =
      let outcome = parse_history (history_body r) job_id in
      (view outcome.done outcome.images, metered_once outcome w)

  abbrev owned : Option JobRecord → World → JobAnswer × World
  owned none w = (not_found, w)
  owned (some job) w =
      if not (str_eq job.key_id scope.resolved_key.key_id)
        || not (str_eq job.paddock_id scope.paddock.paddock_id)
      then (not_found, w)
      else polled (proxy deps scope history_request w)

  unfoldable pub job_result : World → JobAnswer × World
  unfolding mark_metered parse_history get_job outgoing
  job_result w = owned (get_job w.jobs job_id) w
