-- ===== src/DataPlane/JobResult/Polls.antt =====
-- What polling for a job's result shows and meters.
use metamodels.Common.{
  ℕ, ◌+◌, ◌≤◌, String, ◌≡◌, refl, sym, inl, inr, Bool, true, false, not, ◌&&◌, ◌||◌, Option, none,
  some, List, [], ◌∷◌, ◌++◌, arith, str_eq, eq_iff, if◌then◌else◌, Bool-cases, length,
  length-append, ℤ, pos,
}
use metamodels.JsMap.{get}
use metamodels.Connectors.Breed.{MeterDim, images, gpu_ms}
use metamodels.Connectors.Comfyui.Result.{JobOutcome, parse_history}
use metamodels.DataPlane.JobStore.{JobRecord, get_job, mark_metered}
use metamodels.DataPlane.JobStore.Once.{is_metered, mark_flag, mark-is_metered, mark-won}
use metamodels.DataPlane.World.{MeterEventRecord, World}
use metamodels.DataPlane.Pipeline.{Scope, Deps, proxy}
use metamodels.DataPlane.JobResult.{
  not_found, view, history_request, history_body, metered_once, polled, owned, job_result,
}

-- The job is there, and is the caller's.
abbrev pub IsOwner : {C : Type 0} → Scope C → Option JobRecord → Type 0
IsOwner scope none = ⊥
IsOwner scope (some job) =
    (job.key_id ≡ scope.resolved_key.key_id) × (job.paddock_id ≡ scope.paddock.paddock_id)

-- Two more records may still be metered for a job that is not marked.
abbrev budget : String → World → ℕ
budget job_id w = length w.meters + (if is_metered w.jobs job_id then 0 else 2)

module _ {C : Type 0} (deps : Deps C) (scope : Scope C) (job_id : String) where
  owned-foreign :
      (o : Option JobRecord) (w : World)
      → ¬ IsOwner scope o
      → owned deps scope job_id o w ≡ (not_found, w)
  owned-foreign none w h = refl
  owned-foreign (some job) w h = elim (Bool-cases (str_eq job.key_id scope.resolved_key.key_id)) [
    | inr other ↦ rw other refl
    | inl same ↦ elim (Bool-cases (str_eq job.paddock_id scope.paddock.paddock_id)) [
      | inr other ↦ rw (same, other) refl
      | inl same' ↦ absurd (h ((eq_iff _ _).0 same, (eq_iff _ _).0 same'))
    ]
  ]

  stays :
      (w : World)
      → length w.meters + (if is_metered (mark_metered w.jobs job_id).1 job_id then 0 else 2)
        ≤ budget job_id w
  stays w = elim (Bool-cases (is_metered w.jobs job_id)) [
    | inl closed ↦ rw ((mark-is_metered w.jobs job_id job_id closed).1, closed) (omega arith)
    | inr open_before ↦ rw open_before (ground arith)
  ]

  metered_once-budget :
      (outcome : JobOutcome) (w : World)
      → budget job_id (metered_once deps scope job_id outcome w) ≤ budget job_id w
  metered_once-budget outcome w = elim (Bool-cases outcome.done) [
    | inr running ↦ simp running (omega arith)
    | inl finished ↦ elim (Bool-cases (mark_metered w.jobs job_id).0) [
      | inl wins ↦
          let (open_before, closed) = mark-won w.jobs job_id wins in
          simp (finished, wins, length-append, open_before, closed) (omega arith)
      | inr loses ↦ simp (finished, loses) (stays w)
    ]
  ]

  owned-budget :
      (o : Option JobRecord) (w : World)
      → budget job_id (owned deps scope job_id o w).1 ≤ budget job_id w
  owned-budget none w = omega arith
  owned-budget (some job) w =
      let (r, w') = proxy deps scope (history_request deps scope job_id) w in
      elim (Bool-cases (
        not (str_eq job.key_id scope.resolved_key.key_id)
        || not (str_eq job.paddock_id scope.paddock.paddock_id))) [
          | inl foreign ↦ rw foreign (omega arith)
          | inr own ↦
              rw own
                (metered_once-budget (parse_history (history_body deps scope job_id r) job_id) w')
        ]

  -- A poll of a job leaves no more to be metered for it.
  job_result-budget :
      (w : World) → budget job_id (job_result deps scope job_id w).1 ≤ budget job_id w
  unfolding job_result
  job_result-budget w = owned-budget (get_job w.jobs job_id) w

-- A caller that polls for a job which is not there, or is another key's or another paddock's, is told
-- that there is none; nothing is sent upstream, marked or metered.
pub job_result-foreign :
    {C : Type 0} (deps : Deps C) (scope : Scope C) (job_id : String) (w : World)
    → ¬ IsOwner scope (get_job w.jobs job_id)
    → job_result deps scope job_id w ≡ (not_found, w)
unfolding job_result
job_result-foreign deps scope job_id w h =
    owned-foreign deps scope job_id (get_job w.jobs job_id) w h

-- The polls of one job, each with its own upstream, clock and caller.
abbrev pub polls : {C : Type 0} → String → List (Deps C × Scope C) → World → World
polls job_id [] w = w
polls job_id ((deps, scope) ∷ rest) w = polls job_id rest (job_result deps scope job_id w).1

polls-budget :
    {C : Type 0} (job_id : String) (ps : List (Deps C × Scope C)) (w : World)
    → budget job_id (polls job_id ps w) ≤ budget job_id w
polls-budget job_id [] w = omega arith
polls-budget job_id ((deps, scope) ∷ rest) w = omega (
  arith,
  polls-budget job_id rest (job_result deps scope job_id w).1,
  job_result-budget deps scope job_id w,
)

-- However often a job is polled, by whichever callers and whatever the upstream server answers, at most
-- two meter records are added, and none once the job is marked.
pub polls-meter_once :
    {C : Type 0} (job_id : String) (ps : List (Deps C × Scope C)) (w : World)
    → length (polls job_id ps w).meters
      ≤ length w.meters + (if is_metered w.jobs job_id then 0 else 2)
polls-meter_once job_id ps w = omega (arith, polls-budget job_id ps w)

or_false : (b : Bool) → (b || false) ≡ b
or_false true = refl
or_false false = refl

-- A mark that is there is not won again.
mark-closed :
    (job_id : String) (w : World)
    → is_metered w.jobs job_id ≡ true
    → (mark_metered w.jobs job_id).0 ≡ false
mark-closed job_id w closed = elim (Bool-cases (mark_metered w.jobs job_id).0) [
  | inr loses ↦ loses
  | inl wins ↦ let open_before = (mark-won w.jobs job_id wins).0 in cc
]

own-poll :
    {C : Type 0} (deps : Deps C) (scope : Scope C) (job_id : String) (o : Option JobRecord)
    (w : World)
    → IsOwner scope o
    → owned deps scope job_id o w
      ≡ polled deps scope job_id (proxy deps scope (history_request deps scope job_id) w)
own-poll deps scope job_id none w h = elim h [ ]
own-poll deps scope job_id (some job) w (same_key, same_paddock) =
    rw ((eq_iff job.key_id _).1 same_key, (eq_iff job.paddock_id _).1 same_paddock) refl

mark-own :
    {C : Type 0} (scope : Scope C) (job_id : String) (o : Option JobRecord) (w : World)
    → IsOwner scope o
    → get w.jobs job_id ≡ o
    → is_metered w.jobs job_id ≡ false
    → (mark_metered w.jobs job_id).0 ≡ true
mark-own scope job_id none w own e unmarked = elim own [ ]
mark-own scope job_id (some job) w own e unmarked =
    rw ((mark_flag w.jobs job_id job_id).1, unmarked, e) refl

-- A meter record of the caller.
abbrev pub job_meter : {C : Type 0} → Deps C → Scope C → MeterDim → ℤ → MeterEventRecord
job_meter deps scope dim value = record {
  org_id = scope.paddock.org_id;
  key_id = scope.resolved_key.key_id;
  paddock_id = scope.paddock.paddock_id;
  breed_id = scope.paddock.breed_id;
  dim = dim;
  value = value;
  at = deps.now;
}

-- A poll of the job's owner shows what the upstream server's history says of the job. If it is done and was not
-- marked, the poll adds a record of the number of its images and one of its GPU time, in the caller's name, and
-- otherwise none. Afterwards the job is marked if it was before or is done.
pub job_result-meters :
    {C : Type 0} (deps : Deps C) (scope : Scope C) (job_id : String) (w : World)
    (outcome : JobOutcome)
    → IsOwner scope (get_job w.jobs job_id)
    → parse_history
        (history_body deps scope job_id (proxy deps scope (history_request deps scope job_id) w).0)
        job_id
      ≡ outcome
    → ((job_result deps scope job_id w).0 ≡ view outcome.done outcome.images)
      × ((job_result deps scope job_id w).1.meters ≡ (
          if outcome.done && not (is_metered w.jobs job_id)
          then w.meters
            ++ job_meter deps scope images (pos (length outcome.images))
              ∷ job_meter deps scope gpu_ms outcome.gpu_ms
              ∷ []
          else w.meters))
      × (is_metered (job_result deps scope job_id w).1.jobs job_id
          ≡ is_metered w.jobs job_id || outcome.done)
unfolding job_result get_job
job_result-meters deps scope job_id w outcome own told =
    let polls_it = own-poll deps scope job_id (get w.jobs job_id) w own in
    elim (Bool-cases outcome.done) [
      | inr running ↦ rw (polls_it, told, running) (refl, refl, sym (or_false _))
      | inl finished ↦ elim (Bool-cases (is_metered w.jobs job_id)) [
        | inl closed ↦
            let loses = mark-closed job_id w closed in
            rw (polls_it, told, finished, closed, loses)
              (refl, refl, (mark-is_metered w.jobs job_id job_id closed).1)
        | inr unmarked ↦
            let won = mark-own scope job_id (get w.jobs job_id) w own refl unmarked in
            rw (polls_it, told, finished, unmarked, won)
              (refl, refl, (mark-won w.jobs job_id won).1)
      ]
    ]
