-- ===== src/DataPlane/JobStore.antt =====
-- apps/data-plane/src/jobs: the records of ComfyUI jobs, in memory and in Postgres.
pub mod Once
use metamodels.Common.{ℕ, String, Bool, true, false, Option, none, some, if◌then◌else◌, ℤ}
use metamodels.JsMap.{JsMap, get, set, has}

-- packages/connectors/src/breed.ts
pub record JobRecord : Type 0 where
  pub job_id : String
  pub key_id : String
  pub paddock_id : String
  pub org_id : String
  pub template_id : String
  pub cost : ℤ
  pub metered : Bool
  pub submitted_at : ℕ

-- `Omit<JobRecord, 'metered'>`
pub record NewJob : Type 0 where
  pub job_id : String
  pub key_id : String
  pub paddock_id : String
  pub org_id : String
  pub template_id : String
  pub cost : ℤ
  pub submitted_at : ℕ

abbrev pub unmetered : NewJob → JobRecord
unmetered j = record {
  job_id = j.job_id;
  key_id = j.key_id;
  paddock_id = j.paddock_id;
  org_id = j.org_id;
  template_id = j.template_id;
  cost = j.cost;
  metered = false;
  submitted_at = j.submitted_at;
}

abbrev pub Jobs : Type 0
Jobs = JsMap JobRecord

-- The copy that `get` hands out is the record's value.
unfoldable pub get_job : Jobs → String → Option JobRecord
get_job jobs id = get jobs id

-- `InMemoryJobStore.create`: a record that is there is overwritten.
unfoldable pub create_in_memory : Jobs → NewJob → Jobs
create_in_memory jobs j = set jobs j.job_id (unmetered j)

-- `PostgresJobStore.create`: `ON CONFLICT DO NOTHING` keeps the row that is there.
unfoldable pub create_in_postgres : Jobs → NewJob → Jobs
create_in_postgres jobs j = if has jobs j.job_id then jobs else set jobs j.job_id (unmetered j)

abbrev marked : Jobs → String → Option JobRecord → Bool × Jobs
marked jobs id none = (false, jobs)
marked jobs id (some job) =
    if job.metered then (false, jobs) else (true, set jobs id (record job { metered = true }))

-- The compare-and-set of both stores: whether this call made the job metered.
unfoldable pub mark_metered : Jobs → String → Bool × Jobs
mark_metered jobs id = marked jobs id (get jobs id)
