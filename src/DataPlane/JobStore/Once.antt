-- ===== src/DataPlane/JobStore/Once.antt =====
-- A job is metered once: whichever polls interleave, one call of `markMetered` wins.
use metamodels.Common.{
  ℕ, ◌+◌, ◌≤◌, String, ◌≡◌, refl, inl, inr, Bool, true, false, not, ◌&&◌, ◌||◌, Option, none, some,
  List, [], ◌∷◌, arith, str_eq, eq_iff, eq_refl, if◌then◌else◌, Bool-cases, is_some,
}
use metamodels.JsMap.{get}
use metamodels.JsMap.Laws.{get-set}
use metamodels.DataPlane.JobStore.{
  Jobs, NewJob, JobRecord, unmetered, create_in_memory, create_in_postgres, mark_metered, marked,
}

-- A call on the store, from whichever request it comes.
pub data Op : Type 0 where
  create : NewJob → Op
  mark : String → Op

abbrev pub flag : Option JobRecord → Bool
flag none = false
flag (some job) = job.metered

abbrev pub is_metered : Jobs → String → Bool
is_metered jobs id = flag (get jobs id)

-- How often a run of calls wins the mark of job `id`.
module _ (make : Jobs → NewJob → Jobs) (id : String) where
  pub wins : Jobs → List Op → ℕ
  wins jobs [] = 0
  wins jobs (create j ∷ ops) = wins (make jobs j) ops
  wins jobs (mark k ∷ ops) =
      let (won, jobs') = mark_metered jobs k in
      (if won && str_eq k id then 1 else 0) + wins jobs' ops

-- What a store promises: a metered job stays metered when jobs are created.
pub record KeepsMetered (make : Jobs → NewJob → Jobs) : Type 0 where
  pub keeps :
      (jobs : Jobs) (j : NewJob) (id : String)
      → is_metered jobs id ≡ true
      → is_metered (make jobs j) id ≡ true

-- A mark sets the flag of its job, if there is one, and of no other.
marked-flag :
    (jobs : Jobs) (k id : String) (o : Option JobRecord)
    → get jobs k ≡ o
    → (flag (get (marked jobs k o).1 id) ≡ (flag (get jobs id) || (str_eq k id && is_some o)))
      × ((marked jobs k o).0 ≡ (is_some o && not (flag o)))
marked-flag jobs k id none e = ground (arith, eq_iff k id)
marked-flag jobs k id (some job) e =
    ground (arith, eq_iff k id, get-set jobs k id (record job { metered = true }))

pub mark_flag :
    (jobs : Jobs) (k id : String)
    → (is_metered (mark_metered jobs k).1 id
        ≡ (is_metered jobs id || (str_eq k id && is_some (get jobs k))))
      × ((mark_metered jobs k).0 ≡ (is_some (get jobs k) && not (is_metered jobs k)))
unfolding mark_metered
mark_flag jobs k id = marked-flag jobs k id (get jobs k) refl

pub mark-is_metered :
    (jobs : Jobs) (k id : String)
    → is_metered jobs id ≡ true
    → ((mark_metered jobs k).0 && str_eq k id ≡ false)
      × (is_metered (mark_metered jobs k).1 id ≡ true)
mark-is_metered jobs k id h =
    let (after, won) = mark_flag jobs k id in
    elim (Bool-cases (str_eq k id)) [
      | inl same ↦ (rw (won, (eq_iff k id).0 same, h) (ground arith), rw (after, h))
      | inr other ↦ (rw other (ground arith), rw (after, h))
    ]

mark-wins :
    (jobs : Jobs) (k id : String)
    → (mark_metered jobs k).0 && str_eq k id ≡ true
    → is_metered (mark_metered jobs k).1 id ≡ true
mark-wins jobs k id h = ground (arith, eq_iff k id, mark_flag jobs k id)

pub mark-won :
    (jobs : Jobs) (id : String)
    → (mark_metered jobs id).0 ≡ true
    → (is_metered jobs id ≡ false) × (is_metered (mark_metered jobs id).1 id ≡ true)
mark-won jobs id h =
    (ground (arith, mark_flag jobs id id), mark-wins jobs id id (rw (h, eq_refl id) refl))

module _ {make : Jobs → NewJob → Jobs} (store : KeepsMetered make) (id : String) where
  wins-metered :
      (jobs : Jobs) (ops : List Op) → is_metered jobs id ≡ true → wins make id jobs ops ≡ 0
  unfolding wins
  wins-metered jobs [] h = refl
  wins-metered jobs (create j ∷ ops) h = wins-metered (make jobs j) ops (store.keeps jobs j id h)
  wins-metered jobs (mark k ∷ ops) h =
      let (lost, stays) = mark-is_metered jobs k id h in
      rw (lost, wins-metered (mark_metered jobs k).1 ops stays)

  -- Of all the calls that a run makes, at most one wins the mark of a job, whatever jobs are created
  -- in between, on a store that keeps metered jobs metered.
  pub wins-le-one : (jobs : Jobs) (ops : List Op) → wins make id jobs ops ≤ 1
  unfolding wins
  wins-le-one jobs [] = omega arith
  wins-le-one jobs (create j ∷ ops) = wins-le-one (make jobs j) ops
  wins-le-one jobs (mark k ∷ ops) = elim (Bool-cases ((mark_metered jobs k).0 && str_eq k id)) [
    | inl won ↦
        rw (won, wins-metered (mark_metered jobs k).1 ops (mark-wins jobs k id won)) (omega arith)
    | inr lost ↦ rw lost (omega (arith, wins-le-one (mark_metered jobs k).1 ops))
  ]

-- The Postgres store promises it.
pub postgres-KeepsMetered : KeepsMetered create_in_postgres
unfolding create_in_postgres
postgres-KeepsMetered = record {
  keeps = λ jobs j id h. ground (arith, eq_iff j.job_id id, get-set jobs j.job_id id (unmetered j));
}

in_memory_reopens :
    (jobs : Jobs) (j : NewJob) → (mark_metered (create_in_memory jobs j) j.job_id).0 ≡ true
unfolding create_in_memory
in_memory_reopens jobs j =
    let made = create_in_memory jobs j in
    let found = get-set jobs j.job_id j.job_id (unmetered j) in
    let (after, won) = mark_flag made j.job_id j.job_id in rw (won, found, eq_refl j.job_id)

-- In memory, creating a job a second time reopens its mark: of two marks, each after a creation of
-- the job, both win.
pub in_memory_wins_twice :
    (jobs : Jobs) (j : NewJob)
    → wins create_in_memory j.job_id jobs (create j ∷ mark j.job_id ∷ create j ∷ mark j.job_id ∷ [])
      ≡ 2
unfolding wins
in_memory_wins_twice jobs j =
    let first = create_in_memory jobs j in
    let second = (mark_metered first j.job_id).1 in
    rw (in_memory_reopens jobs j, in_memory_reopens second j, eq_refl j.job_id)
