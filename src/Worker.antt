-- ===== src/Worker.antt =====
-- apps/worker/src: meter events are read from a Redis stream and summed into the rollups that quotas
-- read.
pub mod Sums
pub mod Cycles
use metamodels.Common.{
  append, ℕ, zero, suc, String, ◌≡◌, Bool, true, false, ◌&&◌, Option, none, some, List, [], ◌∷◌,
  map, str_eq, ltb, if◌then◌else◌, ◌>>=◌, length, decimal, add_int, ℤ,
}
use metamodels.Connectors.Breed.{MeterDim, tokens_in, tokens_out, jobs, gpu_ms, images}

pub record RollupEvent : Type 0 where
  pub org_id : String
  pub key_id : String
  pub paddock_id : String
  pub dim : MeterDim
  pub value : ℤ
  pub at : ℕ

-- A row of `usage_rollup`. The period is the hour bucket of the event's time.
pub record Row : Type 0 where
  pub org_id : String
  pub key_id : String
  pub paddock_id : String
  pub period : String
  pub dim : MeterDim
  pub value : ℤ

-- The parts of a date that `getUTCFullYear` and its like give.
pub record UtcDate : Type 0 where
  pub year : ℕ
  pub month : ℕ
  pub day : ℕ
  pub hour : ℕ

-- `String(n).padStart(2, '0')`
abbrev pad : ℕ → String
pad n = if ltb n 10 then append "0" (decimal n) else decimal n

-- `periodBucket` of packages/schema/src/period.ts; `month` counts from 1.
unfoldable pub period_bucket : UtcDate → String
unfolding decimal
period_bucket d =
    append (decimal d.year) (
      append "-" (append (pad d.month) (append "-" (append (pad d.day) (append "T" (pad d.hour))))))

abbrev pub same_dim : MeterDim → MeterDim → Bool
same_dim tokens_in tokens_in = true
same_dim tokens_out tokens_out = true
same_dim jobs jobs = true
same_dim gpu_ms gpu_ms = true
same_dim images images = true
same_dim _ _ = false

-- The row that an event alone would give.
abbrev pub row_of : (ℕ → UtcDate) → RollupEvent → Row
row_of utc e = record {
  org_id = e.org_id;
  key_id = e.key_id;
  paddock_id = e.paddock_id;
  period = period_bucket (utc e.at);
  dim = e.dim;
  value = e.value;
}

-- The columns of the unique index.
abbrev pub same_target : Row → Row → Bool
same_target a b =
    str_eq a.org_id b.org_id
    && str_eq a.key_id b.key_id
    && str_eq a.paddock_id b.paddock_id
    && str_eq a.period b.period
    && same_dim a.dim b.dim

-- The upsert: the row that is there takes the value on.
unfoldable pub upsert : List Row → Row → List Row
upsert [] new = new ∷ []
upsert (row ∷ rows) new =
    let rest = upsert rows new in
    if same_target row new
    then record row { value = add_int row.value new.value } ∷ rows
    else row ∷ rest

-- `applyEvents`, in a transaction that commits.
unfoldable pub apply_events : (ℕ → UtcDate) → List Row → List RollupEvent → List Row
unfolding upsert
apply_events utc rows [] = rows
apply_events utc rows (e ∷ es) = apply_events utc (upsert rows (row_of utc e)) es

-- An entry of the stream; `event` is `none` where its fields do not decode.
pub record StreamEntry : Type 0 where
  pub id : String
  pub event : Option RollupEvent

-- Redis, as the worker uses it: `XREADGROUP … COUNT n … >` and `XACK`. `fresh` are the entries that the
-- group has never been given.
pub record Redis (S : Type 0) : Type 0 where
  pub read_group : ℕ → S → List StreamEntry × S
  pub ack : List String → S → S
  pub fresh : S → List StreamEntry

abbrev pub take : {A : Type 0} → ℕ → List A → List A
take zero xs = []
take (suc n) [] = []
take (suc n) (x ∷ xs) = x ∷ take n xs

abbrev pub drop : {A : Type 0} → ℕ → List A → List A
drop zero xs = xs
drop (suc n) [] = []
drop (suc n) (x ∷ xs) = drop n xs

-- The documented behaviour of `>`: an entry that was given once is not given again, acknowledged or not.
pub record RedisLaws {S : Type 0} (redis : Redis S) : Type 0 where
  pub given : (n : ℕ) (s : S) → (redis.read_group n s).0 ≡ take n (redis.fresh s)
  pub left : (n : ℕ) (s : S) → redis.fresh (redis.read_group n s).1 ≡ drop n (redis.fresh s)
  pub acked : (ids : List String) (s : S) → redis.fresh (redis.ack ids s) ≡ redis.fresh s

-- The events of a batch, `none` where an entry does not decode and `readBatch` throws.
abbrev pub decoded : List StreamEntry → Option (List RollupEvent)
decoded [] = some []
decoded (entry ∷ entries) = do e ← entry.event; es ← decoded entries; some (e ∷ es)

abbrev ids_of : List StreamEntry → List String
ids_of entries = map (λ (e : StreamEntry). e.id) entries

module _ {S : Type 0} (redis : Redis S) (utc : ℕ → UtcDate) where
  -- The rollups and the stream after a cycle, and how many events it processed; `none` is a throw.
  abbrev summed :
      Bool → List StreamEntry → Option (List RollupEvent) → List Row → S → Option ℕ × (List Row × S)
  summed commits entries none rows s = (none, (rows, s))
  summed commits entries (some []) rows s = (some 0, (rows, s))
  summed commits entries (some (e ∷ es)) rows s =
      if commits
      then (some (length (e ∷ es)), (apply_events utc rows (e ∷ es), redis.ack (ids_of entries) s))
      else (none, (rows, s))

  -- `processOnce`; `commits` is whether the database takes the transaction.
  unfoldable pub process_once : Bool → List Row → S → Option ℕ × (List Row × S)
  unfolding apply_events
  process_once commits rows s =
      let (entries, s') = redis.read_group 100 s in summed commits entries (decoded entries) rows s'

  -- The loop of `main`, for the cycles whose transactions end as `outcomes` says: a throw is logged, and
  -- the loop goes on.
  unfoldable pub cycles : List Bool → List Row → S → List Row × S
  unfolding process_once
  cycles [] rows s = (rows, s)
  cycles (commits ∷ outcomes) rows s =
      let (n, (rows', s')) = process_once commits rows s in cycles outcomes rows' s'
