-- ===== src/Examples/Rollups.antt =====
-- The worker on a concrete stream.
use metamodels.Common.{ℕ, ◌≡◌, refl, inl, true, false, none, some, List, [], ◌∷◌, arith, pos}
use metamodels.Connectors.Breed.{tokens_in}
use metamodels.Worker.{
  period_bucket, RollupEvent, UtcDate, row_of, apply_events, StreamEntry, Redis, RedisLaws, take,
  drop, cycles,
}
use metamodels.Worker.Sums.{value_at, sum_of, apply_events-sum_of}
use metamodels.Worker.Cycles.{repeated, cycles_drain, cycles_lose}

abbrev utc : ℕ → UtcDate
utc at = record { year = 2026; month = 7; day = 27; hour = 14 }

abbrev event : ℕ → RollupEvent
event n = record {
  org_id = "o1";
  key_id = "k1";
  paddock_id = "p1";
  dim = tokens_in;
  value = pos n;
  at = 0;
}

abbrev two_events : List RollupEvent
two_events = event 3 ∷ event 4 ∷ []

apply_events-summed :
    value_at (apply_events utc [] two_events) (row_of utc (event 0)) ≡ some (pos 7)
unfolding apply_events period_bucket
apply_events-summed = refl

apply_events-sum_of_example :
    value_at (apply_events utc [] two_events) (row_of utc (event 0))
    ≡ sum_of utc (row_of utc (event 0)) none two_events
apply_events-sum_of_example = apply_events-sum_of utc [] two_events (row_of utc (event 0))

-- A stream that holds what has not been given yet.
abbrev list_redis : Redis (List StreamEntry)
list_redis = record { read_group = λ n s. (take n s, drop n s); ack = λ ids s. s; fresh = λ s. s }

list_redis-laws : RedisLaws list_redis
list_redis-laws = record { given = λ n s. refl; left = λ n s. refl; acked = λ ids s. refl }

abbrev stream : List StreamEntry
stream =
    record { id = "1-0"; event = some (event 3) }
    ∷ record { id = "2-0"; event = some (event 4) }
    ∷ []

cycles_drain_example :
    ((cycles list_redis utc (repeated 1 true) [] stream).0 ≡ apply_events utc [] two_events)
    × ((cycles list_redis utc (repeated 1 true) [] stream).1 ≡ [])
cycles_drain_example =
    cycles_drain list_redis list_redis-laws utc 1 [] stream two_events refl (omega arith)

cycles_lose_example : (cycles list_redis utc (false ∷ true ∷ true ∷ []) [] stream).0 ≡ []
cycles_lose_example =
    cycles_lose list_redis list_redis-laws utc false (true ∷ true ∷ []) [] stream (omega arith)
      (inl refl)
