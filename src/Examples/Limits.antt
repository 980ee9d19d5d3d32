-- ===== src/Examples/Limits.antt =====
-- The limiter and the job stores on concrete calls.
use metamodels.Common.{ℕ, ◌≤◌, String, ◌≡◌, refl, ◌⊎◌, true, none, some, List, [], ◌∷◌, arith}
use metamodels.JsMap.{get, set}
use metamodels.DataPlane.RateLimit.{RateLimit, check, recent_hits, retry_after}
use metamodels.DataPlane.RateLimit.Window.{Call, IsOrdered, admitted, in_window, admitted-le-max}
use metamodels.DataPlane.RateLimit.Window.Reference.{admitted_by_log, admitted-eq-by_log}
use metamodels.DataPlane.RateLimit.Retry.{IsWait, retry_after_suffices, retry_after_range}
use metamodels.DataPlane.JobStore.{create_in_postgres, create_in_memory}
use metamodels.DataPlane.JobStore.Once.{
  create, mark, wins, wins-le-one, postgres-KeepsMetered, in_memory_wins_twice,
}
use metamodels.Examples.{two_a_minute, job}

abbrev fixed : String → RateLimit
fixed bucket = two_a_minute

abbrev call : ℕ → String → Call
call now bucket = record { now = now; bucket = bucket }

abbrev burst : List Call
burst = call 0 "a" ∷ call 10 "a" ∷ call 20 "a" ∷ call 20 "b" ∷ call 60005 "a" ∷ []

burst-IsOrdered : IsOrdered 0 burst
burst-IsOrdered = (omega arith, (omega arith, (omega arith, (omega arith, (omega arith, tt)))))

burst-admitted : admitted fixed "a" [] burst ≡ 0 ∷ 10 ∷ 60005 ∷ []
unfolding admitted check get set recent_hits
burst-admitted = refl

admitted-le-max_example : in_window 60000 60005 (admitted fixed "a" [] burst) ≤ 2
admitted-le-max_example = admitted-le-max fixed "a" burst 60005 burst-IsOrdered

admitted-eq-by_log_example : admitted fixed "a" [] burst ≡ admitted_by_log fixed "a" [] burst
admitted-eq-by_log_example = admitted-eq-by_log fixed "a" burst burst-IsOrdered

abbrev full : List (String × List ℕ)
full = ("a", 0 ∷ 10 ∷ []) ∷ []

retry_after_suffices_example :
    (check (check full 500 "a" two_a_minute).1 60500 "a" two_a_minute).0.allowed ≡ true
unfolding check recent_hits get retry_after
retry_after_suffices_example =
    retry_after_suffices full 500 60500 "a" two_a_minute 60 refl refl (omega arith) (omega arith)

retry_after_range_example :
    ((oldest : ℕ) × (rest : List ℕ) × (recent_hits full 500 "a" two_a_minute ≡ oldest ∷ rest)
      × (r : ℕ) × ((check full 500 "a" two_a_minute).0.retry_after_sec ≡ some r)
      × IsWait two_a_minute 500 oldest r)
    ⊎ ((recent_hits full 500 "a" two_a_minute ≡ [])
        × (two_a_minute.max ≡ 0)
        × ((check full 500 "a" two_a_minute).0.retry_after_sec ≡ none))
unfolding check recent_hits get retry_after
retry_after_range_example =
    retry_after_range full 500 "a" two_a_minute (omega arith, (omega arith, tt)) (omega arith) refl

denied-check : (check [] 500 "a" (record { window_sec = 60; max = 0 })).0.retry_after_sec ≡ none
unfolding check recent_hits get retry_after
denied-check = refl

wins-le-one_example :
    wins create_in_postgres "p1" [] (create job ∷ mark "p1" ∷ create job ∷ mark "p1" ∷ []) ≤ 1
wins-le-one_example =
    wins-le-one postgres-KeepsMetered "p1" [] (create job ∷ mark "p1" ∷ create job ∷ mark "p1" ∷ [])

in_memory_wins_twice_example :
    wins create_in_memory "p1" [] (create job ∷ mark "p1" ∷ create job ∷ mark "p1" ∷ []) ≡ 2
in_memory_wins_twice_example = in_memory_wins_twice [] job
