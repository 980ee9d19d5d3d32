-- ===== src/DataPlane/RateLimit.antt =====
-- apps/data-plane/src/ratelimit/rate-limiter.ts: the sliding-window limiter in memory.
pub mod Retry
pub mod Window
use metamodels.Common.{
  ℕ, ◌+◌, ◌-◌, ◌*◌, ◌/◌, String, Bool, true, false, Option, none, some, List, [], ◌∷◌, ◌++◌, ltb,
  leb, if◌then◌else◌, or_else, length, filter, head?,
}
use metamodels.JsMap.{JsMap, get, set}

pub record RateLimit : Type 0 where
  pub window_sec : ℕ
  pub max : ℕ

-- `retry_after_sec` is `none` for the NaN that `undefined + n` gives.
pub record RateLimitResult : Type 0 where
  pub allowed : Bool
  pub retry_after_sec : Option ℕ

abbrev pub Hits : Type 0
Hits = JsMap (List ℕ)

abbrev pub window_ms : RateLimit → ℕ
window_ms limit = limit.window_sec * 1000

-- `t > now - windowMs`, with no subtraction below zero.
abbrev pub is_recent : ℕ → ℕ → ℕ → Bool
is_recent now window t = ltb now (t + window)

unfoldable pub recent_hits : Hits → ℕ → String → RateLimit → List ℕ
recent_hits hits now bucket limit =
    filter (is_recent now (window_ms limit)) (or_else (get hits bucket) [])

-- `Math.ceil(ms / 1000)`
abbrev pub ceil_sec : ℕ → ℕ
ceil_sec ms = (ms + 999) / 1000

-- `Math.max(1, …)` over the oldest hit; NaN where there is none.
unfoldable pub retry_after : Option ℕ → ℕ → ℕ → Option ℕ
retry_after none window now = none
retry_after (some oldest) window now =
    let wait = ceil_sec (oldest + window - now) in some (if leb wait 1 then 1 else wait)

unfoldable pub check : Hits → ℕ → String → RateLimit → RateLimitResult × Hits
unfolding recent_hits
check hits now bucket limit =
    let recent = recent_hits hits now bucket limit in
    if ltb (length recent) limit.max
    then (record { allowed = true; retry_after_sec = some 0 }, set hits bucket (recent ++ now ∷ []))
    else (
      record {
        allowed = false;
        retry_after_sec = retry_after (head? recent) (window_ms limit) now;
      },
      set hits bucket recent,
    )
