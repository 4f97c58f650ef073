-- ===== src/Reliability.antt =====
-- reliability.py: the circuit breaker (`opened` is OPEN). Readings of the monotonic clock are
-- numbers.
pub mod Consistency
mod Tests
use fxfill_enterprise_bankin.Common.{
  ℕ, String, ◌+◌, ◌≤◌, ◌<◌, ◌≡◌, ◌≢◌, ◌↔◌, refl, Bool, true, false, List, [], ◌∷◌, ltb, leb,
  if◌then◌else◌, arith,
}

pub data CircuitState : Type 0 where
  closed opened half_open : CircuitState

pub record CircuitBreaker : Type 0 where
  pub name : String
  pub failure_threshold : ℕ
  pub recovery_timeout : ℕ
  pub state : CircuitState
  pub failure_count : ℕ
  pub last_failure_time : ℕ

unfoldable pub record_success : CircuitBreaker → CircuitBreaker
record_success b = elim b.state [
  | half_open ↦ record b { state = closed; failure_count = 0 }
  | closed ↦ record b { failure_count = 0 }
  | opened ↦ b
]

unfoldable pub record_failure : ℕ → CircuitBreaker → CircuitBreaker
record_failure now b =
    let b' = record b { failure_count = b.failure_count + 1; last_failure_time = now } in
    if leb b.failure_threshold (b.failure_count + 1) then record b' { state = opened } else b'

unfoldable pub allow_request : ℕ → CircuitBreaker → Bool × CircuitBreaker
allow_request now b = elim b.state [
  | closed ↦ (true, b)
  | opened ↦
      if ltb (b.last_failure_time + b.recovery_timeout) now
      then (true, record b { state = half_open })
      else (false, b)
  | half_open ↦ (true, b)
]

pub data Event : Type 0 where
  success : Event
  failure request : ℕ → Event

abbrev pub step : Event → CircuitBreaker → CircuitBreaker
step success b = record_success b
step (failure now) b = record_failure now b
step (request now) b = (allow_request now b).1

unfoldable pub run : List Event → CircuitBreaker → CircuitBreaker
run [] b = b
run (e ∷ es) b = run es (step e b)
