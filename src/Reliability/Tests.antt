-- ===== src/Reliability/Tests.antt =====
-- Runs of the circuit breaker of reliability.py.
use fxfill_enterprise_bankin.Common.{◌+◌, ◌≤◌, ◌≡◌, refl, false, List, [], ◌∷◌, arith}
use fxfill_enterprise_bankin.Reliability.{
  CircuitBreaker, CircuitState, Event, failure, request, run, record_failure, allow_request,
}
use fxfill_enterprise_bankin.Reliability.Consistency.{IsConsistent, is_closed, run-IsConsistent}

abbrev breaker : CircuitBreaker
breaker = record {
  name = "mcp";
  failure_threshold = 2;
  recovery_timeout = 30;
  state = CircuitState.closed;
  failure_count = 0;
  last_failure_time = 0;
}

breaker-IsConsistent : IsConsistent breaker
breaker-IsConsistent = record { threshold = ground arith; by_count = refl }

-- Two failures, and a probe after the timeout.
abbrev events : List Event
events = failure 1 ∷ failure 2 ∷ request 40 ∷ []

half_open_now : is_closed (run events breaker).state ≡ false
unfolding run record_failure allow_request
half_open_now = ground arith

run-IsConsistent_example : IsConsistent (run events breaker)
run-IsConsistent_example = run-IsConsistent events breaker breaker-IsConsistent

in_window : 60 ≤ 41 + (run events breaker).recovery_timeout
unfolding run record_failure allow_request
in_window = ground arith
