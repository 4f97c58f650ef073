-- ===== src/Reliability/Consistency.antt =====
-- The states of the circuit breaker of reliability.py against its failure count.
use fxfill_enterprise_bankin.Common.{
  ℕ, ◌+◌, ◌≤◌, ◌<◌, ◌≡◌, Bool, true, false, List, [], ◌∷◌, ltb, arith,
}
use fxfill_enterprise_bankin.Reliability.{
  CircuitState, closed, CircuitBreaker, record_success, record_failure, allow_request, Event,
  success, failure, request, step, run,
}

abbrev pub is_closed : CircuitState → Bool
is_closed closed = true
is_closed _ = false

-- The breaker is closed exactly while it counts fewer failures than its threshold.
pub record IsConsistent (b : CircuitBreaker) : Type 0 where
  pub threshold : 0 < b.failure_threshold
  pub by_count : is_closed b.state ≡ ltb b.failure_count b.failure_threshold

step-IsConsistent : (e : Event) (b : CircuitBreaker) → IsConsistent b → IsConsistent (step e b)
unfolding record_success record_failure allow_request
step-IsConsistent success b h = record {
  threshold = ground (arith, h.threshold);
  by_count = ground (arith, h.threshold, h.by_count);
}
step-IsConsistent (failure now) b h = record {
  threshold = ground (arith, h.threshold);
  by_count = ground (arith, h.threshold, h.by_count);
}
step-IsConsistent (request now) b h = record {
  threshold = ground (arith, h.threshold);
  by_count = ground (arith, h.threshold, h.by_count);
}

-- A breaker with a positive threshold that is closed exactly while it counts fewer failures than the
-- threshold stays so over any sequence of successes, failures and requests.
pub run-IsConsistent :
    (es : List Event) (b : CircuitBreaker) → IsConsistent b → IsConsistent (run es b)
unfolding run
run-IsConsistent [] b h = h
run-IsConsistent (e ∷ es) b h = run-IsConsistent es (step e b) (step-IsConsistent e b h)

-- Whatever happened to a consistent breaker, one failure while it is not closed, a failed probe
-- included, opens it, and it then refuses every request up to its recovery timeout after that
-- failure.
pub failed_probe_reopens :
    (es : List Event) (b : CircuitBreaker) (now later : ℕ)
    → IsConsistent b
    → is_closed (run es b).state ≡ false
    → later ≤ now + (run es b).recovery_timeout
    → (allow_request later (record_failure now (run es b))).0 ≡ false
unfolding allow_request record_failure
failed_probe_reopens es b now later h s l =
    let c = run-IsConsistent es b h in ground (arith, c.by_count)
