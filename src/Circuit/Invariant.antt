-- ===== src/Circuit/Invariant.antt =====
-- What holds of a circuit breaker between any two calls.
use opentrace.Base.{ℕ, ◌<◌, ◌≡◌, ◌≢◌, ◌↔◌, List, [], ◌∷◌, arith, some}
use opentrace.Circuit.{
  closed, open_circuit, half_open, CircuitBreaker, CircuitBreakerConfig, new_circuit_breaker,
  circuit_state, circuit_open, allow, Call, call, run_calls,
}

pub record IsConsistent (cb : CircuitBreaker) : Type 0 where
  pub threshold_pos : 0 < cb.threshold
  pub timeout_pos : 0 < cb.reset_timeout
  pub half_open_pos : 0 < cb.half_open_max
  pub closed_below : cb.state ≡ closed → cb.fail_count < cb.threshold
  pub tripped : cb.state ≢ closed → cb.fail_count ≡ cb.threshold
  pub half_open_below : cb.state ≡ half_open → cb.success_count < cb.half_open_max
  pub only_half_open_counts : cb.state ≢ half_open → cb.success_count ≡ 0

-- A new breaker is consistent, whatever the configuration.
pub new_circuit_breaker-IsConsistent :
    (cfg : CircuitBreakerConfig) → IsConsistent (new_circuit_breaker cfg)
unfolding new_circuit_breaker
new_circuit_breaker-IsConsistent cfg = ground arith

call-IsConsistent : (cb : CircuitBreaker) (c : Call) → IsConsistent cb → IsConsistent (call cb c)
unfolding call
call-IsConsistent cb c h = ground arith

run_calls-IsConsistent :
    (cb : CircuitBreaker) (cs : List Call) → IsConsistent cb → IsConsistent (run_calls cb cs)
unfolding run_calls
run_calls-IsConsistent cb [] h = h
run_calls-IsConsistent cb (c ∷ cs) h =
    run_calls-IsConsistent (call cb c) cs (call-IsConsistent cb c h)

-- After any sequence of calls on a new breaker of any configuration, the settings are positive, a
-- closed breaker has counted fewer failures than its threshold, any other exactly the threshold, a
-- half-open one fewer successes than close it, and no other counts successes.
pub run_calls_new-IsConsistent :
    (cfg : CircuitBreakerConfig) (cs : List Call)
    → IsConsistent (run_calls (new_circuit_breaker cfg) cs)
run_calls_new-IsConsistent cfg cs =
    run_calls-IsConsistent (new_circuit_breaker cfg) cs (new_circuit_breaker-IsConsistent cfg)

-- Allow refuses exactly when State reports an open circuit at that time, and then changes nothing;
-- a request that it lets through finds the breaker in the state that State reported.
pub allow-circuit_state :
    (cb : CircuitBreaker) (now : ℕ)
    → (((allow cb now).1 ≡ some circuit_open) ↔ (circuit_state cb now ≡ open_circuit))
      × ((allow cb now).0.state ≡ circuit_state cb now)
      × ((allow cb now).1 ≡ some circuit_open → (allow cb now).0 ≡ cb)
unfolding allow circuit_state
allow-circuit_state cb now = ground arith
