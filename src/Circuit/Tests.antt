-- ===== src/Circuit/Tests.antt =====
-- A circuit breaker of internal/connector/circuit_breaker.go on concrete calls.
use opentrace.Base.{
  ℕ, ◌+◌, ◌≡◌, refl, List, [], ◌∷◌, arith, length, map, replicate, ltb, if◌then◌else◌, none,
}
use opentrace.Circuit.{
  CircuitBreaker, CircuitBreakerConfig, closed, open_circuit, half_open,
  default_circuit_breaker_config, new_circuit_breaker, ask, failure, success, clear, Call,
  run_calls, allow,
}
use opentrace.Circuit.Invariant.{IsConsistent, run_calls_new-IsConsistent}
use opentrace.Circuit.Traces.{failures_trip, recovers, IsCleared}

abbrev fresh : CircuitBreaker
fresh = record {
  state = closed;
  fail_count = 0;
  success_count = 0;
  last_fail_time = 0;
  threshold = 5;
  reset_timeout = 30;
  half_open_max = 2;
}

abbrev tripped : CircuitBreaker
tripped = record fresh { state = open_circuit; fail_count = 5; last_fail_time = 100 }

abbrev three_failures : List ℕ
three_failures = 10 ∷ 20 ∷ 30 ∷ []

abbrev mixed_calls : List Call
mixed_calls = failure 1 ∷ ask 2 ∷ success ∷ failure 3 ∷ clear ∷ []

abbrev zero_config : CircuitBreakerConfig
zero_config = record { threshold = 0; reset_timeout = 0; half_open_max = 0 }

zero_config_default :
    new_circuit_breaker zero_config ≡ new_circuit_breaker default_circuit_breaker_config
unfolding new_circuit_breaker default_circuit_breaker_config
zero_config_default = refl

run_calls_new-IsConsistent_example :
    IsConsistent (run_calls (new_circuit_breaker zero_config) mixed_calls)
run_calls_new-IsConsistent_example = run_calls_new-IsConsistent zero_config mixed_calls

failures_trip_example :
    (run_calls fresh (map failure three_failures)).state
    ≡ (if ltb (0 + length three_failures) 5 then closed else open_circuit)
failures_trip_example = failures_trip fresh three_failures refl (omega arith)

recovers_example :
    ((allow tripped 130).1 ≡ none)
    × ((run_calls tripped (ask 130 ∷ replicate 1 success)).state ≡ half_open)
    × IsCleared (run_calls tripped (ask 130 ∷ replicate 2 success))
recovers_example = recovers tripped 130 1 refl (omega arith) (omega arith)
