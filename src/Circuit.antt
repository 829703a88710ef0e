-- ===== src/Circuit.antt =====
-- internal/connector/circuit_breaker.go. Each method locks the mutex for its whole body, so calls
-- are steps that do not overlap. The clock is an argument, in nanoseconds, and time.Since of a later
-- time is 0 here, which no branch tells from a negative duration. The name is only logged.
pub mod Invariant
pub mod Traces
mod Tests
use opentrace.Base.{
  ℕ, ◌+◌, ◌-◌, ◌*◌, List, [], ◌∷◌, Bool, true, false, ◌&&◌, leb, ltb, ◌==◌, if◌then◌else◌, Option,
  none, some,
}

pub data CircuitState : Type 0 where
  closed open_circuit half_open : CircuitState

pub record CircuitBreaker : Type 0 where
  pub state : CircuitState
  pub fail_count : ℕ
  pub success_count : ℕ
  pub last_fail_time : ℕ
  pub threshold : ℕ
  pub reset_timeout : ℕ
  pub half_open_max : ℕ

pub record CircuitBreakerConfig : Type 0 where
  pub threshold : ℕ
  pub reset_timeout : ℕ
  pub half_open_max : ℕ

abbrev pub second : ℕ
second = 1_000_000_000

unfoldable pub default_circuit_breaker_config : CircuitBreakerConfig
default_circuit_breaker_config = record {
  threshold = 5;
  reset_timeout = 30 * second;
  half_open_max = 2;
}

-- A setting that is not positive is replaced; 0 stands for those below it too.
abbrev or_default : ℕ → ℕ → ℕ
or_default v d = if v == 0 then d else v

unfoldable pub new_circuit_breaker : CircuitBreakerConfig → CircuitBreaker
new_circuit_breaker cfg = record {
  state = closed;
  fail_count = 0;
  success_count = 0;
  last_fail_time = 0;
  threshold = or_default cfg.threshold 5;
  reset_timeout = or_default cfg.reset_timeout (30 * second);
  half_open_max = or_default cfg.half_open_max 2;
}

-- `time.Since(cb.lastFailTime) >= cb.resetTimeout`
abbrev pub timeout_over : CircuitBreaker → ℕ → Bool
timeout_over cb now = leb cb.reset_timeout (now - cb.last_fail_time)

abbrev state_in : CircuitState → CircuitBreaker → ℕ → CircuitState
state_in open_circuit cb now = if timeout_over cb now then half_open else open_circuit
state_in s cb now = s

-- State
unfoldable pub circuit_state : CircuitBreaker → ℕ → CircuitState
circuit_state cb now = state_in cb.state cb now

pub data CircuitError : Type 0 where
  circuit_open : CircuitError

abbrev allow_in : CircuitState → CircuitBreaker → ℕ → CircuitBreaker × Option CircuitError
allow_in closed cb now = (cb, none)
allow_in open_circuit cb now =
    if timeout_over cb now
    then (record cb { state = half_open; success_count = 0 }, none)
    else (cb, some circuit_open)
allow_in half_open cb now = (cb, none)

unfoldable pub allow : CircuitBreaker → ℕ → CircuitBreaker × Option CircuitError
allow cb now = allow_in cb.state cb now

abbrev record_success_in : CircuitState → CircuitBreaker → CircuitBreaker
record_success_in half_open cb =
    let counted = record cb { success_count = cb.success_count + 1 } in
    if leb cb.half_open_max counted.success_count
    then record counted { state = closed; fail_count = 0; success_count = 0 }
    else counted
record_success_in closed cb = record cb { fail_count = 0 }
record_success_in open_circuit cb = cb

unfoldable pub record_success : CircuitBreaker → CircuitBreaker
record_success cb = record_success_in cb.state cb

abbrev record_failure_in : CircuitState → CircuitBreaker → CircuitBreaker
record_failure_in closed cb =
    let counted = record cb { fail_count = cb.fail_count + 1 } in
    if leb cb.threshold counted.fail_count then record counted { state = open_circuit } else counted
record_failure_in half_open cb = record cb { state = open_circuit; success_count = 0 }
record_failure_in open_circuit cb = cb

-- The time of the failure is recorded in every state.
unfoldable pub record_failure : CircuitBreaker → ℕ → CircuitBreaker
record_failure cb now = record_failure_in cb.state (record cb { last_fail_time = now })

unfoldable pub reset : CircuitBreaker → CircuitBreaker
reset cb = record cb { state = closed; fail_count = 0; success_count = 0 }

-- A call of a method, with the time at which it reads the clock.
pub data Call : Type 0 where
  ask failure : ℕ → Call
  success clear : Call

unfoldable pub call : CircuitBreaker → Call → CircuitBreaker
unfolding allow record_success record_failure reset
call cb (ask now) = (allow cb now).0
call cb (failure now) = record_failure cb now
call cb success = record_success cb
call cb clear = reset cb

unfoldable pub run_calls : CircuitBreaker → List Call → CircuitBreaker
run_calls cb [] = cb
run_calls cb (c ∷ cs) = run_calls (call cb c) cs
