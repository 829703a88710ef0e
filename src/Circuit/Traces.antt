-- ===== src/Circuit/Traces.antt =====
-- How a breaker trips, refuses, and recovers.
use opentrace.Base.{
  ℕ, zero, suc, ◌+◌, ◌≤◌, ◌<◌, ◌≡◌, refl, List, [], ◌∷◌, arith, All, length, map, replicate, Option,
  none, some, ltb, if◌then◌else◌, le-or-lt, inl, inr, ltb-false, ap, ◌∙◌,
}
use opentrace.Circuit.{
  closed, open_circuit, half_open, CircuitBreaker, CircuitError, circuit_open, allow, ask, failure,
  success, call, run_calls,
}

open-failures :
    (cb : CircuitBreaker) (times : List ℕ)
    → cb.state ≡ open_circuit
    → (run_calls cb (map failure times)).state ≡ open_circuit
unfolding run_calls
open-failures cb [] s = s
open-failures cb (t ∷ ts) s = open-failures (call cb (failure t)) ts (unfold call in ground arith)

module _ (cb : CircuitBreaker) (t : ℕ) (is_closed : cb.state ≡ closed) where
  failure_counts :
      cb.fail_count + 1 < cb.threshold
      → ((call cb (failure t)).state ≡ closed)
        × ((call cb (failure t)).fail_count ≡ cb.fail_count + 1)
        × ((call cb (failure t)).threshold ≡ cb.threshold)
  unfolding call
  failure_counts h = ground arith

  failure_trips : cb.threshold ≤ cb.fail_count + 1 → (call cb (failure t)).state ≡ open_circuit
  unfolding call
  failure_trips h = ground arith

-- From a closed breaker that is below its threshold, failures in a row leave it closed as long as
-- they keep the count below the threshold, and open it otherwise.
pub failures_trip :
    (cb : CircuitBreaker) (times : List ℕ)
    → cb.state ≡ closed
    → cb.fail_count < cb.threshold
    → (run_calls cb (map failure times)).state
      ≡ (if ltb (cb.fail_count + length times) cb.threshold then closed else open_circuit)
unfolding run_calls
failures_trip cb [] s h = ground arith
failures_trip cb (t ∷ ts) s h = elim (le-or-lt cb.threshold (cb.fail_count + 1)) [
  | inl trips ↦
      rw (ltb-false (cb.fail_count + length (t ∷ ts)) cb.threshold (omega arith))
        (open-failures (call cb (failure t)) ts (failure_trips cb t s trips))
  | inr below ↦
      let (still, count, same) = failure_counts cb t s below in
      ground (arith, still, count, same, failures_trip (call cb (failure t)) ts)
]

allow_refuses :
    (cb : CircuitBreaker) (now : ℕ)
    → 0 < cb.reset_timeout
    → cb.state ≡ open_circuit
    → now < cb.last_fail_time + cb.reset_timeout
    → allow cb now ≡ (cb, some circuit_open)
unfolding allow
allow_refuses cb now p s h = ground arith

call_refused :
    (cb : CircuitBreaker) (now : ℕ)
    → 0 < cb.reset_timeout
    → cb.state ≡ open_circuit
    → now < cb.last_fail_time + cb.reset_timeout
    → call cb (ask now) ≡ cb
unfolding call
call_refused cb now p s h =
    ap (λ (p : CircuitBreaker × Option CircuitError). p.0) (allow_refuses cb now p s h)

-- In an open breaker with a positive timeout, every request before the timeout has passed since the
-- last failure is refused, and none of them changes the breaker.
pub open_refuses :
    (cb : CircuitBreaker) (times : List ℕ)
    → 0 < cb.reset_timeout
    → cb.state ≡ open_circuit
    → All (λ now. now < cb.last_fail_time + cb.reset_timeout) times
    → (run_calls cb (map ask times) ≡ cb) × All (λ now. (allow cb now).1 ≡ some circuit_open) times
unfolding run_calls
open_refuses cb [] p s h = (refl, tt)
open_refuses cb (t ∷ ts) p s h =
    let (same, refused) = open_refuses cb ts p s h.1 in
    (
      ap (λ (b : CircuitBreaker). run_calls b (map ask ts)) (call_refused cb t p s h.0) ∙ same,
      (
        ap (λ (p : CircuitBreaker × Option CircuitError). p.1) (allow_refuses cb t p s h.0),
        refused,
      ),
    )

successes_counted :
    (n : ℕ) (cb : CircuitBreaker)
    → cb.state ≡ half_open
    → cb.success_count + n < cb.half_open_max
    → (run_calls cb (replicate n success)).state ≡ half_open
unfolding run_calls
successes_counted zero cb s h = s
successes_counted (suc n) cb s h =
    successes_counted n (call cb success) (unfold call in ground arith)
      (unfold call in ground arith)

-- The breaker is closed, and its counts start again.
abbrev pub IsCleared : CircuitBreaker → Type 0
IsCleared cb = (cb.state ≡ closed) × (cb.fail_count ≡ 0) × (cb.success_count ≡ 0)

successes_close :
    (n : ℕ) (cb : CircuitBreaker)
    → cb.state ≡ half_open
    → cb.success_count + suc n ≡ cb.half_open_max
    → IsCleared (run_calls cb (replicate (suc n) success))
unfolding run_calls
successes_close zero cb s h = unfold call in ground arith
successes_close (suc n) cb s h =
    successes_close n (call cb success) (unfold call in ground arith) (unfold call in ground arith)

-- In an open breaker, once the timeout has passed since the last failure, Allow lets the next
-- request through, without an error, to a half-open breaker; fewer than half_open_max successes
-- leave it half-open, and that many close it with its counts cleared.
pub recovers :
    (cb : CircuitBreaker) (now n : ℕ)
    → cb.state ≡ open_circuit
    → cb.last_fail_time + cb.reset_timeout ≤ now
    → n < cb.half_open_max
    → ((allow cb now).1 ≡ none)
      × ((run_calls cb (ask now ∷ replicate n success)).state ≡ half_open)
      × IsCleared (run_calls cb (ask now ∷ replicate cb.half_open_max success))
recovers cb now n s late h = (
  through,
  unfold run_calls in
      successes_counted n (call cb (ask now)) probes.0 (omega (arith, probes.1, probes.2)),
  unfold run_calls in closes cb.half_open_max refl (omega arith),
)
  where
    through : (allow cb now).1 ≡ none
    through = unfold allow in ground arith

    probes :
        ((call cb (ask now)).state ≡ half_open)
        × ((call cb (ask now)).success_count ≡ 0)
        × ((call cb (ask now)).half_open_max ≡ cb.half_open_max)
    probes = unfold call in ground arith

    closes :
        (m : ℕ)
        → m ≡ cb.half_open_max
        → 0 < m
        → IsCleared (run_calls (call cb (ask now)) (replicate m success))
    closes zero e p = absurd (omega arith)
    closes (suc m) e p =
        successes_close m (call cb (ask now)) probes.0 (omega (arith, probes.1, probes.2))
