-- ===== src/Retry/Attempts.antt =====
-- How often Do of internal/retry/retry.go calls its function, and how long it waits.
use opentrace.Base.{
  ℕ, zero, suc, ◌+◌, ◌*◌, ◌^◌, ◌≤◌, ◌<◌, ◌≡◌, arith, Bool, true, false, ◌==◌, Option, none, some,
}
use opentrace.Retry.{
  Error, Config, with_defaults, as_permanent, backoff, after_failure, after_attempt, attempt_loop,
  do_retry,
}

-- A count of the calls of the function, which waiting leaves alone.
pub record Counts {A S : Type 0} (fn : S → S × Option (Error A))
    (wait : S → ℕ → S × Option (Error A)) (calls : S → ℕ) : Type 0 where
  pub on_call : (s : S) → calls (fn s).0 ≡ calls s + 1
  pub on_wait : (s : S) (d : ℕ) → calls (wait s d).0 ≡ calls s

module _ {A S : Type 0} (fn : S → S × Option (Error A)) (wait : S → ℕ → S × Option (Error A))
    (calls : S → ℕ) (counts : Counts fn wait calls) where
  failure-bounds :
      (inner : Option (Error A)) (last : Bool) (more : S → S × Option (Error A)) (s : S) (delay : ℕ)
      (e : Error A) (n : ℕ)
      → ((t : S) → calls (more t).0 ≤ calls t + n)
      → ((t : S) → calls t ≤ calls (more t).0)
      → (calls s ≤ calls (after_failure fn wait inner last more s delay e).0)
        × (calls (after_failure fn wait inner last more s delay e).0 ≤ calls s + n)
  failure-bounds (some x) last more s delay e n hi lo = (omega arith, omega arith)
  failure-bounds none true more s delay e n hi lo = (omega arith, omega arith)
  failure-bounds none false more s delay e n hi lo = waited (wait s delay).1
    where
      t : S
      t = (wait s delay).0

      waited :
          (c : Option (Error A))
          → let r : S × Option (Error A) = elim c [ some x ↦ (t, some x) | none ↦ more t ] in
            (calls s ≤ calls r.0) × (calls r.0 ≤ calls s + n)
      waited (some x) =
          (omega (arith, counts.on_wait s delay), omega (arith, counts.on_wait s delay))
      waited none =
          (omega (arith, counts.on_wait s delay, lo t), omega (arith, counts.on_wait s delay, hi t))

  attempt-bounds :
      (r : S × Option (Error A)) (last : Bool) (more : S → S × Option (Error A)) (delay n : ℕ)
      → ((t : S) → calls (more t).0 ≤ calls t + n)
      → ((t : S) → calls t ≤ calls (more t).0)
      → (calls r.0 ≤ calls (after_attempt fn wait last more delay r).0)
        × (calls (after_attempt fn wait last more delay r).0 ≤ calls r.0 + n)
  attempt-bounds (s, none) last more delay n hi lo = (omega arith, omega arith)
  attempt-bounds (s, some e) last more delay n hi lo =
      failure-bounds (as_permanent e) last more s delay e n hi lo

  loop-bounds :
      (left : ℕ) (cfg : Config) (attempt : ℕ) (s : S)
      → (calls s ≤ calls (attempt_loop fn wait cfg left attempt s).0)
        × (calls (attempt_loop fn wait cfg left attempt s).0 ≤ calls s + left)
  unfolding attempt_loop
  loop-bounds zero cfg attempt s = (omega arith, omega arith)
  loop-bounds (suc left) cfg attempt s =
      let one =
        attempt-bounds (fn s) (left == 0) (λ t. attempt_loop fn wait cfg left (attempt + 1) t)
          (backoff cfg attempt) left (λ t. (loop-bounds left cfg (attempt + 1) t).1)
          (λ t. (loop-bounds left cfg (attempt + 1) t).0) in
      (omega (arith, one.0, counts.on_call s), omega (arith, one.1, counts.on_call s))

  first-call :
      (left : ℕ) (cfg : Config) (s : S)
      → 0 < left
      → calls s + 1 ≤ calls (attempt_loop fn wait cfg left 0 s).0
  unfolding attempt_loop
  first-call zero cfg s h = absurd (omega arith)
  first-call (suc left) cfg s h =
      let one =
        attempt-bounds (fn s) (left == 0) (λ t. attempt_loop fn wait cfg left 1 t) (backoff cfg 0)
          left (λ t. (loop-bounds left cfg 1 t).1) (λ t. (loop-bounds left cfg 1 t).0) in
      omega (arith, one.0, counts.on_call s)

  -- Whatever the configuration, Do calls its function at least once and at most as often as the
  -- number of attempts in force, where a count of the calls grows by one with each call and waiting
  -- leaves it alone.
  pub do_retry-bounds :
      (cfg : Config) (s : S)
      → (calls s + 1 ≤ calls (do_retry fn wait cfg s).0)
        × (calls (do_retry fn wait cfg s).0 ≤ calls s + (with_defaults cfg).max_attempts)
  unfolding do_retry
  do_retry-bounds cfg s = (
    first-call (with_defaults cfg).max_attempts (with_defaults cfg) s
        (unfold with_defaults in ground arith),
    (loop-bounds (with_defaults cfg).max_attempts (with_defaults cfg) 0 s).1,
  )

-- The delay after an attempt is at most the largest delay, and is the base delay doubled for each
-- attempt before it wherever that is no larger.
pub backoff-bounds :
    (cfg : Config) (attempt : ℕ)
    → (backoff cfg attempt ≤ cfg.max_delay)
      × (cfg.base_delay * 2 ^ attempt ≤ cfg.max_delay
          → backoff cfg attempt ≡ cfg.base_delay * 2 ^ attempt)
unfolding backoff
backoff-bounds cfg attempt = ground arith
