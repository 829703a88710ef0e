-- ===== src/Retry.antt =====
-- internal/retry/retry.go. The function that is retried and the wait between two attempts are
-- parameters: each goes from a state of the world to the next one, the function with its error, and
-- the wait, which is given the delay, with the context's error if that is done first. A delay is a
-- number of nanoseconds, so the product with the power of two is exact.
pub mod Attempts
mod Tests
use opentrace.Base.{
  ℕ, zero, suc, ◌+◌, ◌*◌, ◌^◌, Bool, true, false, ltb, ◌==◌, if◌then◌else◌, Option, none, some,
}

-- An error, with the chain that errors.As walks.
pub data Error (A : Type 0) : Type 0 where
  plain : A → Error A
  wrapped : A → Error A → Error A
  permanent_error : Error A → Error A

pub record Config : Type 0 where
  pub max_attempts : ℕ
  pub base_delay : ℕ
  pub max_delay : ℕ

abbrev pub one_second : ℕ
one_second = 1_000_000_000

unfoldable pub default_config : Config
default_config = record { max_attempts = 3; base_delay = one_second; max_delay = 10 * one_second }

-- A setting that is not positive is replaced; 0 stands for those below it too.
unfoldable pub with_defaults : Config → Config
with_defaults cfg = record {
  max_attempts = if cfg.max_attempts == 0 then 3 else cfg.max_attempts;
  base_delay = if cfg.base_delay == 0 then one_second else cfg.base_delay;
  max_delay = if cfg.max_delay == 0 then 10 * one_second else cfg.max_delay;
}

unfoldable pub permanent : {A : Type 0} → Error A → Error A
permanent e = permanent_error e

-- `errors.As(lastErr, &pe)`, with `pe.Err`.
unfoldable pub as_permanent : {A : Type 0} → Error A → Option (Error A)
as_permanent (plain a) = none
as_permanent (wrapped a e) = as_permanent e
as_permanent (permanent_error e) = some e

unfoldable pub backoff : Config → ℕ → ℕ
backoff cfg attempt =
    let delay = cfg.base_delay * 2 ^ attempt in
    if ltb cfg.max_delay delay then cfg.max_delay else delay

module _ {A S : Type 0} (fn : S → S × Option (Error A)) (wait : S → ℕ → S × Option (Error A)) where
  -- After a failed attempt: a permanent error ends the loop, and so does the last attempt.
  abbrev pub after_failure :
      Option (Error A) → Bool → (S → S × Option (Error A)) → S → ℕ → Error A → S × Option (Error A)
  after_failure (some inner) last more s delay e = (s, some inner)
  after_failure none true more s delay e = (s, some e)
  after_failure none false more s delay e =
      let (s', cancelled) = wait s delay in
      elim cancelled [ some c ↦ (s', some c) | none ↦ more s' ]

  abbrev pub after_attempt :
      Bool → (S → S × Option (Error A)) → ℕ → S × Option (Error A) → S × Option (Error A)
  after_attempt last more delay (s, none) = (s, none)
  after_attempt last more delay (s, some e) = after_failure (as_permanent e) last more s delay e

  -- The loop of Do, over the attempts that are left.
  unfoldable pub attempt_loop : Config → ℕ → ℕ → S → S × Option (Error A)
  attempt_loop cfg zero attempt s = (s, none)
  attempt_loop cfg (suc left) attempt s =
      after_attempt (left == 0) (λ t. attempt_loop cfg left (attempt + 1) t) (backoff cfg attempt)
        (fn s)

  unfoldable pub do_retry : Config → S → S × Option (Error A)
  unfolding attempt_loop with_defaults
  do_retry cfg s =
      let settings = with_defaults cfg in attempt_loop settings settings.max_attempts 0 s
