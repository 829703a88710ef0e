-- ===== src/Retry/Tests.antt =====
-- Do of internal/retry/retry.go on a function that fails a few times.
use opentrace.Base.{ℕ, ◌+◌, ◌≤◌, ◌≡◌, refl, ltb, if◌then◌else◌, Option, none, some}
use opentrace.Retry.{Error, plain, Config, default_config, with_defaults, do_retry, as_permanent}
use opentrace.Retry.Attempts.{Counts, do_retry-bounds}

-- The state counts the calls; the first two fail.
abbrev third_time : ℕ → ℕ × Option (Error ℕ)
third_time n = (n + 1, if ltb n 2 then some (plain n) else none)

abbrev never_cancelled : ℕ → ℕ → ℕ × Option (Error ℕ)
never_cancelled n d = (n, none)

third_time_succeeds : do_retry third_time never_cancelled default_config 0 ≡ (3, none)
unfolding do_retry default_config as_permanent
third_time_succeeds = refl

abbrev calls_made : ℕ → ℕ
calls_made n = n

third_time-Counts : Counts third_time never_cancelled calls_made
third_time-Counts = record { on_call = λ s. refl; on_wait = λ s d. refl }

do_retry-bounds_example :
    (0 + 1 ≤ (do_retry third_time never_cancelled default_config 0).0)
    × ((do_retry third_time never_cancelled default_config 0).0
        ≤ 0 + (with_defaults default_config).max_attempts)
do_retry-bounds_example =
    do_retry-bounds third_time never_cancelled calls_made third_time-Counts default_config 0

abbrev short : Config
short = record { max_attempts = 5; base_delay = 100; max_delay = 1000 }
