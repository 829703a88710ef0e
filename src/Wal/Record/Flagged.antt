-- ===== src/Wal/Record/Flagged.antt =====
-- The flag word of a record agrees with the fields of its entry.
use opentrace.Base.{ℕ, ◌^◌, ◌≡◌, refl, arith, IsWord, Bool, true, false, not, ◌&&◌}
use opentrace.Encoding.Zstd.{Zstd}
use opentrace.Wal.Entry.{Entry}
use opentrace.Wal.Flags.{
  has, has-set_flags, set_flags-IsWord, flag_extended_strings, flag_raw_body, flag_body, any_flag,
}
use opentrace.Wal.Field.{is_present}
use opentrace.Wal.Group.{context_flags, http_flags, perf_flags, failure_flags, job_flags}
use opentrace.Wal.Group.RoundTrip.{Agrees}
use opentrace.Wal.Record.{keeps_body, entry_flag_list, entry_flags}

module _ (z : Zstd) (compress_bodies : Bool) (e : Entry) where
  unfoldable pub flag_word : ℕ
  flag_word = entry_flags z compress_bodies e

  has-flag_word :
      (k : ℕ)
      → has (2 ^ flag_extended_strings) k ≡ false
      → has flag_word k ≡ any_flag k (entry_flag_list z compress_bodies e)
  unfolding flag_word entry_flags
  has-flag_word k h =
      rw (has-set_flags (2 ^ flag_extended_strings) k (entry_flag_list z compress_bodies e), h)

  pub has-extended : has flag_word flag_extended_strings ≡ true
  unfolding flag_word entry_flags has
  has-extended =
      rw (has-set_flags (2 ^ flag_extended_strings) 63 (entry_flag_list z compress_bodies e))

  pub context-Agrees : Agrees flag_word (context_flags e.context)
  unfolding has
  context-Agrees = (
    has-flag_word 0 refl,
    (
      has-flag_word 1 refl,
      (
        has-flag_word 2 refl,
        (
          has-flag_word 3 refl,
          (
            has-flag_word 4 refl,
            (
              has-flag_word 5 refl,
              (
                has-flag_word 6 refl,
                (
                  has-flag_word 7 refl,
                  (
                    has-flag_word 8 refl,
                    (has-flag_word 9 refl, (has-flag_word 10 refl, (has-flag_word 11 refl, tt))),
                  ),
                ),
              ),
            ),
          ),
        ),
      ),
    ),
  )

  pub http-Agrees : Agrees flag_word (http_flags e.http)
  unfolding has
  http-Agrees = (
    has-flag_word 12 refl,
    (
      has-flag_word 13 refl,
      (
        has-flag_word 14 refl,
        (has-flag_word 15 refl, (has-flag_word 16 refl, (has-flag_word 17 refl, tt))),
      ),
    ),
  )

  pub perf-Agrees : Agrees flag_word (perf_flags e.perf)
  unfolding has
  perf-Agrees = (
    has-flag_word 18 refl,
    (
      has-flag_word 19 refl,
      (
        has-flag_word 20 refl,
        (
          has-flag_word 21 refl,
          (
            has-flag_word 22 refl,
            (
              has-flag_word 23 refl,
              (
                has-flag_word 24 refl,
                (
                  has-flag_word 25 refl,
                  (
                    has-flag_word 26 refl,
                    (
                      has-flag_word 27 refl,
                      (has-flag_word 28 refl, (has-flag_word 29 refl, (has-flag_word 30 refl, tt))),
                    ),
                  ),
                ),
              ),
            ),
          ),
        ),
      ),
    ),
  )

  pub failure-Agrees : Agrees flag_word (failure_flags e.failure)
  unfolding has
  failure-Agrees = (
    has-flag_word 31 refl,
    (
      has-flag_word 32 refl,
      (has-flag_word 33 refl, (has-flag_word 34 refl, (has-flag_word 35 refl, tt))),
    ),
  )

  pub job-Agrees : Agrees flag_word (job_flags e.job)
  unfolding has
  job-Agrees = (
    has-flag_word 36 refl,
    (has-flag_word 37 refl, (has-flag_word 38 refl, (has-flag_word 39 refl, tt))),
  )

  pub has-body : has flag_word flag_body ≡ keeps_body z compress_bodies e.body
  unfolding has
  has-body = has-flag_word 40 refl

  pub has-raw : has flag_word flag_raw_body ≡ (is_present e.body && not compress_bodies)
  unfolding has
  has-raw = has-flag_word 62 refl

  pub flag_word-IsWord : IsWord 64 flag_word
  unfolding flag_word entry_flags
  flag_word-IsWord =
      set_flags-IsWord 64 (2 ^ 63) (entry_flag_list z compress_bodies e) (omega arith) (omega arith)
