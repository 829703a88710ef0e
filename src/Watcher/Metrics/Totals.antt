-- ===== src/Watcher/Metrics/Totals.antt =====
-- The three metrics that count levels agree (watch_metrics.go).
use opentrace.Base.{
  ℕ, ◌+◌, ◌≡◌, ◌⊎◌, inl, inr, refl, arith, List, [], ◌∷◌, Bytes, codes, bytes_eq, bytes_eq-eq,
  bytes_eq_refl, Bool, true, false, ◌==◌, ◌||◌, Bool-cases, ok, if◌then◌else◌,
}
use opentrace.Watcher.Store.{Floats, Clock, LogStore}
use opentrace.Watcher.Metrics.{
  is_error_level, total_count, error_total, rate_totals, measure_error_rate, measure_log_count,
  measure_error_count, measure_range,
}

-- The counts of the levels that are error or fatal but for case add up to a number, and those of all
-- levels to another.
pub data Totals (to_lower : Bytes → Bytes) : List (Bytes × ℕ) → ℕ → ℕ → Type 0 where
  none_left : Totals to_lower [] 0 0
  counted :
      {level : Bytes} {counts : List (Bytes × ℕ)} {count errors total : ℕ}
      → (to_lower level ≡ codes "error") ⊎ (to_lower level ≡ codes "fatal")
      → Totals to_lower counts errors total
      → Totals to_lower ((level, count) ∷ counts) (count + errors) (count + total)
  passed :
      {level : Bytes} {counts : List (Bytes × ℕ)} {count errors total : ℕ}
      → ¬ (to_lower level ≡ codes "error")
      → ¬ (to_lower level ≡ codes "fatal")
      → Totals to_lower counts errors total
      → Totals to_lower ((level, count) ∷ counts) errors (count + total)

same_bytes : (s t : Bytes) → bytes_eq s t ≡ false → ¬ (s ≡ t)
same_bytes s t h e = absurd (let same : bytes_eq s t ≡ true = rw e (bytes_eq_refl t) in cc)

one_of : (a b : Bool) → (a || b) ≡ true → (a ≡ true) ⊎ (b ≡ true)
one_of true b h = inl refl
one_of false b h = inr h

none_of : (a b : Bool) → (a || b) ≡ false → (a ≡ false) × (b ≡ false)
none_of a b h = (ground arith, ground arith)

module _ (to_lower : Bytes → Bytes) where
  is_error_level-errors :
      (level : Bytes)
      → is_error_level to_lower level ≡ true
      → (to_lower level ≡ codes "error") ⊎ (to_lower level ≡ codes "fatal")
  is_error_level-errors level h =
      elim (one_of (bytes_eq (to_lower level) (codes "error"))
        (bytes_eq (to_lower level) (codes "fatal")) h) [
          | inl e ↦ inl (bytes_eq-eq (to_lower level) (codes "error") e)
          | inr e ↦ inr (bytes_eq-eq (to_lower level) (codes "fatal") e)
        ]

  loops-Totals :
      (counts : List (Bytes × ℕ))
      → Totals to_lower counts (error_total to_lower counts) (total_count counts)
  loops-Totals [] = none_left
  loops-Totals ((level, count) ∷ counts) = elim (Bool-cases (is_error_level to_lower level)) [
    | inl e ↦ rw e (counted (is_error_level-errors level e) (loops-Totals counts))
    | inr e ↦
        let (no_error, no_fatal) =
          none_of (bytes_eq (to_lower level) (codes "error"))
            (bytes_eq (to_lower level) (codes "fatal")) e in
        rw e (
          passed (same_bytes (to_lower level) (codes "error") no_error)
            (same_bytes (to_lower level) (codes "fatal") no_fatal) (loops-Totals counts))
  ]

  rate_totals_lem :
      (counts : List (Bytes × ℕ))
      → rate_totals to_lower counts ≡ (total_count counts, error_total to_lower counts)
  rate_totals_lem [] = refl
  rate_totals_lem ((level, count) ∷ counts) = rw (rate_totals_lem counts) refl

-- Where the store counts the levels of the range: error_count is the sum of the counts of the
-- levels that are error or fatal but for case, log_count is that of all levels, and error_rate is
-- the quotient of the two, or zero if the second is 0.
pub measure_error_rate_lem :
    (f : Floats) (to_lower : Bytes → Bytes) (logs : LogStore f.F) (c : Clock f.F)
    (service endpoint environment : Bytes) (start finish : ℕ) (counts : List (Bytes × ℕ))
    → logs.count_by_level (record {
      since = start;
      until = finish;
      service = service;
      level = [];
      environment = environment;
    })
      ≡ ok counts
    → (errors : ℕ) × (total : ℕ) × Totals to_lower counts errors total
      × (measure_range f to_lower logs c
            (codes "error_count")
            service
            endpoint
            environment
            start
            finish
          ≡ ok (f.of_int errors))
      × (measure_range f to_lower logs c
            (codes "log_count")
            service
            endpoint
            environment
            start
            finish
          ≡ ok (f.of_int total))
      × (measure_range f to_lower logs c
            (codes "error_rate")
            service
            endpoint
            environment
            start
            finish
          ≡ ok (if total == 0 then f.of_int 0 else f.div (f.of_int errors) (f.of_int total)))
unfolding measure_range measure_error_rate measure_log_count measure_error_count bytes_eq
measure_error_rate_lem f to_lower logs c service endpoint environment start finish counts h = (
  error_total to_lower counts,
  total_count counts,
  loops-Totals to_lower counts,
  rw h refl,
  rw h refl,
  rw (h, rate_totals_lem to_lower counts) refl,
)
