-- ===== src/Jobs/Worker/Fits.antt =====
-- How the runs, the retries, the attempts and the status of a job fit together (internal/jobs).
use opentrace.Base.{
  ℕ, ◌+◌, ◌≤◌, ◌<◌, ◌≡◌, inl, inr, arith, Bytes, true, ◌&&◌, ltb, leb, ◌==◌, Option, none, some,
  Bool-cases,
}
use opentrace.Jobs.Queue.{
  Status, pending, running, completed, failed, dead, is_pending, is_running, is_retryable,
  is_prunable, Job, Table, map_row, update_row, fail_job, prune_row, reap_dead, reap_pending,
  is_stale,
}

-- What the runs and the retries of a job may be at its status and its attempts.
abbrev pub Fits : Status → ℕ → ℕ → ℕ → ℕ → Type 0
Fits pending attempts most runs retries = (runs ≤ attempts) × (runs < most + retries)
Fits running attempts most runs retries = (runs ≤ attempts + 1) × (runs ≤ most + retries)
Fits completed attempts most runs retries = (runs ≤ attempts + 1) × (runs ≤ most + retries)
Fits failed attempts most runs retries = (runs ≤ attempts) × (runs ≤ most + retries)
Fits dead attempts most runs retries = (runs ≤ attempts) × (runs ≤ most + retries)

abbrev pub JobFits : ℕ → ℕ → Job → Type 0
JobFits runs retries j = Fits j.status j.attempts j.max_attempts runs retries

abbrev pub RowFits : ℕ → ℕ → Option Job → Type 0
RowFits runs retries none = Unit {0}
RowFits runs retries (some j) = JobFits runs retries j

-- At any status the job has run at most one time more than its attempts, and not too often.
pub Fits-weak :
    (s : Status) (attempts most runs retries : ℕ)
    → Fits s attempts most runs retries
    → (runs ≤ attempts + 1) × (runs ≤ most + retries)
Fits-weak pending a m r t (h, k) = (omega arith, omega arith)
Fits-weak running a m r t h = h
Fits-weak completed a m r t h = h
Fits-weak failed a m r t (h, k) = (omega arith, k)
Fits-weak dead a m r t (h, k) = (omega arith, k)

pub map_row-RowFits :
    (r t : ℕ) (change : Job → Job)
    → ((j : Job) → JobFits r t j → JobFits r t (change j))
    → (row : Option Job) → RowFits r t row
    → RowFits r t (map_row change row)
map_row-RowFits r t change h none k = tt
map_row-RowFits r t change h (some j) k = h j k

pub update_row-RowFits :
    (r t : ℕ) (table : Table) (id k : ℕ) (change : Job → Job)
    → ((j : Job) → JobFits r t j → JobFits r t (change j))
    → RowFits r t (table.rows k)
    → RowFits r t ((update_row table id change).rows k)
update_row-RowFits r t table id k change h fits = elim (Bool-cases (k == id)) [
  | inl e ↦ rw e (map_row-RowFits r t change h (table.rows k) fits)
  | inr e ↦ rw e fits
]

pub fail_job-JobFits :
    (r t : ℕ) (message : Bytes) (now : ℕ) (j : Job)
    → JobFits r t j
    → JobFits r t (fail_job message now j)
fail_job-JobFits r t message now j fits =
    let (h, k) = Fits-weak j.status j.attempts j.max_attempts r t fits in
    elim (Bool-cases (leb j.max_attempts (j.attempts + 1))) [
      | inl e ↦ rw e (omega arith, k)
      | inr e ↦ rw e (omega arith, ground arith)
    ]

pub reap_dead-JobFits :
    (r t : ℕ) (cutoff : Option ℕ) (j : Job) → JobFits r t j → JobFits r t (reap_dead cutoff j)
reap_dead-JobFits r t cutoff j fits =
    let (h, k) = Fits-weak j.status j.attempts j.max_attempts r t fits in
    elim (Bool-cases
      (is_running j.status && (leb j.max_attempts (j.attempts + 1) && is_stale cutoff j))) [
        | inl e ↦ rw e (omega arith, k)
        | inr e ↦ rw e fits
      ]

pub reap_pending-JobFits :
    (r t : ℕ) (cutoff : Option ℕ) (now : ℕ) (j : Job)
    → JobFits r t j
    → JobFits r t (reap_pending cutoff now j)
reap_pending-JobFits r t cutoff now j fits =
    let (h, k) = Fits-weak j.status j.attempts j.max_attempts r t fits in
    elim (Bool-cases
      (is_running j.status && (ltb (j.attempts + 1) j.max_attempts && is_stale cutoff j))) [
        | inl e ↦
            rw e (
              let few : j.attempts + 1 < j.max_attempts = ground arith in
              (omega arith, omega arith))
        | inr e ↦ rw e fits
      ]

pub prune_row-RowFits :
    (r t cutoff : ℕ) (row : Option Job) → RowFits r t row → RowFits r t (prune_row cutoff row)
prune_row-RowFits r t cutoff none h = tt
prune_row-RowFits r t cutoff (some j) h =
    elim (Bool-cases (is_prunable j.status && ltb j.created_at cutoff)) [
      | inl e ↦ rw e tt
      | inr e ↦ rw e h
    ]

-- One retry by hand allows one run more.
pub retry-Fits :
    (s : Status) (a m r t : ℕ) → Fits s a m r t → is_retryable s ≡ true → Fits pending a m r (t + 1)
retry-Fits pending a m r t h e = absurd cc
retry-Fits running a m r t h e = absurd cc
retry-Fits completed a m r t h e = absurd cc
retry-Fits failed a m r t (h, k) e = (h, omega arith)
retry-Fits dead a m r t (h, k) e = (h, omega arith)

pub Fits-more : (s : Status) (a m r t : ℕ) → Fits s a m r t → Fits s a m r (t + 1)
Fits-more pending a m r t (h, k) = (h, omega arith)
Fits-more running a m r t (h, k) = (h, omega arith)
Fits-more completed a m r t (h, k) = (h, omega arith)
Fits-more failed a m r t (h, k) = (h, omega arith)
Fits-more dead a m r t (h, k) = (h, omega arith)

pub start-Fits :
    (s : Status) (a m r t : ℕ) → Fits s a m r t → is_pending s ≡ true → Fits running a m (r + 1) t
start-Fits pending a m r t (h, k) e = (omega arith, omega arith)
start-Fits running a m r t h e = absurd cc
start-Fits completed a m r t h e = absurd cc
start-Fits failed a m r t h e = absurd cc
start-Fits dead a m r t h e = absurd cc
