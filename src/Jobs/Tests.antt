-- ===== src/Jobs/Tests.antt =====
-- The job queue of internal/jobs on a table of three jobs.
use opentrace.Base.{
  ◌+◌, ◌≤◌, ◌≡◌, ◌⊎◌, ◌<◌, refl, arith, codes, bytes_eq, ◌==◌, none, some, if◌then◌else◌,
}
use opentrace.Jobs.Queue.{
  Job, Table, no_jobs, new_job, enqueue_at, start_job, claim_next, running, fail, backoff_delay,
  pending, select_next,
}
use opentrace.Jobs.Queue.Claim.{IsWaiting, claim_next-first}
use opentrace.Jobs.Worker.{JobSystem, once_more, enqueue, process, fails, start, Reach, first, step}
use opentrace.Jobs.Worker.Attempts.{runs-le}

-- The second job is older, the third is not due yet.
abbrev three_jobs : Table
three_jobs = record {
  rows = λ k.
      if k == 1
      then some (new_job (codes "retention") (codes "{}") 100 100)
      else if k == 2
      then some (new_job (codes "rollup") (codes "{}") 90 90)
      else if k == 3
      then some (new_job (codes "digest") (codes "{}") 900 80)
      else none;
  next_id = 4;
}

claim_next-first_example :
    (j : Job) × (three_jobs.rows 2 ≡ some j)
    × IsWaiting (codes "default") 120 j
    × (start_job 120 (new_job (codes "rollup") (codes "{}") 90 90)
        ≡ record j { status = running; started_at = some 120 })
    × ((¬ IsWaiting (codes "default") 120 (new_job (codes "retention") (codes "{}") 100 100))
        ⊎ ((0 < j.priority) ⊎ ((0 ≡ j.priority) × (j.created_at ≤ 100))))
    × ((claim_next three_jobs (codes "default") 120).0.rows 1 ≡ (
        if 1 == 2
        then some (start_job 120 (new_job (codes "rollup") (codes "{}") 90 90))
        else some (new_job (codes "retention") (codes "{}") 100 100)))
unfolding claim_next select_next bytes_eq
claim_next-first_example =
    claim_next-first three_jobs (codes "default") 120 2 1
      (start_job 120 (new_job (codes "rollup") (codes "{}") 90 90))
      (new_job (codes "retention") (codes "{}") 100 100) refl (omega arith) refl

-- 5 s, doubled with each attempt, and at most 300 s.
backoff_run : backoff_delay 1 ≡ 10000000000
unfolding backoff_delay
backoff_run = refl

backoff_capped : backoff_delay 6 ≡ 300000000000
unfolding backoff_delay
backoff_capped = refl

-- One run of a job that fails.
abbrev enqueued : JobSystem
enqueued = record start { table = enqueue_at no_jobs (codes "rollup") (codes "{}") 90 90 }

abbrev taken : Job
taken = start_job 95 (new_job (codes "rollup") (codes "{}") 90 90)

abbrev processed : JobSystem
processed = record enqueued {
  table = (claim_next enqueued.table (codes "default") 95).0;
  runs = once_more enqueued.runs 1;
}

abbrev failed_once : JobSystem
failed_once = record processed { table = fail processed.table 1 (codes "busy") 96 }

failed_once_reach : Reach failed_once
unfolding claim_next select_next enqueue_at bytes_eq
failed_once_reach =
    step
      (step (step first (enqueue (codes "rollup") (codes "{}") 90 90))
        (process (codes "default") 95 1 taken refl))
      (fails 1 (codes "busy") 96)

runs-le_example : failed_once.runs 1 ≤ 3 + failed_once.retries 1
unfolding fail claim_next select_next enqueue_at bytes_eq backoff_delay
runs-le_example =
    runs-le failed_once 1
      (record taken { status = pending; attempts = 1; run_at = 106; last_error = codes "busy" })
      failed_once_reach refl
