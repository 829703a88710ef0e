-- ===== src/Jobs/Worker.antt =====
-- internal/jobs/worker.go and scheduler.go: the calls of the queue, in any order, by workers that
-- may crash and whose writes may be lost.
pub mod Attempts
pub mod Fits
use opentrace.Base.{
  ℕ, zero, suc, ◌+◌, ◌≡◌, Bytes, bytes_eq, Bool, true, false, ◌&&◌, ◌||◌, ◌==◌, Option, none, some,
  if◌then◌else◌,
}
use opentrace.Jobs.Queue.{
  Status, is_pending, is_running, Job, Table, no_jobs, enqueue_at, claim_next, complete, fail,
  retry, prune, reap_orphaned,
}

-- The table, how often each job was handed to a handler, and how often it was retried by hand.
pub record JobSystem : Type 0 where
  pub table : Table
  pub runs : ℕ → ℕ
  pub retries : ℕ → ℕ

abbrev pub once_more : (ℕ → ℕ) → ℕ → ℕ → ℕ
once_more counts id k = if k == id then counts k + 1 else counts k

-- maybeEnqueue: whether a row of the type is pending or running.
abbrev pub is_active : Bytes → Option Job → Bool
is_active job_type none = false
is_active job_type (some j) =
    bytes_eq j.job_type job_type && (is_pending j.status || is_running j.status)

unfoldable pub any_active : (ℕ → Option Job) → Bytes → ℕ → Bool
any_active rows job_type zero = false
any_active rows job_type (suc n) = any_active rows job_type n || is_active job_type (rows n)

unfoldable pub maybe_enqueue : Table → Bytes → Bytes → ℕ → Table
maybe_enqueue t job_type payload now =
    if any_active t.rows job_type t.next_id then t else enqueue_at t job_type payload now now

-- A call of the queue. A worker crashes, or its write is lost, by taking no further step.
pub data JobStep (s : JobSystem) : JobSystem → Type 0 where
  enqueue :
      (job_type payload : Bytes) (run_at now : ℕ)
      → JobStep s (record s { table = enqueue_at s.table job_type payload run_at now })
  schedule :
      (job_type payload : Bytes) (now : ℕ)
      → JobStep s (record s { table = maybe_enqueue s.table job_type payload now })
  process :
      (queue : Bytes) (now id : ℕ) (j : Job)
      → (claim_next s.table queue now).1 ≡ some (id, j)
      → JobStep s
          (record s { table = (claim_next s.table queue now).0; runs = once_more s.runs id })
  done : (id now : ℕ) → JobStep s (record s { table = complete s.table id now })
  fails :
      (id : ℕ) (message : Bytes) (now : ℕ)
      → JobStep s (record s { table = fail s.table id message now })
  retried :
      (id now : ℕ)
      → JobStep s (record s { table = retry s.table id now; retries = once_more s.retries id })
  pruned : (cutoff : ℕ) → JobStep s (record s { table = prune s.table cutoff })
  reaped :
      (cutoff : Option ℕ) (now : ℕ)
      → JobStep s (record s { table = reap_orphaned s.table cutoff now })

abbrev pub start : JobSystem
start = record { table = no_jobs; runs = λ id. 0; retries = λ id. 0 }

pub data Reach : JobSystem → Type 0 where
  first : Reach start
  step : {s t : JobSystem} → Reach s → JobStep s t → Reach t
