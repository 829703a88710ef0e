-- ===== src/Jobs/Queue.antt =====
-- internal/jobs/queue.go: the statements on the table jobs, which is what the queue keeps. Times are
-- whole seconds, as RFC 3339 writes them; a priority is 0, as every insert leaves it, or more.
pub mod Search
pub mod Claim
use opentrace.Base.{
  ℕ, zero, suc, ◌+◌, ◌-◌, ◌*◌, ◌/◌, ◌%◌, ◌^◌, Bytes, codes, bytes_eq, Bool, true, false, not, ◌&&◌,
  ◌||◌, ltb, leb, ◌==◌, Option, none, some, if◌then◌else◌, [],
}

pub data Status : Type 0 where
  pending running completed failed dead : Status

abbrev pub is_pending : Status → Bool
is_pending pending = true
is_pending running = false
is_pending completed = false
is_pending failed = false
is_pending dead = false

abbrev pub is_running : Status → Bool
is_running pending = false
is_running running = true
is_running completed = false
is_running failed = false
is_running dead = false

-- `status IN ('dead', 'failed')`
abbrev pub is_retryable : Status → Bool
is_retryable pending = false
is_retryable running = false
is_retryable completed = false
is_retryable failed = true
is_retryable dead = true

-- `status IN ('completed', 'dead')`
abbrev pub is_prunable : Status → Bool
is_prunable pending = false
is_prunable running = false
is_prunable completed = true
is_prunable failed = false
is_prunable dead = true

-- A row without its key.
pub record Job : Type 0 where
  pub queue : Bytes
  pub job_type : Bytes
  pub payload : Bytes
  pub status : Status
  pub priority : ℕ
  pub attempts : ℕ
  pub max_attempts : ℕ
  pub run_at : ℕ
  pub started_at : Option ℕ
  pub completed_at : Option ℕ
  pub last_error : Bytes
  pub created_at : ℕ

-- The rows by their key; AUTOINCREMENT gives each key once.
pub record Table : Type 0 where
  pub rows : ℕ → Option Job
  pub next_id : ℕ

abbrev pub no_jobs : Table
no_jobs = record { rows = λ id. none; next_id = 1 }

-- `UPDATE jobs SET … WHERE id = ?`
abbrev pub map_row : (Job → Job) → Option Job → Option Job
map_row change none = none
map_row change (some j) = some (change j)

abbrev pub update_row : Table → ℕ → (Job → Job) → Table
update_row t id change = record t {
  rows = λ k. if k == id then map_row change (t.rows k) else t.rows k;
}

-- The row that EnqueueAt inserts, with the defaults of the columns it does not name.
abbrev pub new_job : Bytes → Bytes → ℕ → ℕ → Job
new_job job_type payload run_at now = record {
  queue = codes "default";
  job_type = job_type;
  payload = payload;
  status = pending;
  priority = 0;
  attempts = 0;
  max_attempts = 3;
  run_at = run_at;
  started_at = none;
  completed_at = none;
  last_error = [];
  created_at = now;
}

unfoldable pub enqueue_at : Table → Bytes → Bytes → ℕ → ℕ → Table
enqueue_at t job_type payload run_at now = record {
  rows = λ k. if k == t.next_id then some (new_job job_type payload run_at now) else t.rows k;
  next_id = t.next_id + 1;
}

-- `WHERE queue = ? AND status = 'pending' AND run_at <= ?`
abbrev pub is_due : Bytes → ℕ → Job → Bool
is_due queue now j = bytes_eq j.queue queue && (is_pending j.status && leb j.run_at now)

-- `ORDER BY priority DESC, created_at ASC`
abbrev pub precedes : Job → Job → Bool
precedes j k =
    ltb k.priority j.priority || (j.priority == k.priority && ltb j.created_at k.created_at)

-- The better of the row found so far and a due one; SQL leaves open which of two equal rows is first.
abbrev pub better : Option (ℕ × Job) → ℕ → Job → Option (ℕ × Job)
better none id j = some (id, j)
better (some (m, k)) id j = if precedes j k then some (id, j) else some (m, k)

abbrev pub consider : Bytes → ℕ → Option (ℕ × Job) → ℕ → Option Job → Option (ℕ × Job)
consider queue now best id none = best
consider queue now best id (some j) = if is_due queue now j then better best id j else best

-- The first of the due rows with a key below the bound.
unfoldable pub select_next : (ℕ → Option Job) → Bytes → ℕ → ℕ → Option (ℕ × Job)
select_next rows queue now zero = none
select_next rows queue now (suc n) = consider queue now (select_next rows queue now n) n (rows n)

abbrev pub start_job : ℕ → Job → Job
start_job now j = record j { status = running; started_at = some now }

abbrev pub claimed : Table → ℕ → Option (ℕ × Job) → Table × Option (ℕ × Job)
claimed t now none = (t, none)
claimed t now (some (id, j)) = (update_row t id (start_job now), some (id, start_job now j))

unfoldable pub claim_next : Table → Bytes → ℕ → Table × Option (ℕ × Job)
claim_next t queue now = claimed t now (select_next t.rows queue now t.next_id)

unfoldable pub complete : Table → ℕ → ℕ → Table
complete t id now = update_row t id (λ j. record j { status = completed; completed_at = some now })

-- `time.Duration(1<<uint(newAttempts)) * 5 * time.Second`, an int64 that wraps around.
abbrev pub raw_delay : ℕ → ℕ
raw_delay attempts = 2 ^ attempts % 2 ^ 64 * (5 * 10 ^ 9) % 2 ^ 64

-- A wait of at most five minutes; a word from 2^63 on is negative, and below the cap.
unfoldable pub backoff_delay : ℕ → ℕ
backoff_delay attempts =
    let d = raw_delay attempts in
    if leb (2 ^ 63) d then d else if ltb (300 * 10 ^ 9) d then 300 * 10 ^ 9 else d

-- now.Add(backoff) in whole seconds, where the wait is not negative; otherwise a time before now.
abbrev pub run_after : ℕ → ℕ → ℕ
run_after now d = if leb (2 ^ 63) d then now - (2 ^ 64 - d) / 10 ^ 9 else now + d / 10 ^ 9

abbrev pub fail_job : Bytes → ℕ → Job → Job
fail_job message now j =
    let attempts = j.attempts + 1 in
    if leb j.max_attempts attempts
    then record j { status = dead; attempts = attempts; last_error = message }
    else record j {
      status = pending;
      attempts = attempts;
      last_error = message;
      run_at = run_after now (backoff_delay attempts);
    }

-- A key without a row is an error, and changes nothing. Fail reads the row and writes it in a
-- statement of its own; as one step, nothing else writes the row between the two.
unfoldable pub fail : Table → ℕ → Bytes → ℕ → Table
fail t id message now = update_row t id (fail_job message now)

unfoldable pub retry : Table → ℕ → ℕ → Table
retry t id now =
    update_row t id
      (λ j. if is_retryable j.status then record j { status = pending; run_at = now } else j)

-- Every row, and some deleted.
abbrev pub prune_row : ℕ → Option Job → Option Job
prune_row cutoff none = none
prune_row cutoff (some j) = if is_prunable j.status && ltb j.created_at cutoff then none else some j

unfoldable pub prune : Table → ℕ → Table
prune t cutoff = record t { rows = λ k. prune_row cutoff (t.rows k) }

abbrev pub reap_reason : Bytes
reap_reason = codes "reclaimed: worker stopped or crashed while running"

-- `started_at IS NULL OR started_at < ?`
abbrev pub started_before : ℕ → Option ℕ → Bool
started_before cutoff none = true
started_before cutoff (some s) = ltb s cutoff

-- The condition on the time, if there is one.
abbrev pub is_stale : Option ℕ → Job → Bool
is_stale none j = true
is_stale (some cutoff) j = started_before cutoff j.started_at

abbrev pub reap_dead : Option ℕ → Job → Job
reap_dead cutoff j =
    if is_running j.status && (leb j.max_attempts (j.attempts + 1) && is_stale cutoff j)
    then record j { status = dead; attempts = j.attempts + 1; last_error = reap_reason }
    else j

abbrev pub reap_pending : Option ℕ → ℕ → Job → Job
reap_pending cutoff now j =
    if is_running j.status && (ltb (j.attempts + 1) j.max_attempts && is_stale cutoff j)
    then record j {
      status = pending;
      run_at = now;
      attempts = j.attempts + 1;
      last_error = reap_reason;
    }
    else j

-- The cutoff is there if the visibility timeout is positive.
unfoldable pub reap_orphaned : Table → Option ℕ → ℕ → Table
reap_orphaned t cutoff now = record t {
  rows = λ k. map_row (reap_pending cutoff now) (map_row (reap_dead cutoff) (t.rows k));
}
