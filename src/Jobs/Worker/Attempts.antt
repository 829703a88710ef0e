-- ===== src/Jobs/Worker/Attempts.antt =====
-- How often a job is handed to a handler (internal/jobs).
use opentrace.Base.{
  ℕ, ◌+◌, ◌≤◌, ◌≡◌, inl, inr, refl, arith, Bytes, true, false, ◌==◌, ==_iff, Option, none, some,
  if◌then◌else◌, Bool-cases,
}
use opentrace.Jobs.Queue.{
  pending, completed, is_pending, is_retryable, Job, Table, map_row, update_row, enqueue_at,
  start_job, claim_next, complete, fail_job, fail, retry, prune, reap_dead, reap_pending,
  reap_orphaned, is_due,
}
use opentrace.Jobs.Queue.Claim.{claim_next-due, claim_next-next_id}
use opentrace.Jobs.Worker.{
  JobSystem, once_more, any_active, maybe_enqueue, JobStep, enqueue, schedule, process, done, fails,
  retried, pruned, reaped, Reach, first, step,
}
use opentrace.Jobs.Worker.Fits.{
  JobFits, RowFits, Fits-weak, map_row-RowFits, update_row-RowFits, fail_job-JobFits,
  reap_dead-JobFits, reap_pending-JobFits, prune_row-RowFits, retry-Fits, Fits-more, start-Fits,
}

record IsCounted (s : JobSystem) : Type 0 where
  fits : (k : ℕ) → RowFits (s.runs k) (s.retries k) (s.table.rows k)
  unused : (k : ℕ) → s.table.next_id ≤ k → s.runs k ≡ 0

enqueue-IsCounted :
    (s : JobSystem) (job_type payload : Bytes) (run_at now : ℕ)
    → IsCounted s
    → IsCounted (record s { table = enqueue_at s.table job_type payload run_at now })
unfolding enqueue_at
enqueue-IsCounted s job_type payload run_at now inv = record {
  fits = λ k. elim (Bool-cases (k == s.table.next_id)) [
    | inl e ↦
        let same : k ≡ s.table.next_id = (==_iff k s.table.next_id).0 e in
        let none_yet = inv.unused k (omega arith) in rw e (omega arith, omega arith)
    | inr e ↦ rw e (inv.fits k)
  ];
  unused = λ k h. inv.unused k (omega arith);
}

schedule-IsCounted :
    (s : JobSystem) (job_type payload : Bytes) (now : ℕ)
    → IsCounted s
    → IsCounted (record s { table = maybe_enqueue s.table job_type payload now })
unfolding maybe_enqueue
schedule-IsCounted s job_type payload now inv =
    elim (Bool-cases (any_active s.table.rows job_type s.table.next_id)) [
      | inl e ↦ rw e inv
      | inr e ↦ rw e (enqueue-IsCounted s job_type payload now now inv)
    ]

-- A call that changes rows one by one and hands no job out.
rows-IsCounted :
    (s : JobSystem) (table : Table)
    → IsCounted s
    → table.next_id ≡ s.table.next_id
    → ((k : ℕ)
        → RowFits (s.runs k) (s.retries k) (s.table.rows k)
        → RowFits (s.runs k) (s.retries k) (table.rows k))
    → IsCounted (record s { table = table })
rows-IsCounted s table inv same h = record {
  fits = λ k. h k (inv.fits k);
  unused = λ k e. inv.unused k (omega arith);
}

process-IsCounted :
    (s : JobSystem) (queue : Bytes) (now id : ℕ) (j : Job)
    → IsCounted s
    → (claim_next s.table queue now).1 ≡ some (id, j)
    → IsCounted (record s { table = (claim_next s.table queue now).0; runs = once_more s.runs id })
process-IsCounted s queue now id j' inv e =
    let (j, there, due, started, low, best, rows) = claim_next-due s.table queue now id j' e in
    record {
      fits = λ k. rw (rows k) (handed j there due started k);
      unused = λ k h.
          let above : s.table.next_id ≤ k = omega (arith, claim_next-next_id s.table queue now) in
          let other : (k == id) ≡ false = ground arith in rw other (inv.unused k above);
    }
  where
    handed :
        (j : Job)
        → s.table.rows id ≡ some j
        → is_due queue now j ≡ true
        → j' ≡ start_job now j
        → (k : ℕ)
        → RowFits
            (once_more s.runs id k)
            (s.retries k)
            (if k == id then some j' else s.table.rows k)
    handed j there due started k = elim (Bool-cases (k == id)) [
      | inl e ↦
          let same : k ≡ id = (==_iff k id).0 e in
          let before : RowFits (s.runs id) (s.retries id) (some j) = rw there at (inv.fits id) in
          let is_free : is_pending j.status ≡ true = ground arith in
          rw (e, started, same)
            (start-Fits j.status j.attempts j.max_attempts (s.runs id) (s.retries id) before
              is_free)
      | inr e ↦ rw e (inv.fits k)
    ]

retried-IsCounted :
    (s : JobSystem) (id now : ℕ)
    → IsCounted s
    → IsCounted (record s { table = retry s.table id now; retries = once_more s.retries id })
unfolding retry
retried-IsCounted s id now inv = record { fits = λ k. fits k; unused = λ k h. inv.unused k h }
  where
    change : Job → Job
    change j = if is_retryable j.status then record j { status = pending; run_at = now } else j

    changed : (r t : ℕ) (j : Job) → JobFits r t j → JobFits r (t + 1) (change j)
    changed r t j h = elim (Bool-cases (is_retryable j.status)) [
      | inl e ↦ rw e (retry-Fits j.status j.attempts j.max_attempts r t h e)
      | inr e ↦ rw e (Fits-more j.status j.attempts j.max_attempts r t h)
    ]

    changed_row :
        (r t : ℕ) (row : Option Job) → RowFits r t row → RowFits r (t + 1) (map_row change row)
    changed_row r t none h = tt
    changed_row r t (some j) h = changed r t j h

    fits :
        (k : ℕ)
        → RowFits (s.runs k) (once_more s.retries id k) ((update_row s.table id change).rows k)
    fits k = elim (Bool-cases (k == id)) [
      | inl e ↦ rw e (changed_row (s.runs k) (s.retries k) (s.table.rows k) (inv.fits k))
      | inr e ↦ rw e (inv.fits k)
    ]

JobStep-IsCounted : (s t : JobSystem) → IsCounted s → JobStep s t → IsCounted t
unfolding complete fail prune reap_orphaned
JobStep-IsCounted s t inv (enqueue job_type payload run_at now) =
    enqueue-IsCounted s job_type payload run_at now inv
JobStep-IsCounted s t inv (schedule job_type payload now) =
    schedule-IsCounted s job_type payload now inv
JobStep-IsCounted s t inv (process queue now id j e) = process-IsCounted s queue now id j inv e
JobStep-IsCounted s t inv (done id now) = rows-IsCounted s (complete s.table id now) inv refl (λ k.
    update_row-RowFits (s.runs k) (s.retries k) s.table id k
      (λ j. record j { status = completed; completed_at = some now })
      (λ j h. Fits-weak j.status j.attempts j.max_attempts (s.runs k) (s.retries k) h))
JobStep-IsCounted s t inv (fails id message now) =
    rows-IsCounted s (fail s.table id message now) inv refl (λ k.
      update_row-RowFits (s.runs k) (s.retries k) s.table id k (fail_job message now)
        (fail_job-JobFits (s.runs k) (s.retries k) message now))
JobStep-IsCounted s t inv (retried id now) = retried-IsCounted s id now inv
JobStep-IsCounted s t inv (pruned cutoff) =
    rows-IsCounted s (prune s.table cutoff) inv refl
      (λ k. prune_row-RowFits (s.runs k) (s.retries k) cutoff (s.table.rows k))
JobStep-IsCounted s t inv (reaped cutoff now) =
    rows-IsCounted s (reap_orphaned s.table cutoff now) inv refl (λ k h.
      map_row-RowFits (s.runs k) (s.retries k) (reap_pending cutoff now)
        (reap_pending-JobFits (s.runs k) (s.retries k) cutoff now)
        (map_row (reap_dead cutoff) (s.table.rows k))
        (map_row-RowFits (s.runs k) (s.retries k) (reap_dead cutoff)
          (reap_dead-JobFits (s.runs k) (s.retries k) cutoff) (s.table.rows k) h))

Reach-IsCounted : (s : JobSystem) → Reach s → IsCounted s
Reach-IsCounted s first = record { fits = λ k. tt; unused = λ k h. refl }
Reach-IsCounted s (step r t) = JobStep-IsCounted _ s (Reach-IsCounted _ r) t

-- After any calls of the queue in any order from the empty table, by workers that may crash or lose
-- their writes, with reaping and pruning between them: a job that is in the table was handed to a
-- handler at most max_attempts times, and once more for each retry by hand.
pub runs-le :
    (s : JobSystem) (id : ℕ) (j : Job)
    → Reach s
    → s.table.rows id ≡ some j
    → s.runs id ≤ j.max_attempts + s.retries id
runs-le s id j r e =
    let fits : RowFits (s.runs id) (s.retries id) (some j) =
      rw e at ((Reach-IsCounted s r).fits id) in
    (Fits-weak j.status j.attempts j.max_attempts (s.runs id) (s.retries id) fits).1
