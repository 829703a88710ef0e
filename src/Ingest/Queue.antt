-- ===== src/Ingest/Queue.antt =====
-- internal/ingest/queue.go: the bounded buffer that batches log entries. The log store is the
-- interface store.LogStore: its BatchInsert is a parameter, from a state of the store to the next one
-- with the count or an error. Timeouts, pauses and log lines have no part in the results.
pub mod Retry
pub mod Bounds
pub mod Accounting
pub mod Enqueue
pub mod System
mod Tests
use opentrace.Base.{
  ℕ, zero, suc, ◌+◌, ◌*◌, min, List, [], ◌∷◌, ◌++◌, Bool, true, false, not, ◌&&◌, ◌==◌, leb,
  if◌then◌else◌, length, take, drop, Option, none, some, Result, ok, err,
}

pub record Queue (A : Type 0) : Type 0 where
  pub max_queue_size : ℕ
  pub max_batch_size : ℕ
  pub buffer : List A
  pub stopped : Bool
  pub flush_count : ℕ
  pub overflow_count : ℕ
  pub drop_count : ℕ

abbrev pub flush_max_attempts : ℕ
flush_max_attempts = 3

-- A size that is not positive is replaced; 0 stands for those below it too. The flush interval only
-- decides when the loop calls Flush.
unfoldable pub new_queue : {A : Type 0} → ℕ → ℕ → Queue A
new_queue max_queue_size max_batch_size = record {
  max_queue_size = if max_queue_size == 0 then 10_000 else max_queue_size;
  max_batch_size = if max_batch_size == 0 then 1_000 else max_batch_size;
  buffer = [];
  stopped = false;
  flush_count = 0;
  overflow_count = 0;
  drop_count = 0;
}

module _ {A : Type 0} where
  -- `q.maxQueueSize-len(q.buffer) < len(entries)` is false: a difference of ints, hence the sum.
  abbrev pub has_room : Queue A → List A → Bool
  has_room q entries = leb (length q.buffer + length entries) q.max_queue_size

  -- The queue with the entries appended, if they all fit.
  unfoldable pub try_buffer : Queue A → List A → Option (Queue A)
  try_buffer q entries =
      if has_room q entries then some (record q { buffer = q.buffer ++ entries }) else none

  unfoldable pub requeue_or_drop : Queue A → List A → Queue A
  requeue_or_drop q chunk =
      if not q.stopped && has_room q chunk
      then record q { buffer = chunk ++ q.buffer }
      else record q { drop_count = q.drop_count + length chunk }

  abbrev pub requeue_failed : {E : Type 0} → Option E → Queue A → List A → Queue A
  requeue_failed none q chunk = q
  requeue_failed (some e) q chunk = requeue_or_drop q chunk

module _ {A S E : Type 0} (batch_insert : S → List A → S × Result E ℕ) where
  -- The loop of insertWithRetry: the attempts left and the last error.
  unfoldable pub attempts : ℕ → Option E → Queue A → S → List A → Queue A × S × Option E
  attempts zero last q s chunk = (q, s, last)
  attempts (suc n) last q s chunk =
      let (s', r) = batch_insert s chunk in
      let counted = record q { flush_count = q.flush_count + 1 } in
      elim r [ ok count ↦ (counted, s', none) | err e ↦ attempts n (some e) counted s' chunk ]

  unfoldable pub insert_with_retry : Queue A → S → List A → Queue A × S × Option E
  unfolding attempts
  insert_with_retry q s chunk = attempts flush_max_attempts none q s chunk

  -- The loop of flushBatch, on fuel.
  unfoldable pub flush_chunks : ℕ → Queue A → S → List A → Queue A × S
  flush_chunks zero q s entries = (q, s)
  flush_chunks (suc fuel) q s [] = (q, s)
  flush_chunks (suc fuel) q s (e ∷ es) =
      let end = min q.max_batch_size (length (e ∷ es)) in
      let chunk = take end (e ∷ es) in
      let (q', s', failed) = insert_with_retry q s chunk in
      flush_chunks fuel (requeue_failed failed q' chunk) s' (drop end (e ∷ es))

  -- Every chunk has an entry, so there are at most as many chunks as entries.
  unfoldable pub flush_batch : Queue A → S → List A → Queue A × S
  unfolding flush_chunks
  flush_batch q s entries = flush_chunks (length entries) q s entries

  -- Flush, with the buffer that it found.
  abbrev pub flush_taken : List A → Queue A → S → Queue A × S
  flush_taken [] q s = (q, s)
  flush_taken (e ∷ es) q s = flush_batch (record q { buffer = [] }) s (e ∷ es)

  unfoldable pub flush : Queue A → S → Queue A × S
  unfolding flush_batch
  flush q s = flush_taken q.buffer q s

  -- `if depth >= q.maxBatchSize { q.Flush() }`
  unfoldable pub flush_if_full : Queue A → S → Queue A × S
  unfolding flush
  flush_if_full q s = if leb q.max_batch_size (length q.buffer) then flush q s else (q, s)

  unfoldable pub insert_synchronously : Queue A → S → List A → Queue A × S × Result E ℕ
  insert_synchronously q s entries = let (s', r) = batch_insert s entries in (q, s', r)

  -- What Enqueue does with the outcome of tryBuffer after the flush.
  abbrev pub enqueue_retried : Option (Queue A) → Queue A → S → List A → Queue A × S × Result E ℕ
  enqueue_retried (some buffered) q s entries =
      let (q', s') = flush_if_full buffered s in (q', s', ok (length entries))
  enqueue_retried none q s entries = insert_synchronously q s entries

  -- The second half of Enqueue, on the `stopped` that it reads after the flush.
  abbrev pub enqueue_flushed : Bool → Queue A → S → List A → Queue A × S × Result E ℕ
  enqueue_flushed true q s entries = insert_synchronously q s entries
  enqueue_flushed false q s entries = enqueue_retried (try_buffer q entries) q s entries

  -- What it does with the outcome of the first tryBuffer.
  abbrev pub enqueue_tried : Option (Queue A) → Queue A → S → List A → Queue A × S × Result E ℕ
  enqueue_tried (some buffered) q s entries =
      let (q', s') = flush_if_full buffered s in (q', s', ok (length entries))
  enqueue_tried none q s entries =
      let (q', s') = flush (record q { overflow_count = q.overflow_count + 1 }) s in
      enqueue_flushed q'.stopped q' s' entries

  abbrev pub enqueue_some : Bool → Queue A → S → List A → Queue A × S × Result E ℕ
  enqueue_some true q s entries = insert_synchronously q s entries
  enqueue_some false q s entries = enqueue_tried (try_buffer q entries) q s entries

  unfoldable pub enqueue : Queue A → S → List A → Queue A × S × Result E ℕ
  unfolding try_buffer flush_if_full flush insert_synchronously
  enqueue q s [] = (q, s, ok 0)
  enqueue q s (e ∷ es) = enqueue_some q.stopped q s (e ∷ es)

  -- Stop closes the channel on which the loop flushes a last time, and waits for it.
  unfoldable pub stop : Queue A → S → Queue A × S
  unfolding flush
  stop q s = if q.stopped then (q, s) else flush (record q { stopped = true }) s
