-- ===== src/Ingest/Queue/System.antt =====
-- internal/ingest/queue.go with any number of goroutines: the loop of flushLoop, and callers of
-- Enqueue, Flush and Stop. A critical section of q.mu is one step, and so is a call of BatchInsert.
-- No code decides anything by the counters, so each of them changes in the step before it. Timers
-- and pauses let the loop and the attempts go on at any time.
pub mod InFlight
pub mod Moves
pub mod Conserved
pub mod Stopping
pub mod Shutdown
pub mod Capacity
pub mod Ending
pub mod Stops
mod Tests
use opentrace.Base.{
  ℕ, zero, suc, ◌+◌, min, ◌≡◌, List, [], ◌∷◌, ◌++◌, Bool, true, false, leb, if◌then◌else◌, length,
  take, drop, Option, none, some, get_elem?, set, replicate, Result, ok, err,
}
use opentrace.Ingest.Queue.{Queue, new_queue, try_buffer, requeue_or_drop, flush_max_attempts}
use opentrace.Ingest.Queue.Enqueue.{accepted}

-- What comes after a Flush: the return to the caller, the second half of Enqueue, the next turn of
-- the loop, or its end.
pub data AfterFlush (A : Type 0) : Type 0 where
  leave again end_loop : AfterFlush A
  try_again : List A → AfterFlush A

-- Where a goroutine is: outside; before the lock of Flush; with attempts left, before a BatchInsert
-- of a chunk in front of the rest of a batch; before the lock of requeueOrDrop; before the second
-- lock of Enqueue; before its synchronous BatchInsert; in Stop, before the channel is closed and
-- before the loop has ended; in the select of the loop; behind its end.
pub data Point (A : Type 0) : Type 0 where
  idle signalling joining looping ended : Point A
  flushing : AfterFlush A → Point A
  inserting : ℕ → List A → List A → AfterFlush A → Point A
  requeueing : List A → List A → AfterFlush A → Point A
  retrying storing : List A → Point A

module _ {A : Type 0} where
  abbrev pub place_after : AfterFlush A → Point A
  place_after leave = idle
  place_after again = looping
  place_after end_loop = ended
  place_after (try_again entries) = retrying entries

  -- The head of the loop of flushBatch.
  abbrev pub next_chunk : ℕ → List A → AfterFlush A → Point A
  next_chunk max_batch_size [] n = place_after n
  next_chunk max_batch_size (e ∷ es) n =
      let end = min max_batch_size (length (e ∷ es)) in
      inserting flush_max_attempts (take end (e ∷ es)) (drop end (e ∷ es)) n

  -- `if depth >= q.maxBatchSize { q.Flush() }`
  abbrev pub after_buffered : Queue A → Point A
  after_buffered q = if leb q.max_batch_size (length q.buffer) then flushing leave else idle

  -- What a critical section leaves: the queue, where the goroutine goes on, and the entries that
  -- Enqueue now returns a count for.
  abbrev pub tried_first : Option (Queue A) → Queue A → List A → Queue A × Point A × List A
  tried_first (some buffered) q entries = (buffered, after_buffered buffered, entries)
  tried_first none q entries =
      (record q { overflow_count = q.overflow_count + 1 }, flushing (try_again entries), [])

  abbrev pub tried_again : Option (Queue A) → Queue A → List A → Queue A × Point A × List A
  tried_again (some buffered) q entries = (buffered, after_buffered buffered, entries)
  tried_again none q entries = (q, storing entries, [])

  -- The first critical section of Enqueue, and the one behind its Flush, with the `stopped` they read.
  abbrev pub first_section : Bool → Queue A → List A → Queue A × Point A × List A
  first_section true q entries = (q, storing entries, [])
  first_section false q entries = tried_first (try_buffer q entries) q entries

  abbrev pub second_section : Bool → Queue A → List A → Queue A × Point A × List A
  second_section true q entries = (q, storing entries, [])
  second_section false q entries = tried_again (try_buffer q entries) q entries

  unfoldable pub enqueue_section : Queue A → List A → Queue A × Point A × List A
  enqueue_section q entries = first_section q.stopped q entries

  unfoldable pub retry_section : Queue A → List A → Queue A × Point A × List A
  retry_section q entries = second_section q.stopped q entries

  -- That of Flush, which on an empty buffer changes nothing.
  abbrev pub flush_section : Queue A → AfterFlush A → Queue A × Point A
  flush_section q n = (record q { buffer = [] }, next_chunk q.max_batch_size q.buffer n)

  -- That of Stop.
  abbrev pub stop_unless : Bool → Queue A → Queue A × Point A
  stop_unless true q = (q, idle)
  stop_unless false q = (record q { stopped = true }, signalling)

  unfoldable pub stop_section : Queue A → Queue A × Point A
  stop_section q = stop_unless q.stopped q

  -- Behind a BatchInsert of a chunk, with the attempts left.
  abbrev pub failed : ℕ → List A → List A → AfterFlush A → Point A
  failed zero chunk rest n = requeueing chunk rest n
  failed (suc left) chunk rest n = inserting (suc left) chunk rest n

  abbrev pub inserted : {E : Type 0} → Result E ℕ → ℕ → ℕ → List A → List A → AfterFlush A → Point A
  inserted (ok count) max_batch_size left chunk rest n = next_chunk max_batch_size rest n
  inserted (err e) max_batch_size left chunk rest n = failed left chunk rest n

abbrev pub counted_insert : {A : Type 0} → Queue A → Queue A
counted_insert q = record q { flush_count = q.flush_count + 1 }

pub record QueueSystem (A S : Type 0) : Type 0 where
  pub queue : Queue A
  pub store : S
  pub closed : Bool
  -- The entries of the calls of Enqueue that returned a count or are about to.
  pub acknowledged : List A
  pub threads : List (Point A)

module _ {A S : Type 0} where
  abbrev pub move_on : QueueSystem A S → ℕ → Point A → Queue A → S → List A → QueueSystem A S
  move_on s i p q store new = record s {
    queue = q;
    store = store;
    acknowledged = s.acknowledged ++ new;
    threads = set s.threads i p;
  }

  -- Goroutine 0 is the loop.
  abbrev pub start_queue : ℕ → ℕ → S → ℕ → QueueSystem A S
  start_queue max_queue_size max_batch_size store callers = record {
    queue = new_queue max_queue_size max_batch_size;
    store = store;
    closed = false;
    acknowledged = [];
    threads = looping ∷ replicate callers idle;
  }

module _ {A S E : Type 0} (batch_insert : S → List A → S × Result E ℕ) where
  -- One step of one goroutine.
  pub data QueueStep (s : QueueSystem A S) : QueueSystem A S → Type 0 where
    call_enqueue :
        (i : ℕ) (e : A) (es : List A)
        → get_elem? s.threads i ≡ some idle
        → QueueStep s (
            move_on s i
              (enqueue_section s.queue (e ∷ es)).1
              (enqueue_section s.queue (e ∷ es)).0
              s.store
              (enqueue_section s.queue (e ∷ es)).2)
    call_flush :
        (i : ℕ)
        → get_elem? s.threads i ≡ some idle
        → QueueStep s (move_on s i (flushing leave) s.queue s.store [])
    call_stop :
        (i : ℕ)
        → get_elem? s.threads i ≡ some idle
        → QueueStep s (move_on s i (stop_section s.queue).1 (stop_section s.queue).0 s.store [])
    tick :
        (i : ℕ)
        → get_elem? s.threads i ≡ some looping
        → QueueStep s (move_on s i (flushing again) s.queue s.store [])
    last_flush :
        (i : ℕ)
        → get_elem? s.threads i ≡ some looping
        → s.closed ≡ true
        → QueueStep s (move_on s i (flushing end_loop) s.queue s.store [])
    take_buffer :
        (i : ℕ) (n : AfterFlush A)
        → get_elem? s.threads i ≡ some (flushing n)
        → QueueStep s
            (move_on s i (flush_section s.queue n).1 (flush_section s.queue n).0 s.store [])
    insert :
        (i left : ℕ) (chunk rest : List A) (n : AfterFlush A)
        → get_elem? s.threads i ≡ some (inserting (suc left) chunk rest n)
        → QueueStep s (
            move_on s i
              (inserted (batch_insert s.store chunk).1 s.queue.max_batch_size left chunk rest n)
              (counted_insert s.queue)
              (batch_insert s.store chunk).0
              [])
    requeue :
        (i : ℕ) (chunk rest : List A) (n : AfterFlush A)
        → get_elem? s.threads i ≡ some (requeueing chunk rest n)
        → QueueStep s (
            move_on s i
              (next_chunk s.queue.max_batch_size rest n)
              (requeue_or_drop s.queue chunk)
              s.store
              [])
    retry_enqueue :
        (i : ℕ) (entries : List A)
        → get_elem? s.threads i ≡ some (retrying entries)
        → QueueStep s (
            move_on s i
              (retry_section s.queue entries).1
              (retry_section s.queue entries).0
              s.store
              (retry_section s.queue entries).2)
    store_whole :
        (i : ℕ) (entries : List A)
        → get_elem? s.threads i ≡ some (storing entries)
        → QueueStep s (
            move_on s i idle s.queue
              (batch_insert s.store entries).0
              (accepted (batch_insert s.store entries).1 entries))
    close :
        (i : ℕ)
        → get_elem? s.threads i ≡ some signalling
        → QueueStep s (record (move_on s i joining s.queue s.store []) { closed = true })
    join :
        (i : ℕ)
        → get_elem? s.threads i ≡ some joining
        → get_elem? s.threads 0 ≡ some ended
        → QueueStep s (move_on s i idle s.queue s.store [])

  -- The states that the loop and a number of callers reach.
  pub data Reaches (first : QueueSystem A S) : QueueSystem A S → Type 0 where
    here : Reaches first first
    step : {s t : QueueSystem A S} → Reaches first s → QueueStep s t → Reaches first t
