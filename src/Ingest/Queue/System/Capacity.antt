-- ===== src/Ingest/Queue/System/Capacity.antt =====
-- No interleaving makes the buffer outgrow its capacity (internal/ingest/queue.go).
use opentrace.Base.{
  ℕ, ◌≤◌, ◌≡◌, refl, arith, List, ◌∷◌, Bool, true, false, length, Option, none, some, Result,
}
use opentrace.Ingest.Queue.{Queue, try_buffer, new_queue}
use opentrace.Ingest.Queue.Bounds.{Follows, try_buffer-Follows, requeue_or_drop-Follows}
use opentrace.Ingest.Queue.System.{
  tried_first, tried_again, first_section, second_section, stop_unless, enqueue_section,
  retry_section, stop_section, QueueSystem, start_queue, QueueStep, call_enqueue, call_flush,
  call_stop, tick, last_flush, take_buffer, insert, requeue, retry_enqueue, store_whole, close,
  join, Reaches, here, step,
}

module _ {A : Type 0} where
  -- The buffer is within its capacity, and a chunk has room for an entry.
  abbrev pub IsBounded : Queue A → Type 0
  IsBounded q = (length q.buffer ≤ q.max_queue_size) × (1 ≤ q.max_batch_size)

  Follows-IsBounded : (q q' : Queue A) → Follows q q' → IsBounded q → IsBounded q'
  Follows-IsBounded q q' f (within, positive) = (f.within within, omega (arith, f.same_batch_size))

  tried_first-IsBounded :
      (o : Option (Queue A)) (q : Queue A) (entries : List A)
      → try_buffer q entries ≡ o
      → IsBounded q
      → IsBounded (tried_first o q entries).0
  tried_first-IsBounded none q entries e h = h
  tried_first-IsBounded (some b) q entries e h =
      Follows-IsBounded q b (try_buffer-Follows q b entries e) h

  tried_again-IsBounded :
      (o : Option (Queue A)) (q : Queue A) (entries : List A)
      → try_buffer q entries ≡ o
      → IsBounded q
      → IsBounded (tried_again o q entries).0
  tried_again-IsBounded none q entries e h = h
  tried_again-IsBounded (some b) q entries e h =
      Follows-IsBounded q b (try_buffer-Follows q b entries e) h

  first_section-IsBounded :
      (stopped : Bool) (q : Queue A) (entries : List A)
      → IsBounded q
      → IsBounded (first_section stopped q entries).0
  first_section-IsBounded true q entries h = h
  first_section-IsBounded false q entries h =
      tried_first-IsBounded (try_buffer q entries) q entries refl h

  second_section-IsBounded :
      (stopped : Bool) (q : Queue A) (entries : List A)
      → IsBounded q
      → IsBounded (second_section stopped q entries).0
  second_section-IsBounded true q entries h = h
  second_section-IsBounded false q entries h =
      tried_again-IsBounded (try_buffer q entries) q entries refl h

  stop_unless-IsBounded :
      (stopped : Bool) (q : Queue A) → IsBounded q → IsBounded (stop_unless stopped q).0
  stop_unless-IsBounded true q h = h
  stop_unless-IsBounded false q h = h

module _ {A S E : Type 0} (batch_insert : S → List A → S × Result E ℕ) where
  QueueStep-IsBounded :
      (s t : QueueSystem A S) → IsBounded s.queue → QueueStep batch_insert s t → IsBounded t.queue
  unfolding enqueue_section retry_section stop_section
  QueueStep-IsBounded s t b (call_enqueue i e es h) =
      first_section-IsBounded s.queue.stopped s.queue (e ∷ es) b
  QueueStep-IsBounded s t b (call_flush i h) = b
  QueueStep-IsBounded s t b (call_stop i h) = stop_unless-IsBounded s.queue.stopped s.queue b
  QueueStep-IsBounded s t b (tick i h) = b
  QueueStep-IsBounded s t b (last_flush i h closed) = b
  QueueStep-IsBounded s t b (take_buffer i n h) = (omega arith, b.1)
  QueueStep-IsBounded s t b (insert i left chunk rest n h) = b
  QueueStep-IsBounded s t b (requeue i chunk rest n h) =
      Follows-IsBounded s.queue _ (requeue_or_drop-Follows s.queue chunk) b
  QueueStep-IsBounded s t b (retry_enqueue i entries h) =
      second_section-IsBounded s.queue.stopped s.queue entries b
  QueueStep-IsBounded s t b (store_whole i entries h) = b
  QueueStep-IsBounded s t b (close i h) = b
  QueueStep-IsBounded s t b (join i h done) = b

  pub Reaches-IsBounded :
      (max_queue_size max_batch_size : ℕ) (store : S) (callers : ℕ) (s : QueueSystem A S)
      → Reaches batch_insert (start_queue max_queue_size max_batch_size store callers) s
      → IsBounded s.queue
  unfolding new_queue
  Reaches-IsBounded max_queue_size max_batch_size store callers s here = (omega arith, ground arith)
  Reaches-IsBounded max_queue_size max_batch_size store callers s (step r t) =
      QueueStep-IsBounded _ s (Reaches-IsBounded max_queue_size max_batch_size store callers _ r) t

  -- In every state that the loop and any callers of Enqueue, Flush and Stop reach from a new queue,
  -- the buffer holds at most as many entries as its capacity.
  pub reached-IsBounded :
      (max_queue_size max_batch_size : ℕ) (store : S) (callers : ℕ) (s : QueueSystem A S)
      → Reaches batch_insert (start_queue max_queue_size max_batch_size store callers) s
      → length s.queue.buffer ≤ s.queue.max_queue_size
  reached-IsBounded max_queue_size max_batch_size store callers s r =
      (Reaches-IsBounded max_queue_size max_batch_size store callers s r).0
