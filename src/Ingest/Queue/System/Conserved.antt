-- ===== src/Ingest/Queue/System/Conserved.antt =====
-- No interleaving loses an entry that is not counted (internal/ingest/queue.go).
use opentrace.Base.{
  ℕ, suc, ◌+◌, ◌≡◌, refl, arith, List, [], ◌∷◌, ◌++◌, Bool, length, length-append, some, get_elem?,
  Result,
}
use opentrace.Ingest.Queue.{Queue, new_queue}
use opentrace.Ingest.Queue.Retry.{IsLog, recorded, confirmed, recorded-IsLog}
use opentrace.Ingest.Queue.Accounting.{count, count-append}
use opentrace.Ingest.Queue.System.{
  Point, idle, looping, signalling, joining, flushing, inserting, requeueing, retrying, storing,
  QueueSystem, move_on, start_queue, QueueStep, call_enqueue, call_flush, call_stop, tick,
  last_flush, take_buffer, insert, requeue, retry_enqueue, store_whole, close, join, Reaches, here,
  step,
}
use opentrace.Ingest.Queue.System.InFlight.{
  in_flight, in_flight-set, held-next_chunk, in_flight-start,
}
use opentrace.Ingest.Queue.System.Moves.{
  Moves, still-Moves, enqueue_section-Moves, retry_section-Moves, stop_section-Moves,
  flush_section-Moves, requeue-Moves, insert-Moves, store_whole-Moves,
}

module _ {A S : Type 0} (stored : S → List A) where
  -- The acknowledged entries are, as a multiset and with those of the list that the store had at
  -- first, those of the list that the store has, of the buffer, in flight, and lost ones, which the
  -- counter counts.
  pub record IsConserved (first s : QueueSystem A S) : Type 0 where
    pub lost : List A
    pub counted : s.queue.drop_count ≡ length lost
    pub kept :
        (p : A → Bool)
        → count p (stored s.store)
            + (count p s.queue.buffer + (count p (in_flight s.threads) + count p lost))
          ≡ count p (stored first.store) + count p s.acknowledged

  move_on-IsConserved :
      (first s : QueueSystem A S) (i : ℕ) (x y : Point A) (q : Queue A) (st : S) (new : List A)
      → get_elem? s.threads i ≡ some x
      → Moves stored s.queue s.store x q st y new
      → IsConserved first s
      → IsConserved first (move_on s i y q st new)
  move_on-IsConserved first s i x y q st new h m c = record {
    lost = c.lost ++ m.given_up;
    counted = omega (arith, c.counted, m.counted, length-append c.lost m.given_up);
    kept = λ p. omega (
      arith,
      c.kept p,
      m.kept p,
      in_flight-set p s.threads i x y h,
      count-append p c.lost m.given_up,
      count-append p s.acknowledged new,
    );
  }

module _ {A S E : Type 0} (batch_insert : S → List A → S × Result E ℕ) (stored : S → List A)
    (log : IsLog batch_insert stored) where
  QueueStep-IsConserved :
      (first s t : QueueSystem A S)
      → IsConserved stored first s
      → QueueStep batch_insert s t
      → IsConserved stored first t
  QueueStep-IsConserved first s t c (call_enqueue i e es h) =
      move_on-IsConserved stored first s i idle _ _ _ _ h
        (enqueue_section-Moves stored s.queue s.store (e ∷ es)) c
  QueueStep-IsConserved first s t c (call_flush i h) =
      move_on-IsConserved stored first s i idle _ _ _ _ h
        (still-Moves stored s.queue s.queue s.store _ _ refl refl (λ p. refl)) c
  QueueStep-IsConserved first s t c (call_stop i h) =
      move_on-IsConserved stored first s i idle _ _ _ _ h
        (stop_section-Moves stored s.queue s.store) c
  QueueStep-IsConserved first s t c (tick i h) =
      move_on-IsConserved stored first s i looping _ _ _ _ h
        (still-Moves stored s.queue s.queue s.store _ _ refl refl (λ p. refl)) c
  QueueStep-IsConserved first s t c (last_flush i h closed) =
      move_on-IsConserved stored first s i looping _ _ _ _ h
        (still-Moves stored s.queue s.queue s.store _ _ refl refl (λ p. refl)) c
  QueueStep-IsConserved first s t c (take_buffer i n h) =
      move_on-IsConserved stored first s i (flushing n) _ _ _ _ h
        (flush_section-Moves stored s.queue s.store (flushing n) n (λ p. refl)) c
  QueueStep-IsConserved first s t c (insert i left chunk rest n h) =
      move_on-IsConserved stored first s i (inserting (suc left) chunk rest n) _ _ _ _ h
        (insert-Moves batch_insert stored log (batch_insert s.store chunk).1 s.queue s.store left
          chunk rest n refl)
        c
  QueueStep-IsConserved first s t c (requeue i chunk rest n h) =
      move_on-IsConserved stored first s i (requeueing chunk rest n) _ _ _ _ h
        (requeue-Moves stored s.queue s.store chunk rest n _
          (λ p. held-next_chunk p s.queue.max_batch_size rest n))
        c
  QueueStep-IsConserved first s t c (retry_enqueue i entries h) =
      move_on-IsConserved stored first s i (retrying entries) _ _ _ _ h
        (retry_section-Moves stored s.queue s.store entries) c
  QueueStep-IsConserved first s t c (store_whole i entries h) =
      move_on-IsConserved stored first s i (storing entries) _ _ _ _ h
        (store_whole-Moves batch_insert stored log (batch_insert s.store entries).1 s.queue s.store
          entries refl)
        c
  QueueStep-IsConserved first s t c (close i h) =
      let moved =
        move_on-IsConserved stored first s i signalling joining s.queue s.store [] h
          (still-Moves stored s.queue s.queue s.store _ _ refl refl (λ p. refl)) c in
      record { lost = moved.lost; counted = moved.counted; kept = moved.kept }
  QueueStep-IsConserved first s t c (join i h done) =
      move_on-IsConserved stored first s i joining _ _ _ _ h
        (still-Moves stored s.queue s.queue s.store _ _ refl refl (λ p. refl)) c

  Reaches-IsConserved :
      (first s : QueueSystem A S)
      → IsConserved stored first first
      → Reaches batch_insert first s
      → IsConserved stored first s
  Reaches-IsConserved first s c here = c
  Reaches-IsConserved first s c (step r t) =
      QueueStep-IsConserved first _ s (Reaches-IsConserved first _ c r) t

  log-IsConserved :
      (max_queue_size max_batch_size : ℕ) (store : S) (callers : ℕ) (s : QueueSystem A S)
      → Reaches batch_insert (start_queue max_queue_size max_batch_size store callers) s
      → IsConserved stored (start_queue max_queue_size max_batch_size store callers) s
  unfolding new_queue
  log-IsConserved max_queue_size max_batch_size store callers s r =
      Reaches-IsConserved _ s
        (record { lost = []; counted = refl; kept = λ p. omega (arith, in_flight-start callers p) })
        r

module _ {A S E : Type 0} (batch_insert : S → List A → S × Result E ℕ) where
  -- Whatever the store does with a batch, in every state that the loop and any callers of Enqueue,
  -- Flush and Stop reach from a new queue: the entries of the calls of BatchInsert that returned no
  -- error, those in the buffer, those that goroutines have taken to write, and lost ones that the
  -- drop counter counts are, as a multiset, the entries of the calls of Enqueue that return a
  -- count.
  pub reached-IsConserved :
      (max_queue_size max_batch_size : ℕ) (store : S) (callers : ℕ) (s : QueueSystem A (S × List A))
      → Reaches
          (recorded batch_insert)
          (start_queue max_queue_size max_batch_size (store, []) callers)
          s
      → IsConserved confirmed (start_queue max_queue_size max_batch_size (store, []) callers) s
  reached-IsConserved max_queue_size max_batch_size store callers s r =
      log-IsConserved (recorded batch_insert) confirmed (recorded-IsLog batch_insert) max_queue_size
        max_batch_size (store, []) callers s r
