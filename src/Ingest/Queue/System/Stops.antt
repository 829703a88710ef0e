-- ===== src/Ingest/Queue/System/Stops.antt =====
-- Where the loop of a queue is, and that Stop does not wait for ever (internal/ingest/queue.go).
use opentrace.Base.{
  ℕ, zero, suc, ◌≤◌, ◌≡◌, refl, sym, ◌∙◌, subst, arith, List, [], ◌∷◌, Bool, true, false, length,
  some, get_elem?, set, Result, ok, err,
}
use opentrace.Ingest.Queue.System.{
  AfterFlush, leave, again, end_loop, try_again, Point, idle, signalling, joining, looping, ended,
  flushing, inserting, requeueing, retrying, storing, place_after, next_chunk, inserted,
  QueueSystem, start_queue, QueueStep, call_enqueue, call_flush, call_stop, tick, last_flush,
  take_buffer, insert, requeue, retry_enqueue, store_whole, close, join, Reaches, here, step,
}
use opentrace.Ingest.Queue.System.Capacity.{Reaches-IsBounded}
use opentrace.Ingest.Queue.System.Ending.{
  GoesTo, stands, one_step, goes_on, requeues, inserts, chunks, flushes,
}

module _ {A : Type 0} where
  -- Where the loop can be.
  abbrev of_loop : AfterFlush A → Bool
  of_loop leave = false
  of_loop again = true
  of_loop end_loop = true
  of_loop (try_again entries) = false

  abbrev in_loop : Point A → Bool
  in_loop idle = false
  in_loop signalling = false
  in_loop joining = false
  in_loop looping = true
  in_loop ended = true
  in_loop (flushing n) = of_loop n
  in_loop (inserting zero chunk rest n) = false
  in_loop (inserting (suc left) chunk rest n) = of_loop n
  in_loop (requeueing chunk rest n) = of_loop n
  in_loop (retrying entries) = false
  in_loop (storing entries) = false

  of_loop-after : (n : AfterFlush A) → of_loop n ≡ true → in_loop (place_after n) ≡ true
  of_loop-after leave h = absurd cc
  of_loop-after again h = refl
  of_loop-after end_loop h = refl
  of_loop-after (try_again entries) h = absurd cc

  next_chunk-in_loop :
      (m : ℕ) (l : List A) (n : AfterFlush A) → of_loop n ≡ true → in_loop (next_chunk m l n) ≡ true
  next_chunk-in_loop m [] n h = of_loop-after n h
  next_chunk-in_loop m (e ∷ es) n h = h

  inserted-in_loop :
      {E : Type 0} (r : Result E ℕ) (m left : ℕ) (chunk rest : List A) (n : AfterFlush A)
      → of_loop n ≡ true
      → in_loop (inserted r m left chunk rest n) ≡ true
  inserted-in_loop (ok k) m left chunk rest n h = next_chunk-in_loop m rest n h
  inserted-in_loop (err e) m zero chunk rest n h = h
  inserted-in_loop (err e) m (suc left) chunk rest n h = h

  -- Goroutine 0 is the loop.
  abbrev IsLed : List (Point A) → Type 0
  IsLed xs = (x : Point A) × (get_elem? xs 0 ≡ some x) × (in_loop x ≡ true)

  set-IsLed :
      (xs : List (Point A)) (i : ℕ) (x y : Point A)
      → get_elem? xs i ≡ some x
      → (in_loop x ≡ true → in_loop y ≡ true)
      → IsLed xs
      → IsLed (set xs i y)
  set-IsLed [] i x y h keep (z, at, led) = absurd cc
  set-IsLed (w ∷ xs) zero x y h keep (z, at, led) =
      let e : z ≡ x = cc in (y, refl, keep (rw e at led))
  set-IsLed (w ∷ xs) (suc i) x y h keep l = l

module _ {A S E : Type 0} (batch_insert : S → List A → S × Result E ℕ) where
  QueueStep-IsLed :
      (s t : QueueSystem A S) → IsLed s.threads → QueueStep batch_insert s t → IsLed t.threads
  QueueStep-IsLed s t l (call_enqueue i e es h) = set-IsLed s.threads i idle _ h (λ k. absurd cc) l
  QueueStep-IsLed s t l (call_flush i h) = set-IsLed s.threads i idle _ h (λ k. absurd cc) l
  QueueStep-IsLed s t l (call_stop i h) = set-IsLed s.threads i idle _ h (λ k. absurd cc) l
  QueueStep-IsLed s t l (tick i h) = set-IsLed s.threads i looping _ h (λ k. refl) l
  QueueStep-IsLed s t l (last_flush i h closed) = set-IsLed s.threads i looping _ h (λ k. refl) l
  QueueStep-IsLed s t l (take_buffer i n h) =
      set-IsLed s.threads i (flushing n) _ h
        (λ k. next_chunk-in_loop s.queue.max_batch_size s.queue.buffer n k) l
  QueueStep-IsLed s t l (insert i left chunk rest n h) =
      set-IsLed s.threads i (inserting (suc left) chunk rest n) _ h
        (λ k.
          inserted-in_loop (batch_insert s.store chunk).1 s.queue.max_batch_size left chunk rest n
            k)
        l
  QueueStep-IsLed s t l (requeue i chunk rest n h) =
      set-IsLed s.threads i (requeueing chunk rest n) _ h
        (λ k. next_chunk-in_loop s.queue.max_batch_size rest n k) l
  QueueStep-IsLed s t l (retry_enqueue i entries h) =
      set-IsLed s.threads i (retrying entries) _ h (λ k. absurd cc) l
  QueueStep-IsLed s t l (store_whole i entries h) =
      set-IsLed s.threads i (storing entries) _ h (λ k. absurd cc) l
  QueueStep-IsLed s t l (close i h) = set-IsLed s.threads i signalling _ h (λ k. absurd cc) l
  QueueStep-IsLed s t l (join i h done) = set-IsLed s.threads i joining _ h (λ k. absurd cc) l

  Reaches-IsLed :
      (first s : QueueSystem A S)
      → IsLed first.threads
      → Reaches batch_insert first s
      → IsLed s.threads
  Reaches-IsLed first s l here = l
  Reaches-IsLed first s l (step r t) = QueueStep-IsLed _ s (Reaches-IsLed first _ l r) t

  -- From the select, the closed channel leads to the end.
  from_select :
      (s : QueueSystem A S)
      → 1 ≤ s.queue.max_batch_size
      → s.closed ≡ true
      → get_elem? s.threads 0 ≡ some looping
      → GoesTo batch_insert s ended
  from_select s positive closed h =
      let g =
        one_step batch_insert s looping (flushing end_loop) s.queue s.store h refl
          (last_flush 0 h closed) in
      goes_on batch_insert s _ _ g
        (flushes batch_insert g.end end_loop (omega (arith, g.same_size)) g.at)

  from_flush :
      (s : QueueSystem A S) (n : AfterFlush A)
      → of_loop n ≡ true
      → 1 ≤ s.queue.max_batch_size
      → s.closed ≡ true
      → GoesTo batch_insert s (place_after n)
      → GoesTo batch_insert s ended
  from_flush s leave led positive closed g = absurd cc
  from_flush s again led positive closed g =
      goes_on batch_insert s looping ended g
        (from_select g.end (omega (arith, g.same_size)) (g.same_closed ∙ closed) g.at)
  from_flush s end_loop led positive closed g = g
  from_flush s (try_again entries) led positive closed g = absurd cc

  from_chunk :
      (s : QueueSystem A S) (rest : List A) (n : AfterFlush A)
      → 1 ≤ s.queue.max_batch_size
      → GoesTo batch_insert s (next_chunk s.queue.max_batch_size rest n)
      → GoesTo batch_insert s (place_after n)
  from_chunk s rest n positive g = goes_on batch_insert s _ _ g (
      chunks batch_insert (length rest) g.end rest n (omega arith) (omega (arith, g.same_size)) (
        subst (λ m. get_elem? g.end.threads 0 ≡ some (next_chunk m rest n)) (sym g.same_size) g.at))

  from_anywhere :
      (s : QueueSystem A S) (x : Point A)
      → get_elem? s.threads 0 ≡ some x
      → in_loop x ≡ true
      → 1 ≤ s.queue.max_batch_size
      → s.closed ≡ true
      → GoesTo batch_insert s ended
  from_anywhere s idle h led positive closed = absurd cc
  from_anywhere s signalling h led positive closed = absurd cc
  from_anywhere s joining h led positive closed = absurd cc
  from_anywhere s looping h led positive closed = from_select s positive closed h
  from_anywhere s ended h led positive closed = stands batch_insert s ended h
  from_anywhere s (flushing n) h led positive closed =
      from_flush s n led positive closed (flushes batch_insert s n positive h)
  from_anywhere s (inserting zero chunk rest n) h led positive closed = absurd cc
  from_anywhere s (inserting (suc left) chunk rest n) h led positive closed =
      from_flush s n led positive closed
        (from_chunk s rest n positive (inserts batch_insert left s chunk rest n h))
  from_anywhere s (requeueing chunk rest n) h led positive closed =
      from_flush s n led positive closed
        (from_chunk s rest n positive (requeues batch_insert s chunk rest n h))
  from_anywhere s (retrying entries) h led positive closed = absurd cc
  from_anywhere s (storing entries) h led positive closed = absurd cc

  -- In every state that the loop and any callers reach from a new queue in which Stop has closed
  -- the channel, wherever the loop is and whatever its inserts give: steps of the loop alone lead
  -- to its end, for which Stop waits.
  pub close-ended :
      (max_queue_size max_batch_size : ℕ) (store : S) (callers : ℕ) (s : QueueSystem A S)
      → Reaches batch_insert (start_queue max_queue_size max_batch_size store callers) s
      → s.closed ≡ true
      → (t : QueueSystem A S) × Reaches batch_insert s t
        × (t.threads ≡ set s.threads 0 ended)
        × (get_elem? t.threads 0 ≡ some ended)
  close-ended max_queue_size max_batch_size store callers s r closed =
      let (x, at, led) = Reaches-IsLed _ s (looping, refl, refl) r in
      let positive =
        (Reaches-IsBounded batch_insert max_queue_size max_batch_size store callers s r).1 in
      let g = from_anywhere s x at led positive closed in (g.end, g.run, g.moved, g.at)
