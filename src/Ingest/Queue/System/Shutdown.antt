-- ===== src/Ingest/Queue/System/Shutdown.antt =====
-- What Stop leaves behind, whatever other goroutines do (internal/ingest/queue.go).
use opentrace.Base.{
  ℕ, zero, suc, ◌+◌, ◌≡◌, ◌⊎◌, refl, ap, arith, List, [], ◌∷◌, Bool, true, false, length, some,
  get_elem?, get_elem?-set, replicate, Result, inl, inr,
}
use opentrace.Ingest.Queue.{Queue}
use opentrace.Ingest.Queue.Retry.{recorded, confirmed}
use opentrace.Ingest.Queue.Accounting.{count}
use opentrace.Ingest.Queue.System.{
  Point, idle, looping, ended, signalling, joining, retrying, storing, flushing, inserting,
  requeueing, enqueue_section, retry_section, stop_section, QueueSystem, move_on, start_queue,
  QueueStep, call_enqueue, call_flush, call_stop, tick, last_flush, take_buffer, insert, requeue,
  retry_enqueue, store_whole, close, join, Reaches, here, step,
}
use opentrace.Ingest.Queue.System.InFlight.{held, in_flight-none}
use opentrace.Ingest.Queue.System.Conserved.{reached-IsConserved}
use opentrace.Ingest.Queue.System.Stopping.{
  shutting, drained, drained-shutting, inserted-end, next_chunk-end, Keeps, open-Keeps, same-Keeps,
  first_section-Keeps, second_section-Keeps, stop_unless-Keeps, flush_section-Keeps,
  requeue_or_drop-Stays,
}

module _ {A S : Type 0} where
  pub record IsClosing (s : QueueSystem A S) : Type 0 where
    pub closed_stopped : s.closed ≡ true → s.queue.stopped ≡ true
    pub at_stopped :
        (j : ℕ) (x : Point A)
        → get_elem? s.threads j ≡ some x
        → shutting x ≡ true
        → s.queue.stopped ≡ true
    pub at_empty :
        (j : ℕ) (x : Point A)
        → get_elem? s.threads j ≡ some x
        → drained x ≡ true
        → s.queue.buffer ≡ []

  move_on-IsClosing :
      (s : QueueSystem A S) (i : ℕ) (x y : Point A) (q : Queue A) (st : S) (new : List A)
      → get_elem? s.threads i ≡ some x
      → Keeps s.queue x q y
      → IsClosing s
      → IsClosing (move_on s i y q st new)
  move_on-IsClosing s i x y q st new h k c = record {
    closed_stopped = λ e. (k.stays (c.closed_stopped e)).0;
    at_stopped = λ j z at shut. stopped_at j z shut (get_elem?-set s.threads i j z y at);
    at_empty = λ j z at out. empty_at j z out (get_elem?-set s.threads i j z y at);
  }
    where
      stopped_at :
          (j : ℕ) (z : Point A)
          → shutting z ≡ true
          → (z ≡ y) ⊎ (get_elem? s.threads j ≡ some z)
          → q.stopped ≡ true
      stopped_at j z shut (inl e) = elim (k.stopping (rw e at shut)) [
        | inl before ↦ (k.stays (c.at_stopped i x h before)).0
        | inr now ↦ now
      ]
      stopped_at j z shut (inr there) = (k.stays (c.at_stopped j z there shut)).0

      empty_at :
          (j : ℕ) (z : Point A)
          → drained z ≡ true
          → (z ≡ y) ⊎ (get_elem? s.threads j ≡ some z)
          → q.buffer ≡ []
      empty_at j z out (inl e) = elim (k.emptied (rw e at out)) [
        | inl before ↦
            (k.stays (c.at_stopped i x h (drained-shutting x before))).1 (c.at_empty i x h before)
        | inr now ↦ now
      ]
      empty_at j z out (inr there) =
          (k.stays (c.at_stopped j z there (drained-shutting z out))).1 (c.at_empty j z there out)

module _ {A S E : Type 0} (batch_insert : S → List A → S × Result E ℕ) where
  QueueStep-IsClosing :
      (s t : QueueSystem A S) → IsClosing s → QueueStep batch_insert s t → IsClosing t
  unfolding enqueue_section retry_section stop_section
  QueueStep-IsClosing s t c (call_enqueue i e es h) =
      move_on-IsClosing s i idle _ _ _ _ h
        (first_section-Keeps s.queue.stopped s.queue (e ∷ es) refl) c
  QueueStep-IsClosing s t c (call_flush i h) =
      move_on-IsClosing s i idle _ _ _ _ h
        (open-Keeps s.queue s.queue idle _ (λ k. (k, λ b. b)) refl refl) c
  QueueStep-IsClosing s t c (call_stop i h) =
      move_on-IsClosing s i idle _ _ _ _ h (stop_unless-Keeps s.queue.stopped s.queue) c
  QueueStep-IsClosing s t c (tick i h) =
      move_on-IsClosing s i looping _ _ _ _ h
        (open-Keeps s.queue s.queue looping _ (λ k. (k, λ b. b)) refl refl) c
  QueueStep-IsClosing s t c (last_flush i h closed) =
      move_on-IsClosing s i looping _ _ _ _ h
        (record {
          stays = λ k. (k, λ b. b);
          stopping = λ k. inr (c.closed_stopped closed);
          emptied = λ k. absurd cc;
        })
        c
  QueueStep-IsClosing s t c (take_buffer i n h) =
      move_on-IsClosing s i (flushing n) _ _ _ _ h (flush_section-Keeps s.queue n) c
  QueueStep-IsClosing s t c (insert i left chunk rest n h) =
      move_on-IsClosing s i (inserting (suc left) chunk rest n) _ _ _ _ h
        (same-Keeps s.queue _ _ _ n (λ k. (k, λ b. b)) (refl, refl)
          (inserted-end (batch_insert s.store chunk).1 s.queue.max_batch_size left chunk rest n))
        c
  QueueStep-IsClosing s t c (requeue i chunk rest n h) =
      move_on-IsClosing s i (requeueing chunk rest n) _ _ _ _ h
        (same-Keeps s.queue _ _ _ n (requeue_or_drop-Stays s.queue chunk) (refl, refl)
          (next_chunk-end s.queue.max_batch_size rest n))
        c
  QueueStep-IsClosing s t c (retry_enqueue i entries h) =
      move_on-IsClosing s i (retrying entries) _ _ _ _ h
        (second_section-Keeps s.queue.stopped s.queue entries refl) c
  QueueStep-IsClosing s t c (store_whole i entries h) =
      move_on-IsClosing s i (storing entries) _ _ _ _ h
        (open-Keeps s.queue s.queue _ idle (λ k. (k, λ b. b)) refl refl) c
  QueueStep-IsClosing s t c (close i h) =
      let moved =
        move_on-IsClosing s i signalling joining s.queue s.store [] h
          (record { stays = λ k. (k, λ b. b); stopping = λ k. inl refl; emptied = λ k. absurd cc })
          c in
      record {
        closed_stopped = λ e. c.at_stopped i signalling h refl;
        at_stopped = moved.at_stopped;
        at_empty = moved.at_empty;
      }
  QueueStep-IsClosing s t c (join i h done) =
      move_on-IsClosing s i joining _ _ _ _ h
        (open-Keeps s.queue s.queue _ idle (λ k. (k, λ b. b)) refl refl) c

  at_start :
      (n j : ℕ) (x : Point A)
      → get_elem? (looping ∷ replicate n idle) j ≡ some x
      → (x ≡ looping) ⊎ (x ≡ idle)
  at_start n zero x h = inl cc
  at_start zero (suc j) x h = absurd cc
  at_start (suc n) (suc zero) x h = inr cc
  at_start (suc n) (suc (suc j)) x h = at_start n (suc j) x h

  start_queue-IsClosing :
      (max_queue_size max_batch_size : ℕ) (store : S) (callers : ℕ)
      → IsClosing {A = A} (start_queue max_queue_size max_batch_size store callers)
  start_queue-IsClosing max_queue_size max_batch_size store callers = record {
    closed_stopped = λ e. absurd cc;
    at_stopped = λ j x h shut. elim (at_start callers j x h) [
      | inl e ↦ absurd (let bad : false ≡ true = rw e at shut in cc)
      | inr e ↦ absurd (let bad : false ≡ true = rw e at shut in cc)
    ];
    at_empty = λ j x h out. elim (at_start callers j x h) [
      | inl e ↦ absurd (let bad : false ≡ true = rw e at out in cc)
      | inr e ↦ absurd (let bad : false ≡ true = rw e at out in cc)
    ];
  }

  Reaches-IsClosing :
      (first s : QueueSystem A S) → IsClosing first → Reaches batch_insert first s → IsClosing s
  Reaches-IsClosing first s c here = c
  Reaches-IsClosing first s c (step r t) = QueueStep-IsClosing _ s (Reaches-IsClosing first _ c r) t

  -- In every state that the loop and any callers of Enqueue, Flush and Stop reach from a new queue,
  -- once the loop has ended, for which Stop waits: the queue is stopped and its buffer is empty.
  pub ended-empty :
      (max_queue_size max_batch_size : ℕ) (store : S) (callers : ℕ) (s : QueueSystem A S)
      → Reaches batch_insert (start_queue max_queue_size max_batch_size store callers) s
      → get_elem? s.threads 0 ≡ some ended
      → (s.queue.stopped ≡ true) × (s.queue.buffer ≡ [])
  ended-empty max_queue_size max_batch_size store callers s r h =
      let c =
        Reaches-IsClosing _ s (start_queue-IsClosing max_queue_size max_batch_size store callers)
          r in
      (c.at_stopped 0 ended h refl, c.at_empty 0 ended h refl)

module _ {A S E : Type 0} (batch_insert : S → List A → S × Result E ℕ) where
  -- Whatever the store does with a batch, in every state that the loop and any callers reach from a
  -- new queue in which the loop has ended and the callers are outside: the entries of the calls of
  -- BatchInsert that returned no error, with lost ones, whose number is the drop counter, are as a
  -- multiset the entries of the calls of Enqueue that returned a count.
  pub ended-delivered :
      (max_queue_size max_batch_size : ℕ) (store : S) (callers : ℕ) (s : QueueSystem A (S × List A))
      → Reaches
          (recorded batch_insert)
          (start_queue max_queue_size max_batch_size (store, []) callers)
          s
      → get_elem? s.threads 0 ≡ some ended
      → ((i : ℕ) (x : Point A) → get_elem? s.threads i ≡ some x → (x ≡ idle) ⊎ (x ≡ ended))
      → (lost : List A) × (s.queue.drop_count ≡ length lost)
        × ((p : A → Bool) → count p (confirmed s.store) + count p lost ≡ count p s.acknowledged)
  ended-delivered max_queue_size max_batch_size store callers s r h out =
      let c = reached-IsConserved batch_insert max_queue_size max_batch_size store callers s r in
      let empty =
        (ended-empty (recorded batch_insert) max_queue_size max_batch_size (store, []) callers s r
          h).1 in
      (
        c.lost,
        c.counted,
        λ p. omega (
          arith,
          c.kept p,
          ap (λ l. count p l) empty,
          in_flight-none p s.threads (λ i x at. elim (out i x at) [
            | inl e ↦ ap (λ y. count p (held y)) e
            | inr e ↦ ap (λ y. count p (held y)) e
          ]),
        ),
      )
