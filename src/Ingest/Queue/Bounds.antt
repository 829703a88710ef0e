-- ===== src/Ingest/Queue/Bounds.antt =====
-- The buffer of internal/ingest/queue.go never outgrows its capacity.
use opentrace.Base.{
  ℕ, zero, suc, ◌+◌, ◌≤◌, min, ◌≡◌, refl, sym, ap, ◌∙◌, List, [], ◌∷◌, ◌++◌, arith, Bool, true,
  false, not, ◌&&◌, leb, length, take, drop, length-append, Option, none, some, Bool-cases, inl,
  inr, Result,
}
use opentrace.Ingest.Queue.{
  Queue, has_room, try_buffer, requeue_or_drop, requeue_failed, insert_with_retry, flush_chunks,
  flush_batch, flush_taken, flush, enqueue_retried, enqueue_flushed, enqueue_tried, enqueue_some,
  flush_if_full, insert_synchronously, enqueue,
}
use opentrace.Ingest.Queue.Retry.{insert_with_retry_queue}

module _ {A : Type 0} where
  -- The settings are kept, and so is the capacity of the buffer.
  pub record Follows (q q' : Queue A) : Type 0 where
    pub same_queue_size : q'.max_queue_size ≡ q.max_queue_size
    pub same_batch_size : q'.max_batch_size ≡ q.max_batch_size
    pub same_stopped : q'.stopped ≡ q.stopped
    pub within : length q.buffer ≤ q.max_queue_size → length q'.buffer ≤ q'.max_queue_size

  pub Follows-refl : (q : Queue A) → Follows q q
  Follows-refl q = record {
    same_queue_size = refl;
    same_batch_size = refl;
    same_stopped = refl;
    within = λ h. h;
  }

  pub Follows-trans : (q q' q'' : Queue A) → Follows q q' → Follows q' q'' → Follows q q''
  Follows-trans q q' q'' a b = record {
    same_queue_size = b.same_queue_size ∙ a.same_queue_size;
    same_batch_size = b.same_batch_size ∙ a.same_batch_size;
    same_stopped = b.same_stopped ∙ a.same_stopped;
    within = λ h. b.within (a.within h);
  }

  pub requeue_or_drop-Follows : (q : Queue A) (chunk : List A) → Follows q (requeue_or_drop q chunk)
  unfolding requeue_or_drop
  requeue_or_drop-Follows q chunk = elim (Bool-cases (not q.stopped && has_room q chunk)) [
    | inl room ↦ rw room (record {
      same_queue_size = refl;
      same_batch_size = refl;
      same_stopped = refl;
      within = λ h. ground (arith, length-append chunk q.buffer);
    })
    | inr full ↦ rw full (record {
      same_queue_size = refl;
      same_batch_size = refl;
      same_stopped = refl;
      within = λ h. h;
    })
  ]

  counted-Follows : (q q' : Queue A) → q' ≡ record q { flush_count = q'.flush_count } → Follows q q'
  counted-Follows q q' same = record {
    same_queue_size = ap (λ (r : Queue A). r.max_queue_size) same;
    same_batch_size = ap (λ (r : Queue A). r.max_batch_size) same;
    same_stopped = ap (λ (r : Queue A). r.stopped) same;
    within = λ h. omega (
      arith,
      ap (λ (r : Queue A). r.max_queue_size) same,
      ap (λ (r : Queue A). length r.buffer) same,
    );
  }

  pub settled-Follows :
      {E : Type 0} (q : Queue A) (chunk : List A) (q' : Queue A) (failed : Option E)
      → q' ≡ record q { flush_count = q'.flush_count }
      → Follows q (requeue_failed failed q' chunk)
  settled-Follows q chunk q' none same = counted-Follows q q' same
  settled-Follows q chunk q' (some e) same =
      Follows-trans q q' (requeue_or_drop q' chunk) (counted-Follows q q' same)
        (requeue_or_drop-Follows q' chunk)

  -- tryBuffer succeeds exactly when there is room, and appends.
  pub try_buffer-eq-some :
      (q b : Queue A) (entries : List A)
      → try_buffer q entries ≡ some b
      → (has_room q entries ≡ true) × (b ≡ record q { buffer = q.buffer ++ entries })
  unfolding try_buffer
  try_buffer-eq-some q b entries e = elim (Bool-cases (has_room q entries)) [
    | inl room ↦ (room, sym (some_inj (sym (rw room refl) ∙ e)))
    | inr full ↦ absurd (some_none (sym e ∙ rw full refl))
  ]
    where
      some_inj : {x y : Queue A} → some x ≡ some y → x ≡ y
      some_inj h = cc

      some_none : {x : Queue A} → some x ≡ none → ⊥
      some_none h = cc

  pub try_buffer-Follows :
      (q b : Queue A) (entries : List A) → try_buffer q entries ≡ some b → Follows q b
  try_buffer-Follows q b entries e =
      let (room, appended) = try_buffer-eq-some q b entries e in
      record {
        same_queue_size = ap (λ (r : Queue A). r.max_queue_size) appended;
        same_batch_size = ap (λ (r : Queue A). r.max_batch_size) appended;
        same_stopped = ap (λ (r : Queue A). r.stopped) appended;
        within = λ h. ground (
          arith,
          length-append q.buffer entries,
          ap (λ (r : Queue A). r.max_queue_size) appended,
          ap (λ (r : Queue A). length r.buffer) appended,
        );
      }

module _ {A S E : Type 0} (batch_insert : S → List A → S × Result E ℕ) where
  flush_chunks-Follows :
      (fuel : ℕ) (q : Queue A) (s : S) (entries : List A)
      → Follows q (flush_chunks batch_insert fuel q s entries).0
  unfolding flush_chunks
  flush_chunks-Follows zero q s entries = Follows-refl q
  flush_chunks-Follows (suc fuel) q s [] = Follows-refl q
  flush_chunks-Follows (suc fuel) q s (e ∷ es) =
      let end = min q.max_batch_size (length (e ∷ es)) in
      let chunk : List A = take end (e ∷ es) in
      let tried = insert_with_retry batch_insert q s chunk in
      let next = requeue_failed tried.2 tried.0 chunk in
      Follows-trans q next _
        (settled-Follows q chunk tried.0 tried.2 (insert_with_retry_queue batch_insert q s chunk))
        (flush_chunks-Follows fuel next tried.1 (drop end (e ∷ es)))

  pub flush-Follows : (q : Queue A) (s : S) → Follows q (flush batch_insert q s).0
  unfolding flush flush_batch
  flush-Follows q s = taken q.buffer
    where
      emptied : Follows q (record q { buffer = [] })
      emptied = record {
        same_queue_size = refl;
        same_batch_size = refl;
        same_stopped = refl;
        within = λ h. omega arith;
      }

      taken : (l : List A) → Follows q (flush_taken batch_insert l q s).0
      taken [] = Follows-refl q
      taken (e ∷ es) =
          Follows-trans q (record q { buffer = [] }) _ emptied
            (flush_chunks-Follows (length (e ∷ es)) (record q { buffer = [] }) s (e ∷ es))

  flush_if_full-Follows : (q : Queue A) (s : S) → Follows q (flush_if_full batch_insert q s).0
  unfolding flush_if_full
  flush_if_full-Follows q s = elim (Bool-cases (leb q.max_batch_size (length q.buffer))) [
    | inl full ↦ rw full (flush-Follows q s)
    | inr other ↦ rw other (Follows-refl q)
  ]

  retried-Follows :
      (o : Option (Queue A)) (q : Queue A) (s : S) (entries : List A)
      → o ≡ try_buffer q entries
      → Follows q (enqueue_retried batch_insert o q s entries).0
  unfolding insert_synchronously
  retried-Follows none q s entries e = Follows-refl q
  retried-Follows (some b) q s entries e =
      Follows-trans q b _ (try_buffer-Follows q b entries (sym e)) (flush_if_full-Follows b s)

  flushed-Follows :
      (stopped : Bool) (q : Queue A) (s : S) (entries : List A)
      → Follows q (enqueue_flushed batch_insert stopped q s entries).0
  unfolding insert_synchronously
  flushed-Follows true q s entries = Follows-refl q
  flushed-Follows false q s entries = retried-Follows (try_buffer q entries) q s entries refl

  tried-Follows :
      (o : Option (Queue A)) (q : Queue A) (s : S) (entries : List A)
      → o ≡ try_buffer q entries
      → Follows q (enqueue_tried batch_insert o q s entries).0
  tried-Follows none q s entries e =
      let over = record q { overflow_count = q.overflow_count + 1 } in
      let flushed = flush batch_insert over s in
      Follows-trans q over _
        (record {
          same_queue_size = refl;
          same_batch_size = refl;
          same_stopped = refl;
          within = λ h. h;
        })
        (Follows-trans over flushed.0 _ (flush-Follows over s)
          (flushed-Follows flushed.0.stopped flushed.0 flushed.1 entries))
  tried-Follows (some b) q s entries e =
      Follows-trans q b _ (try_buffer-Follows q b entries (sym e)) (flush_if_full-Follows b s)

  some-Follows :
      (stopped : Bool) (q : Queue A) (s : S) (entries : List A)
      → Follows q (enqueue_some batch_insert stopped q s entries).0
  unfolding insert_synchronously
  some-Follows true q s entries = Follows-refl q
  some-Follows false q s entries = tried-Follows (try_buffer q entries) q s entries refl

  -- Enqueue and Flush keep the sizes and the stopped state of a queue, and leave its buffer within
  -- its capacity if it was.
  pub enqueue-Follows :
      (q : Queue A) (s : S) (entries : List A)
      → Follows q (enqueue batch_insert q s entries).0 × Follows q (flush batch_insert q s).0
  unfolding enqueue
  enqueue-Follows q s [] = (Follows-refl q, flush-Follows q s)
  enqueue-Follows q s (e ∷ es) = (some-Follows q.stopped q s (e ∷ es), flush-Follows q s)
