-- ===== src/Ingest/Queue/System/Stopping.antt =====
-- Steps of a queue that shuts down (internal/ingest/queue.go).
use opentrace.Base.{
  ℕ, zero, suc, ◌≡◌, ◌⊎◌, refl, sym, ◌∙◌, List, [], ◌∷◌, Bool, true, false, leb, length, Option,
  none, some, Result, ok, err, Bool-cases, inl, inr,
}
use opentrace.Ingest.Queue.{Queue, try_buffer, requeue_or_drop}
use opentrace.Ingest.Queue.System.{
  AfterFlush, leave, again, end_loop, try_again, Point, idle, signalling, joining, looping, ended,
  flushing, inserting, requeueing, retrying, storing, place_after, next_chunk, after_buffered,
  tried_first, tried_again, first_section, second_section, stop_unless, flush_section, inserted,
}

module _ {A : Type 0} where
  abbrev pub is_end : AfterFlush A → Bool
  is_end leave = false
  is_end again = false
  is_end end_loop = true
  is_end (try_again entries) = false

  -- Where a goroutine only is once Stop has been called.
  abbrev pub shutting : Point A → Bool
  shutting idle = false
  shutting signalling = true
  shutting joining = true
  shutting looping = false
  shutting ended = true
  shutting (flushing n) = is_end n
  shutting (inserting left chunk rest n) = is_end n
  shutting (requeueing chunk rest n) = is_end n
  shutting (retrying entries) = false
  shutting (storing entries) = false

  -- Where the loop is once its last Flush has taken the buffer.
  abbrev pub drained : Point A → Bool
  drained idle = false
  drained signalling = false
  drained joining = false
  drained looping = false
  drained ended = true
  drained (flushing n) = false
  drained (inserting left chunk rest n) = is_end n
  drained (requeueing chunk rest n) = is_end n
  drained (retrying entries) = false
  drained (storing entries) = false

  pub drained-shutting : (x : Point A) → drained x ≡ true → shutting x ≡ true
  drained-shutting idle h = absurd cc
  drained-shutting signalling h = absurd cc
  drained-shutting joining h = absurd cc
  drained-shutting looping h = absurd cc
  drained-shutting ended h = refl
  drained-shutting (flushing n) h = absurd cc
  drained-shutting (inserting left chunk rest n) h = h
  drained-shutting (requeueing chunk rest n) h = h
  drained-shutting (retrying entries) h = absurd cc
  drained-shutting (storing entries) h = absurd cc

  place_after-end :
      (n : AfterFlush A)
      → (shutting (place_after n) ≡ is_end n) × (drained (place_after n) ≡ is_end n)
  place_after-end leave = (refl, refl)
  place_after-end again = (refl, refl)
  place_after-end end_loop = (refl, refl)
  place_after-end (try_again entries) = (refl, refl)

  pub next_chunk-end :
      (m : ℕ) (l : List A) (n : AfterFlush A)
      → (shutting (next_chunk m l n) ≡ is_end n) × (drained (next_chunk m l n) ≡ is_end n)
  next_chunk-end m [] n = place_after-end n
  next_chunk-end m (e ∷ es) n = (refl, refl)

  pub inserted-end :
      {E : Type 0} (r : Result E ℕ) (m left : ℕ) (chunk rest : List A) (n : AfterFlush A)
      → (shutting (inserted r m left chunk rest n) ≡ is_end n)
        × (drained (inserted r m left chunk rest n) ≡ is_end n)
  inserted-end (ok k) m left chunk rest n = next_chunk-end m rest n
  inserted-end (err e) m zero chunk rest n = (refl, refl)
  inserted-end (err e) m (suc left) chunk rest n = (refl, refl)

  after_buffered-open :
      (q : Queue A) → (shutting (after_buffered q) ≡ false) × (drained (after_buffered q) ≡ false)
  after_buffered-open q = elim (Bool-cases (leb q.max_batch_size (length q.buffer))) [
    | inl e ↦ rw e (refl, refl)
    | inr e ↦ rw e (refl, refl)
  ]

  -- A stopped queue stays stopped, and empty if it was.
  abbrev pub Stays : Queue A → Queue A → Type 0
  Stays q q' = q.stopped ≡ true → (q'.stopped ≡ true) × (q.buffer ≡ [] → q'.buffer ≡ [])

  -- A step from `x` to `y` that keeps what holds of a queue that shuts down.
  pub record Keeps (q : Queue A) (x : Point A) (q' : Queue A) (y : Point A) : Type 0 where
    pub stays : Stays q q'
    pub stopping : shutting y ≡ true → (shutting x ≡ true) ⊎ (q'.stopped ≡ true)
    pub emptied : drained y ≡ true → (drained x ≡ true) ⊎ (q'.buffer ≡ [])

  -- A step to a place that a goroutine also is at before Stop.
  pub open-Keeps :
      (q q' : Queue A) (x y : Point A)
      → Stays q q'
      → shutting y ≡ false
      → drained y ≡ false
      → Keeps q x q' y
  open-Keeps q q' x y h a b = record {
    stays = h;
    stopping = λ k. absurd cc;
    emptied = λ k. absurd cc;
  }

  -- A step within one Flush.
  pub same-Keeps :
      (q q' : Queue A) (x y : Point A) (n : AfterFlush A)
      → Stays q q'
      → (shutting x ≡ is_end n) × (drained x ≡ is_end n)
      → (shutting y ≡ is_end n) × (drained y ≡ is_end n)
      → Keeps q x q' y
  same-Keeps q q' x y n h a b = record {
    stays = h;
    stopping = λ k. inl (a.0 ∙ sym b.0 ∙ k);
    emptied = λ k. inl (a.1 ∙ sym b.1 ∙ k);
  }

  tried_first-Keeps :
      (o : Option (Queue A)) (q : Queue A) (entries : List A)
      → q.stopped ≡ false
      → let r = tried_first o q entries in Keeps q idle r.0 r.1
  tried_first-Keeps none q entries e = open-Keeps q _ idle _ (λ h. absurd cc) refl refl
  tried_first-Keeps (some b) q entries e =
      let out = after_buffered-open b in open-Keeps q b idle _ (λ h. absurd cc) out.0 out.1

  tried_again-Keeps :
      (o : Option (Queue A)) (q : Queue A) (entries : List A)
      → q.stopped ≡ false
      → let r = tried_again o q entries in Keeps q (retrying entries) r.0 r.1
  tried_again-Keeps none q entries e = open-Keeps q _ _ _ (λ h. absurd cc) refl refl
  tried_again-Keeps (some b) q entries e =
      let out = after_buffered-open b in open-Keeps q b _ _ (λ h. absurd cc) out.0 out.1

  pub first_section-Keeps :
      (stopped : Bool) (q : Queue A) (entries : List A)
      → q.stopped ≡ stopped
      → let r = first_section stopped q entries in Keeps q idle r.0 r.1
  first_section-Keeps true q entries e = open-Keeps q q idle _ (λ h. (h, λ k. k)) refl refl
  first_section-Keeps false q entries e = tried_first-Keeps (try_buffer q entries) q entries e

  pub second_section-Keeps :
      (stopped : Bool) (q : Queue A) (entries : List A)
      → q.stopped ≡ stopped
      → let r = second_section stopped q entries in Keeps q (retrying entries) r.0 r.1
  second_section-Keeps true q entries e = open-Keeps q q _ _ (λ h. (h, λ k. k)) refl refl
  second_section-Keeps false q entries e = tried_again-Keeps (try_buffer q entries) q entries e

  pub stop_unless-Keeps :
      (stopped : Bool) (q : Queue A) → let r = stop_unless stopped q in Keeps q idle r.0 r.1
  stop_unless-Keeps true q = open-Keeps q q idle idle (λ h. (h, λ k. k)) refl refl
  stop_unless-Keeps false q = record {
    stays = λ h. (refl, λ k. k);
    stopping = λ k. inr refl;
    emptied = λ k. absurd cc;
  }

  pub flush_section-Keeps :
      (q : Queue A) (n : AfterFlush A) → let r = flush_section q n in Keeps q (flushing n) r.0 r.1
  flush_section-Keeps q n = record {
    stays = λ h. (h, λ k. refl);
    stopping = λ k. inl (sym (next_chunk-end q.max_batch_size q.buffer n).0 ∙ k);
    emptied = λ k. inr refl;
  }

  -- A stopped queue takes no chunk back.
  pub requeue_or_drop-Stays : (q : Queue A) (chunk : List A) → Stays q (requeue_or_drop q chunk)
  unfolding requeue_or_drop
  requeue_or_drop-Stays q chunk h = simp h (refl, λ k. k)
