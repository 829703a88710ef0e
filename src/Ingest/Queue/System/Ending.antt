-- ===== src/Ingest/Queue/System/Ending.antt =====
-- The loop of a queue goes on by its own steps to the end of a Flush (internal/ingest/queue.go).
use opentrace.Base.{
  ℕ, zero, suc, ◌≤◌, min, ◌≡◌, refl, ap, sym, ◌∙◌, subst, arith, List, [], ◌∷◌, length, length-drop,
  take, drop, some, get_elem?, set, Result, ok, err,
}
use opentrace.Ingest.Queue.{Queue}
use opentrace.Ingest.Queue.Bounds.{requeue_or_drop-Follows}
use opentrace.Ingest.Queue.System.{
  AfterFlush, Point, flushing, inserting, requeueing, place_after, next_chunk, inserted, failed,
  QueueSystem, move_on, QueueStep, take_buffer, insert, requeue, Reaches, here, step,
}

module _ {A S E : Type 0} (batch_insert : S → List A → S × Result E ℕ) where
  reaches_on :
      (r s t : QueueSystem A S)
      → Reaches batch_insert r s
      → Reaches batch_insert s t
      → Reaches batch_insert r t
  reaches_on r s t a here = a
  reaches_on r s t a (step b c) = step (reaches_on r s _ a b) c

  set-set : (xs : List (Point A)) (x y : Point A) → set (set xs 0 x) 0 y ≡ set xs 0 y
  set-set [] x y = refl
  set-set (z ∷ xs) x y = refl

  get_elem?-set_head :
      (xs : List (Point A)) (x y : Point A)
      → get_elem? xs 0 ≡ some x
      → get_elem? (set xs 0 y) 0 ≡ some y
  get_elem?-set_head [] x y h = absurd cc
  get_elem?-set_head (z ∷ xs) x y h = refl

  -- The loop alone goes on to a place.
  pub record GoesTo (s : QueueSystem A S) (y : Point A) : Type 0 where
    pub end : QueueSystem A S
    pub run : Reaches batch_insert s end
    pub moved : end.threads ≡ set s.threads 0 y
    pub at : get_elem? end.threads 0 ≡ some y
    pub same_closed : end.closed ≡ s.closed
    pub same_size : end.queue.max_batch_size ≡ s.queue.max_batch_size

  pub goes_on :
      (s : QueueSystem A S) (x y : Point A) → (g : GoesTo s x) → GoesTo g.end y → GoesTo s y
  goes_on s x y g h = record {
    end = h.end;
    run = reaches_on s g.end h.end g.run h.run;
    moved = h.moved ∙ ap (λ l. set l 0 y) g.moved ∙ set-set s.threads x y;
    at = h.at;
    same_closed = h.same_closed ∙ g.same_closed;
    same_size = h.same_size ∙ g.same_size;
  }

  pub stands : (s : QueueSystem A S) (x : Point A) → get_elem? s.threads 0 ≡ some x → GoesTo s x
  stands s x h = record {
    end = s;
    run = here;
    moved = kept s.threads h;
    at = h;
    same_closed = refl;
    same_size = refl;
  }
    where
      kept : (xs : List (Point A)) → get_elem? xs 0 ≡ some x → xs ≡ set xs 0 x
      kept [] k = absurd cc
      kept (z ∷ xs) k = let e : z ≡ x = cc in ap (λ y. y ∷ xs) e

  -- One step of it.
  pub one_step :
      (s : QueueSystem A S) (x y : Point A) (q : Queue A) (st : S)
      → get_elem? s.threads 0 ≡ some x
      → q.max_batch_size ≡ s.queue.max_batch_size
      → QueueStep batch_insert s (move_on s 0 y q st [])
      → GoesTo s y
  one_step s x y q st h size t = record {
    end = move_on s 0 y q st [];
    run = step here t;
    moved = refl;
    at = get_elem?-set_head s.threads x y h;
    same_closed = refl;
    same_size = size;
  }

  -- A chunk is stored, put back or dropped within its attempts.
  pub requeues :
      (s : QueueSystem A S) (chunk rest : List A) (n : AfterFlush A)
      → get_elem? s.threads 0 ≡ some (requeueing chunk rest n)
      → GoesTo s (next_chunk s.queue.max_batch_size rest n)
  requeues s chunk rest n h =
      one_step s (requeueing chunk rest n) _ _ _ h
        (requeue_or_drop-Follows s.queue chunk).same_batch_size (requeue 0 chunk rest n h)

  -- Behind a BatchInsert, where a failure is followed up.
  settled :
      (r : Result E ℕ) (left : ℕ) (s : QueueSystem A S) (chunk rest : List A) (n : AfterFlush A)
      → ((t : QueueSystem A S)
          → get_elem? t.threads 0 ≡ some (failed left chunk rest n)
          → GoesTo t (next_chunk t.queue.max_batch_size rest n))
      → GoesTo s (inserted r s.queue.max_batch_size left chunk rest n)
      → GoesTo s (next_chunk s.queue.max_batch_size rest n)
  settled (ok k) left s chunk rest n follow g = g
  settled (err e) left s chunk rest n follow g =
      goes_on s _ _ g
        (subst (λ m. GoesTo g.end (next_chunk m rest n)) g.same_size (follow g.end g.at))

  pub inserts :
      (left : ℕ) (s : QueueSystem A S) (chunk rest : List A) (n : AfterFlush A)
      → get_elem? s.threads 0 ≡ some (inserting (suc left) chunk rest n)
      → GoesTo s (next_chunk s.queue.max_batch_size rest n)
  inserts zero s chunk rest n h =
      settled (batch_insert s.store chunk).1 zero s chunk rest n
        (λ t at. requeues t chunk rest n at)
        (one_step s (inserting 1 chunk rest n) _ _ _ h refl (insert 0 zero chunk rest n h))
  inserts (suc left) s chunk rest n h =
      settled (batch_insert s.store chunk).1 (suc left) s chunk rest n
        (λ t at. inserts left t chunk rest n at)
        (one_step s (inserting (suc (suc left)) chunk rest n) _ _ _ h refl
          (insert 0 (suc left) chunk rest n h))

  -- The loop of flushBatch ends, since every chunk has an entry.
  pub chunks :
      (fuel : ℕ) (s : QueueSystem A S) (l : List A) (n : AfterFlush A)
      → length l ≤ fuel
      → 1 ≤ s.queue.max_batch_size
      → get_elem? s.threads 0 ≡ some (next_chunk s.queue.max_batch_size l n)
      → GoesTo s (place_after n)
  chunks fuel s [] n le positive h = stands s (place_after n) h
  chunks zero s (e ∷ es) n le positive h = absurd (omega arith)
  chunks (suc fuel) s (e ∷ es) n le positive h =
      let end = min s.queue.max_batch_size (length (e ∷ es)) in
      let rest = drop end (e ∷ es) in
      let g = inserts 2 s (take end (e ∷ es)) rest n h in
      goes_on s _ _ g (
        chunks fuel g.end rest n (omega (arith, length-drop end (e ∷ es)))
          (omega (arith, g.same_size))
          (subst (λ m. get_elem? g.end.threads 0 ≡ some (next_chunk m rest n)) (sym g.same_size)
            g.at))

  pub flushes :
      (s : QueueSystem A S) (n : AfterFlush A)
      → 1 ≤ s.queue.max_batch_size
      → get_elem? s.threads 0 ≡ some (flushing n)
      → GoesTo s (place_after n)
  flushes s n positive h =
      let g = one_step s (flushing n) _ _ _ h refl (take_buffer 0 n h) in
      goes_on s _ _ g (
        chunks (length s.queue.buffer) g.end s.queue.buffer n (omega arith)
          (omega (arith, g.same_size))
          (subst (λ m. get_elem? g.end.threads 0 ≡ some (next_chunk m s.queue.buffer n))
            (sym g.same_size) g.at))
