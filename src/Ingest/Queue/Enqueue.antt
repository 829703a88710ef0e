-- ===== src/Ingest/Queue/Enqueue.antt =====
-- Enqueue and Stop as a whole (internal/ingest/queue.go): what their results say of the entries.
use opentrace.Base.{
  ℕ, ◌+◌, ◌<◌, ◌≡◌, refl, ap, List, [], ◌∷◌, ◌++◌, arith, Bool, true, false, leb, length,
  length-append, Option, none, some, Bool-cases, inl, inr, Result, ok, err,
}
use opentrace.Ingest.Queue.{
  Queue, try_buffer, flush, enqueue_retried, enqueue_flushed, enqueue_tried, enqueue_some,
  flush_if_full, insert_synchronously, enqueue,
}
use opentrace.Ingest.Queue.Retry.{IsLog, recorded, confirmed, recorded-IsLog}
use opentrace.Ingest.Queue.Bounds.{flush-Follows, try_buffer-eq-some}
use opentrace.Ingest.Queue.Accounting.{Accounts, count, count-append, flush-Accounts}

-- The entries that a result of Enqueue answers for: all of the batch, or none of it.
abbrev pub accepted : {A E : Type 0} → Result E ℕ → List A → List A
accepted (ok n) entries = entries
accepted (err e) entries = []

module _ {A S E : Type 0} (batch_insert : S → List A → S × Result E ℕ) (stored : S → List A)
    (log : IsLog batch_insert stored) where
  synchronous-Accounts :
      (q : Queue A) (s : S) (entries : List A)
      → let r = insert_synchronously batch_insert q s entries in
        Accounts stored (accepted r.2 entries) q s r.0 r.1
  unfolding insert_synchronously
  synchronous-Accounts q s entries = answered (batch_insert s entries).1 refl
    where
      answered :
          (r : Result E ℕ)
          → (batch_insert s entries).1 ≡ r
          → Accounts stored (accepted r entries) q s q (batch_insert s entries).0
      answered (ok n) e = record {
        lost = [];
        counted = omega arith;
        kept = λ p. omega (
          arith,
          ap (λ t. count p t) (log.on_ok s entries n e),
          count-append p (stored s) entries,
        );
      }
      answered (err x) e = record {
        lost = [];
        counted = omega arith;
        kept = λ p. omega (arith, ap (λ t. count p t) (log.on_err s entries x e));
      }

  flush_if_full-Accounts :
      (q : Queue A) (s : S)
      → 0 < q.max_batch_size
      → let r = flush_if_full batch_insert q s in Accounts stored [] q s r.0 r.1
  unfolding flush_if_full
  flush_if_full-Accounts q s b = elim (Bool-cases (leb q.max_batch_size (length q.buffer))) [
    | inl full ↦ rw full (flush-Accounts batch_insert stored log q s b)
    | inr other ↦ rw other (record { lost = []; counted = omega arith; kept = λ p. omega arith })
  ]

  -- Entries that went into the buffer, and the flush after it.
  buffered-Accounts :
      (q b : Queue A) (s : S) (entries : List A)
      → try_buffer q entries ≡ some b
      → 0 < q.max_batch_size
      → let r = flush_if_full batch_insert b s in Accounts stored entries q s r.0 r.1
  buffered-Accounts q b s entries e pos =
      let appended = (try_buffer-eq-some q b entries e).1 in
      let size = ap (λ (r : Queue A). r.max_batch_size) appended in
      let a = flush_if_full-Accounts b s (omega (arith, size)) in
      record {
        lost = a.lost;
        counted = omega (arith, a.counted, ap (λ (r : Queue A). r.drop_count) appended);
        kept = λ p. omega (
          arith,
          a.kept p,
          ap (λ (r : Queue A). count p r.buffer) appended,
          count-append p q.buffer entries,
        );
      }

  retried-Accounts :
      (o : Option (Queue A)) (q : Queue A) (s : S) (entries : List A)
      → try_buffer q entries ≡ o
      → 0 < q.max_batch_size
      → let r = enqueue_retried batch_insert o q s entries in
        Accounts stored (accepted r.2 entries) q s r.0 r.1
  retried-Accounts none q s entries e pos = synchronous-Accounts q s entries
  retried-Accounts (some b) q s entries e pos = buffered-Accounts q b s entries e pos

  flushed-Accounts :
      (stopped : Bool) (q : Queue A) (s : S) (entries : List A)
      → 0 < q.max_batch_size
      → let r = enqueue_flushed batch_insert stopped q s entries in
        Accounts stored (accepted r.2 entries) q s r.0 r.1
  flushed-Accounts true q s entries pos = synchronous-Accounts q s entries
  flushed-Accounts false q s entries pos =
      retried-Accounts (try_buffer q entries) q s entries refl pos

  -- A flush in front of the rest.
  after_flush :
      (q : Queue A) (s : S) (new : List A) (q' : Queue A) (s' : S)
      → 0 < q.max_batch_size
      → (let flushed = flush batch_insert q s in Accounts stored new flushed.0 flushed.1 q' s')
      → Accounts stored new q s q' s'
  after_flush q s new q' s' pos b =
      let a = flush-Accounts batch_insert stored log q s pos in
      record {
        lost = a.lost ++ b.lost;
        counted = omega (arith, a.counted, b.counted, length-append a.lost b.lost);
        kept = λ p. omega (arith, a.kept p, b.kept p, count-append p a.lost b.lost);
      }

  tried-Accounts :
      (o : Option (Queue A)) (q : Queue A) (s : S) (entries : List A)
      → try_buffer q entries ≡ o
      → 0 < q.max_batch_size
      → let r = enqueue_tried batch_insert o q s entries in
        Accounts stored (accepted r.2 entries) q s r.0 r.1
  tried-Accounts none q s entries e pos =
      let over = record q { overflow_count = q.overflow_count + 1 } in
      let flushed = flush batch_insert over s in
      let size = (flush-Follows batch_insert over s).same_batch_size in
      let r = enqueue_flushed batch_insert flushed.0.stopped flushed.0 flushed.1 entries in
      let a =
        after_flush over s (accepted r.2 entries) r.0 r.1 pos
          (flushed-Accounts flushed.0.stopped flushed.0 flushed.1 entries (omega (arith, size))) in
      record { lost = a.lost; counted = a.counted; kept = a.kept }
  tried-Accounts (some b) q s entries e pos = buffered-Accounts q b s entries e pos

  some-Accounts :
      (stopped : Bool) (q : Queue A) (s : S) (entries : List A)
      → 0 < q.max_batch_size
      → let r = enqueue_some batch_insert stopped q s entries in
        Accounts stored (accepted r.2 entries) q s r.0 r.1
  some-Accounts true q s entries pos = synchronous-Accounts q s entries
  some-Accounts false q s entries pos = tried-Accounts (try_buffer q entries) q s entries refl pos

  log-Accounts :
      (q : Queue A) (s : S) (entries : List A)
      → 0 < q.max_batch_size
      → let r = enqueue batch_insert q s entries in
        Accounts stored (accepted r.2 entries) q s r.0 r.1
  unfolding enqueue
  log-Accounts q s [] pos = record { lost = []; counted = omega arith; kept = λ p. omega arith }
  log-Accounts q s (e ∷ es) pos = some-Accounts q.stopped q s (e ∷ es) pos

module _ {A S E : Type 0} (batch_insert : S → List A → S × Result E ℕ) where
  -- Whatever the store does with a batch, with a positive batch size, Enqueue is all or nothing:
  -- the entries of the calls of BatchInsert that returned no error and those in the buffer after
  -- it, with those that flushes gave up and the drop counter counts, are as a multiset the ones
  -- before it, with the whole batch when it returns a count, and with nothing of the batch when it
  -- returns an error.
  pub enqueue-Accounts :
      (q : Queue A) (s : S × List A) (entries : List A)
      → 0 < q.max_batch_size
      → let r = enqueue (recorded batch_insert) q s entries in
        Accounts confirmed (accepted r.2 entries) q s r.0 r.1
  enqueue-Accounts q s entries pos =
      log-Accounts (recorded batch_insert) confirmed (recorded-IsLog batch_insert) q s entries pos
