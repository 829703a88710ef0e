-- ===== src/Ingest/Queue/System/Moves.antt =====
-- What each step of the queue's goroutines does to the entries (internal/ingest/queue.go).
use opentrace.Base.{
  ℕ, suc, ◌+◌, ◌≡◌, refl, ap, arith, List, [], Bool, true, false, length, Option, none, some,
  Result, ok, err,
}
use opentrace.Ingest.Queue.{Queue, try_buffer, requeue_or_drop}
use opentrace.Ingest.Queue.Retry.{IsLog}
use opentrace.Ingest.Queue.Bounds.{try_buffer-eq-some}
use opentrace.Ingest.Queue.Enqueue.{accepted}
use opentrace.Ingest.Queue.Accounting.{count, count-append, requeue_or_drop-Accounts}
use opentrace.Ingest.Queue.System.{
  AfterFlush, Point, idle, inserting, requeueing, retrying, storing, tried_first, tried_again,
  first_section, second_section, stop_unless, enqueue_section, retry_section, flush_section,
  stop_section, inserted, counted_insert,
}
use opentrace.Ingest.Queue.System.InFlight.{held, held-next_chunk, held-after_buffered, held-failed}

module _ {A S : Type 0} (stored : S → List A) where
  -- What a step does to the entries: those of `new` are acknowledged with it.
  pub record Moves (q : Queue A) (st : S) (x : Point A) (q' : Queue A) (st' : S) (y : Point A)
      (new : List A) : Type 0 where
    pub given_up : List A
    pub counted : q'.drop_count ≡ q.drop_count + length given_up
    pub kept :
        (p : A → Bool)
        → count p (stored st') + (count p q'.buffer + (count p (held y) + count p given_up))
          ≡ count p (stored st) + (count p q.buffer + (count p (held x) + count p new))

  -- A step that moves no entry.
  pub still-Moves :
      (q q' : Queue A) (st : S) (x y : Point A)
      → q'.buffer ≡ q.buffer
      → q'.drop_count ≡ q.drop_count
      → ((p : A → Bool) → count p (held y) ≡ count p (held x))
      → Moves q st x q' st y []
  still-Moves q q' st x y b d h = record {
    given_up = [];
    counted = omega (arith, d);
    kept = λ p. omega (arith, h p, ap (λ l. count p l) b);
  }

  buffered-Moves :
      (q b : Queue A) (st : S) (x y : Point A) (entries : List A)
      → try_buffer q entries ≡ some b
      → ((p : A → Bool) → count p (held x) ≡ 0)
      → ((p : A → Bool) → count p (held y) ≡ 0)
      → Moves q st x b st y entries
  buffered-Moves q b st x y entries e none_x none_y =
      let appended = (try_buffer-eq-some q b entries e).1 in
      record {
        given_up = [];
        counted = omega (arith, ap (λ (r : Queue A). r.drop_count) appended);
        kept = λ p. omega (
          arith,
          ap (λ (r : Queue A). count p r.buffer) appended,
          count-append p q.buffer entries,
          none_x p,
          none_y p,
        );
      }

  tried_first-Moves :
      (o : Option (Queue A)) (q : Queue A) (st : S) (entries : List A)
      → try_buffer q entries ≡ o
      → let r = tried_first o q entries in Moves q st idle r.0 st r.1 r.2
  tried_first-Moves none q st entries e = still-Moves q _ st idle _ refl refl (λ p. refl)
  tried_first-Moves (some b) q st entries e =
      buffered-Moves q b st idle _ entries e (λ p. refl) (λ p. held-after_buffered p b)

  tried_again-Moves :
      (o : Option (Queue A)) (q : Queue A) (st : S) (entries : List A)
      → try_buffer q entries ≡ o
      → let r = tried_again o q entries in Moves q st (retrying entries) r.0 st r.1 r.2
  tried_again-Moves none q st entries e = still-Moves q q st _ _ refl refl (λ p. refl)
  tried_again-Moves (some b) q st entries e =
      buffered-Moves q b st (retrying entries) _ entries e (λ p. refl)
        (λ p. held-after_buffered p b)

  first_section-Moves :
      (stopped : Bool) (q : Queue A) (st : S) (entries : List A)
      → let r = first_section stopped q entries in Moves q st idle r.0 st r.1 r.2
  first_section-Moves true q st entries = still-Moves q q st idle _ refl refl (λ p. refl)
  first_section-Moves false q st entries =
      tried_first-Moves (try_buffer q entries) q st entries refl

  second_section-Moves :
      (stopped : Bool) (q : Queue A) (st : S) (entries : List A)
      → let r = second_section stopped q entries in Moves q st (retrying entries) r.0 st r.1 r.2
  second_section-Moves true q st entries =
      still-Moves q q st (retrying entries) _ refl refl (λ p. refl)
  second_section-Moves false q st entries =
      tried_again-Moves (try_buffer q entries) q st entries refl

  pub enqueue_section-Moves :
      (q : Queue A) (st : S) (entries : List A)
      → let r = enqueue_section q entries in Moves q st idle r.0 st r.1 r.2
  unfolding enqueue_section
  enqueue_section-Moves q st entries = first_section-Moves q.stopped q st entries

  pub retry_section-Moves :
      (q : Queue A) (st : S) (entries : List A)
      → let r = retry_section q entries in Moves q st (retrying entries) r.0 st r.1 r.2
  unfolding retry_section
  retry_section-Moves q st entries = second_section-Moves q.stopped q st entries

  stop_unless-Moves :
      (stopped : Bool) (q : Queue A) (st : S)
      → let r = stop_unless stopped q in Moves q st idle r.0 st r.1 []
  stop_unless-Moves true q st = still-Moves q q st idle idle refl refl (λ p. refl)
  stop_unless-Moves false q st = still-Moves q _ st idle _ refl refl (λ p. refl)

  pub stop_section-Moves :
      (q : Queue A) (st : S) → let r = stop_section q in Moves q st idle r.0 st r.1 []
  unfolding stop_section
  stop_section-Moves q st = stop_unless-Moves q.stopped q st

  pub flush_section-Moves :
      (q : Queue A) (st : S) (x : Point A) (n : AfterFlush A)
      → ((p : A → Bool) → count p (held x) ≡ 0)
      → let r = flush_section q n in Moves q st x r.0 st r.1 []
  flush_section-Moves q st x n none_x = record {
    given_up = [];
    counted = omega arith;
    kept = λ p. omega (arith, none_x p, held-next_chunk p q.max_batch_size q.buffer n);
  }

  pub requeue-Moves :
      (q : Queue A) (st : S) (chunk rest : List A) (n : AfterFlush A) (y : Point A)
      → ((p : A → Bool) → count p (held y) ≡ count p rest)
      → Moves q st (requeueing chunk rest n) (requeue_or_drop q chunk) st y []
  requeue-Moves q st chunk rest n y h =
      let a = requeue_or_drop-Accounts stored q st chunk in
      record {
        given_up = a.lost;
        counted = a.counted;
        kept = λ p. omega (arith, a.kept p, h p, count-append p chunk rest);
      }

module _ {A S E : Type 0} (batch_insert : S → List A → S × Result E ℕ) (stored : S → List A)
    (log : IsLog batch_insert stored) where
  -- A chunk that is stored, or is not.
  pub insert-Moves :
      (r : Result E ℕ) (q : Queue A) (st : S) (left : ℕ) (chunk rest : List A) (n : AfterFlush A)
      → (batch_insert st chunk).1 ≡ r
      → Moves stored q st
          (inserting (suc left) chunk rest n)
          (counted_insert q)
          (batch_insert st chunk).0
          (inserted r q.max_batch_size left chunk rest n)
          []
  insert-Moves (ok k) q st left chunk rest n e = record {
    given_up = [];
    counted = omega arith;
    kept = λ p. omega (
      arith,
      ap (λ l. count p l) (log.on_ok st chunk k e),
      count-append p (stored st) chunk,
      count-append p chunk rest,
      held-next_chunk p q.max_batch_size rest n,
    );
  }
  insert-Moves (err x) q st left chunk rest n e = record {
    given_up = [];
    counted = omega arith;
    kept = λ p. omega (
      arith,
      ap (λ l. count p l) (log.on_err st chunk x e),
      count-append p chunk rest,
      held-failed p left chunk rest n,
    );
  }

  pub store_whole-Moves :
      (r : Result E ℕ) (q : Queue A) (st : S) (entries : List A)
      → (batch_insert st entries).1 ≡ r
      → Moves stored q st (storing entries) q (batch_insert st entries).0 idle (accepted r entries)
  store_whole-Moves (ok k) q st entries e = record {
    given_up = [];
    counted = omega arith;
    kept = λ p.
        omega (
          arith,
          ap (λ l. count p l) (log.on_ok st entries k e),
          count-append p (stored st) entries,
        );
  }
  store_whole-Moves (err x) q st entries e = record {
    given_up = [];
    counted = omega arith;
    kept = λ p. omega (arith, ap (λ l. count p l) (log.on_err st entries x e));
  }
