-- ===== src/Ingest/Queue/Tests.antt =====
-- A queue of internal/ingest/queue.go in front of a store that accepts batches of at most two entries.
use opentrace.Base.{
  ℕ, ◌≡◌, refl, List, [], ◌∷◌, ◌++◌, arith, Bool, true, false, length, leb, if◌then◌else◌, Result,
  ok, err,
}
use opentrace.Ingest.Queue.{Queue, enqueue, insert_with_retry}
use opentrace.Ingest.Queue.Retry.{recorded, confirmed}
use opentrace.Ingest.Queue.Accounting.{Accounts}
use opentrace.Ingest.Queue.Enqueue.{accepted, enqueue-Accounts}

-- The store is a list of entries. It stores a batch of more than two and then fails, as one does
-- whose sync fails behind its write.
abbrev small_insert : List ℕ → List ℕ → List ℕ × Result Bool ℕ
small_insert s es = (s ++ es, if leb (length es) 2 then ok (length es) else err true)

abbrev small_queue : Queue ℕ
small_queue = record {
  max_queue_size = 4;
  max_batch_size = 3;
  buffer = 1 ∷ 2 ∷ [];
  stopped = false;
  flush_count = 0;
  overflow_count = 0;
  drop_count = 0;
}

-- Three entries make the buffer overflow. The flush that makes room stores what it held; the flush of
-- the full buffer behind it stores them with each of its attempts.
overflow_flushes :
    (enqueue small_insert small_queue [] (3 ∷ 4 ∷ 5 ∷ [])).1
    ≡ 1 ∷ 2 ∷ 3 ∷ 4 ∷ 5 ∷ 3 ∷ 4 ∷ 5 ∷ 3 ∷ 4 ∷ 5 ∷ []
unfolding enqueue insert_with_retry
overflow_flushes = refl

enqueue-Accounts_example :
    (let r = enqueue (recorded small_insert) small_queue ([], []) (3 ∷ 4 ∷ 5 ∷ []) in
      Accounts confirmed (accepted r.2 (3 ∷ 4 ∷ 5 ∷ [])) small_queue ([], []) r.0 r.1)
enqueue-Accounts_example =
    enqueue-Accounts small_insert small_queue ([], []) (3 ∷ 4 ∷ 5 ∷ []) (omega arith)
