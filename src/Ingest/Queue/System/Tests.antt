-- ===== src/Ingest/Queue/System/Tests.antt =====
-- A queue of capacity 4 with batches of 2 in front of a store of lists, with two callers.
use opentrace.Base.{
  ℕ, ◌+◌, ◌≡◌, ◌≤◌, ◌⊎◌, inl, inr, refl, List, [], ◌∷◌, ◌++◌, Bool, take, length, some, get_elem?,
  set, suc, zero, Result, ok,
}
use opentrace.Ingest.Queue.{new_queue, try_buffer}
use opentrace.Ingest.Queue.Retry.{recorded, confirmed}
use opentrace.Ingest.Queue.Accounting.{count}
use opentrace.Ingest.Queue.System.{
  Point, idle, ended, QueueSystem, start_queue, Reaches, here, step, call_enqueue, call_stop, close,
  call_flush, take_buffer, end_loop, leave, last_flush, insert, join, enqueue_section, stop_section,
}
use opentrace.Ingest.Queue.System.Conserved.{IsConserved, reached-IsConserved}
use opentrace.Ingest.Queue.System.Shutdown.{ended-delivered}
use opentrace.Ingest.Queue.System.Stops.{close-ended}
use opentrace.Ingest.Queue.System.Capacity.{reached-IsBounded}

-- A store that keeps the first entry of a batch only, as one does that samples.
abbrev sampled_insert : List ℕ → List ℕ → List ℕ × Result Bool ℕ
sampled_insert s es = (s ++ take 1 es, ok (length es))

abbrev noted_insert : List ℕ × List ℕ → List ℕ → (List ℕ × List ℕ) × Result Bool ℕ
noted_insert = recorded sampled_insert

abbrev first_state : QueueSystem ℕ (List ℕ × List ℕ)
first_state = start_queue 4 2 ([], []) 2

-- One entry is buffered, another caller stops the queue, the loop flushes a last time and ends, and
-- the call of Stop returns.
abbrev stopped_run : (t : QueueSystem ℕ (List ℕ × List ℕ)) × Reaches noted_insert first_state t
unfolding new_queue enqueue_section try_buffer stop_section
stopped_run = (
  _,
  step
      (step
        (step
          (step
            (step (step (step here (call_enqueue 1 7 [] refl)) (call_stop 2 refl)) (close 2 refl))
            (last_flush 0 refl refl))
          (take_buffer 0 end_loop refl))
        (insert 0 2 (7 ∷ []) [] end_loop refl))
      (join 2 refl refl),
)

reached-IsConserved_example : IsConserved confirmed first_state stopped_run.0
reached-IsConserved_example =
    reached-IsConserved sampled_insert 4 2 [] 2 stopped_run.0 stopped_run.1

all_out :
    (i : ℕ) (x : Point ℕ)
    → get_elem? (ended ∷ idle ∷ idle ∷ []) i ≡ some x
    → (x ≡ idle) ⊎ (x ≡ ended)
all_out zero x h = inr cc
all_out (suc zero) x h = inl cc
all_out (suc (suc zero)) x h = inl cc
all_out (suc (suc (suc i))) x h = absurd cc

ended-delivered_example :
    (lost : List ℕ) × (stopped_run.0.queue.drop_count ≡ length lost)
    × ((p : ℕ → Bool)
        → count p (confirmed stopped_run.0.store) + count p lost
          ≡ count p stopped_run.0.acknowledged)
unfolding new_queue enqueue_section try_buffer stop_section
ended-delivered_example =
    ended-delivered sampled_insert 4 2 [] 2 stopped_run.0 stopped_run.1 refl all_out

reached-IsBounded_example : length stopped_run.0.queue.buffer ≤ stopped_run.0.queue.max_queue_size
reached-IsBounded_example =
    reached-IsBounded noted_insert 4 2 ([], []) 2 stopped_run.0 stopped_run.1

-- What the store holds behind it.
stored_run : (stopped_run.0.store ≡ (7 ∷ [], 7 ∷ [])) × (stopped_run.0.acknowledged ≡ 7 ∷ [])
unfolding new_queue enqueue_section try_buffer stop_section
stored_run = (refl, refl)

-- The same up to the close of the channel, with the entry still in the buffer.
abbrev closed_run : (t : QueueSystem ℕ (List ℕ × List ℕ)) × Reaches noted_insert first_state t
unfolding new_queue enqueue_section try_buffer stop_section
closed_run =
    (_, step (step (step here (call_enqueue 1 7 [] refl)) (call_stop 2 refl)) (close 2 refl))

close-ended_example :
    (t : QueueSystem ℕ (List ℕ × List ℕ)) × Reaches noted_insert closed_run.0 t
    × (t.threads ≡ set closed_run.0.threads 0 ended)
    × (get_elem? t.threads 0 ≡ some ended)
unfolding new_queue enqueue_section try_buffer stop_section
close-ended_example = close-ended noted_insert 4 2 ([], []) 2 closed_run.0 closed_run.1 refl

-- A caller of Flush has taken the entry, and Stop returns before it is stored.
abbrev overtaken_run : (t : QueueSystem ℕ (List ℕ × List ℕ)) × Reaches noted_insert first_state t
unfolding new_queue enqueue_section try_buffer stop_section
overtaken_run = (
  _,
  step
      (step
        (step
          (step
            (step
              (step (step (step here (call_enqueue 1 7 [] refl)) (call_flush 1 refl))
                (take_buffer 1 leave refl))
              (call_stop 2 refl))
            (close 2 refl))
          (last_flush 0 refl refl))
        (take_buffer 0 end_loop refl))
      (join 2 refl refl),
)

overtaken_store :
    (overtaken_run.0.store ≡ ([], []))
    × (overtaken_run.0.acknowledged ≡ 7 ∷ [])
    × (get_elem? overtaken_run.0.threads 2 ≡ some idle)
unfolding new_queue enqueue_section try_buffer stop_section
overtaken_store = (refl, refl, refl)
