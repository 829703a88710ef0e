-- ===== src/Engine/Ring/Refine.antt =====
-- A ring buffer (engine/ring.go) as a view of the list of all that was pushed.
use opentrace.Base.{
  ℕ, zero, suc, ◌+◌, ◌-◌, ◌%◌, ◌≤◌, ◌<◌, ◌≡◌, refl, sym, ap, ◌∙◌, arith, List, [], ◌∷◌, ◌++◌, map,
  true, false, length, drop, get_or, ltb, ◌==◌, if◌then◌else◌, length-append, length-set,
  length-map, length-replicate, Bool-cases, inl, inr, append_assoc, append-nil,
}
use opentrace.Wal.Entry.{Entry, no_entry}
use opentrace.Engine.Ring.{
  ring_size, RingBuffer, new_ring_buffer, without_body, project, write_one, write_all, push,
  read_ring, snapshot,
}
use opentrace.Engine.Ring.Last.{
  last, drop_past, drop_at, get_or-set, get_or-append, last-append_last, last_append, map-drop,
}

-- The ring holds the latest entries of a history, each at its number modulo the size.
pub record Shows (rb : RingBuffer) (history : List Entry) : Type 0 where
  pub room : length rb.entries ≡ ring_size
  pub head_at : rb.head ≡ length history
  pub count_at : rb.count ≡ length history
  pub held :
      (i : ℕ)
      → i < length history
      → length history ≤ i + ring_size
      → get_or rb.entries (i % ring_size) no_entry ≡ get_or history i no_entry

-- Within the window, an entry has the place of the newest only if it is the newest.
held_lem :
    (len i : ℕ) (v x y : Entry)
    → i < len + 1
    → len + 1 ≤ i + ring_size
    → (i < len → x ≡ y)
    → (if i % ring_size == len % ring_size then v else x) ≡ (if i == len then v else y)
held_lem len i v x y before recent same = elim (Bool-cases (i == len)) [
  | inl e ↦ let p : i % ring_size == len % ring_size ≡ true = ground arith in rw (p, e) refl
  | inr e ↦
      let p : i % ring_size == len % ring_size ≡ false = ground arith in
      rw (p, e) (same (ground arith))
]

write_one-Shows :
    (rb : RingBuffer) (history : List Entry) (e : Entry)
    → Shows rb history
    → Shows (write_one rb e) (history ++ (e ∷ []))
write_one-Shows rb history e s =
    let longer = length-append history (e ∷ []) in
    record {
      room = length-set rb.entries (rb.head % ring_size) e ∙ s.room;
      head_at = omega (arith, s.head_at, longer);
      count_at = omega (arith, s.count_at, longer);
      held = λ i before recent.
          rw
            (
              get_or-set rb.entries (rb.head % ring_size) (i % ring_size) e no_entry
                  (omega (arith, s.room)),
              get_or-append history e no_entry i,
              s.head_at,
            )
            (held_lem (length history) i e (get_or rb.entries (i % ring_size) no_entry)
              (get_or history i no_entry) (omega (arith, longer)) (omega (arith, longer))
              (λ b. s.held i b (omega (arith, longer))));
    }

write_all-Shows :
    (rb : RingBuffer) (history es : List Entry)
    → Shows rb history
    → Shows (write_all rb es) (history ++ es)
unfolding write_all
write_all-Shows rb history [] s = rw (append-nil history) s
write_all-Shows rb history (e ∷ es) s =
    rw (append_assoc history (e ∷ []) es) at
      (write_all-Shows (write_one rb e) (history ++ (e ∷ [])) es (write_one-Shows rb history e s))

push-Shows :
    (rb : RingBuffer) (history batch : List Entry)
    → Shows rb history
    → Shows (push rb batch) (history ++ project batch)
unfolding push
push-Shows rb history batch s =
    let w = write_all-Shows rb history (project batch) s in
    record { room = w.room; head_at = w.head_at; count_at = w.count_at; held = w.held }

read_ring-drop :
    (rb : RingBuffer) (history : List Entry)
    → Shows rb history
    → (n start : ℕ) → start + n ≡ length history
    → n ≤ ring_size
    → read_ring rb.entries n start ≡ drop start history
unfolding read_ring
read_ring-drop rb history s zero start e le = sym (drop_past history start (omega arith))
read_ring-drop rb history s (suc n) start e le =
    rw
      (
        drop_at history start no_entry (omega arith),
        s.held start (omega arith) (omega arith),
        read_ring-drop rb history s n (start + 1) (omega arith) (omega arith),
      )
      refl

snapshot-last :
    (rb : RingBuffer) (history : List Entry)
    → Shows rb history
    → snapshot rb ≡ last ring_size history
unfolding snapshot last
snapshot-last rb history s = elim (Bool-cases (rb.count == 0)) [
  | inl e ↦ rw (e, drop_past history (length history - ring_size) (ground (arith, s.count_at))) refl
  | inr e ↦
      let n = (if ltb ring_size rb.count then ring_size else rb.count) in
      let start : rb.head - n ≡ length history - ring_size =
        ground (arith, s.count_at, s.head_at) in
      let read : read_ring rb.entries n (rb.head - n) ≡ drop (rb.head - n) history =
        read_ring-drop rb history s n (rb.head - n) (ground (arith, s.count_at, s.head_at))
          (ground arith) in
      rw e (read ∙ ap (λ (k : ℕ). drop k history) start)
]

project-last : (batch : List Entry) → project batch ≡ last ring_size (map without_body batch)
unfolding project last
project-last batch = elim (Bool-cases (ltb ring_size (length batch))) [
  | inl e ↦
      rw (e, map-drop without_body (length batch - ring_size) batch, length-map without_body batch)
        refl
  | inr e ↦
      let none_lost : length batch - ring_size ≡ 0 = ground arith in
      rw (e, length-map without_body batch, none_lost) refl
]

abbrev pub push_all : RingBuffer → List (List Entry) → RingBuffer
push_all rb [] = rb
push_all rb (batch ∷ batches) = push_all (push rb batch) batches

abbrev pub pushed : List (List Entry) → List Entry
pushed [] = []
pushed (batch ∷ batches) = map without_body batch ++ pushed batches

push_all-Shows :
    (batches : List (List Entry)) (rb : RingBuffer) (history shown : List Entry)
    → Shows rb shown
    → last ring_size shown ≡ last ring_size history
    → snapshot (push_all rb batches) ≡ last ring_size (history ++ pushed batches)
push_all-Shows [] rb history shown s same =
    rw (append-nil history) (snapshot-last rb shown s ∙ same)
push_all-Shows (batch ∷ batches) rb history shown s same =
    let b = map without_body batch in
    rw (append_assoc history b (pushed batches)) at (
      push_all-Shows batches (push rb batch) (history ++ b) (shown ++ project batch)
        (push-Shows rb shown batch s)
        (rw (project-last batch) (
          last-append_last ring_size shown b
          ∙ sym (last_append ring_size shown b)
          ∙ ap (λ (l : List Entry). last ring_size (l ++ b)) same
          ∙ last_append ring_size history b)))

new_ring_buffer-Shows : Shows new_ring_buffer []
unfolding new_ring_buffer
new_ring_buffer-Shows = record {
  room = length-replicate ring_size no_entry;
  head_at = refl;
  count_at = refl;
  held = λ i before recent. absurd (omega arith);
}

-- A ring buffer shows the end of what was ever pushed: after any batches, of any lengths, a
-- snapshot is the last 256 of all their entries, oldest first and without their bodies.
pub snapshot-push_all :
    (batches : List (List Entry))
    → snapshot (push_all new_ring_buffer batches) ≡ last ring_size (pushed batches)
snapshot-push_all batches = push_all-Shows batches new_ring_buffer [] [] new_ring_buffer-Shows refl
