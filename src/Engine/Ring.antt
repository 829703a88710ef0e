-- ===== src/Engine/Ring.antt =====
-- engine/ring.go: the ring of the latest entries that tail readers start from, and its subscribers. A
-- channel is the list of the batches that wait in it. Each call is one step: Push takes its two
-- locks one after the other, and what runs between its critical sections is not modelled.
pub mod Last
pub mod Refine
pub mod Tail
use opentrace.Base.{
  ℕ, zero, suc, ◌+◌, ◌-◌, ◌%◌, List, [], ◌∷◌, ◌++◌, map, Bool, true, false, length, drop, get_or,
  set, replicate, ltb, ◌==◌, if◌then◌else◌, min,
}
use opentrace.Wal.Entry.{Entry, no_entry}

abbrev pub ring_size : ℕ
ring_size = 256

abbrev pub channel_size : ℕ
channel_size = 16

pub record Subscriber : Type 0 where
  pub id : ℕ
  pub waiting : List (List Entry)

pub record RingBuffer : Type 0 where
  pub entries : List Entry
  pub head : ℕ
  pub count : ℕ
  pub subs : List Subscriber
  pub next_sub : ℕ

unfoldable pub new_ring_buffer : RingBuffer
new_ring_buffer = record {
  entries = replicate ring_size no_entry;
  head = 0;
  count = 0;
  subs = [];
  next_sub = 0;
}

abbrev pub without_body : Entry → Entry
without_body e = record e { body = [] }

-- What is kept of a batch: its newest entries, without their bodies.
unfoldable pub project : List Entry → List Entry
project batch =
    map without_body
      (if ltb ring_size (length batch) then drop (length batch - ring_size) batch else batch)

-- One round of the loop under the lock.
abbrev pub write_one : RingBuffer → Entry → RingBuffer
write_one rb e = record rb {
  entries = set rb.entries (rb.head % ring_size) e;
  head = rb.head + 1;
  count = rb.count + 1;
}

unfoldable pub write_all : RingBuffer → List Entry → RingBuffer
write_all rb [] = rb
write_all rb (e ∷ es) = write_all (write_one rb e) es

-- A batch that does not fit is dropped.
unfoldable pub offer : List Entry → Subscriber → Subscriber
offer batch s =
    if ltb (length s.waiting) channel_size
    then record s { waiting = s.waiting ++ (batch ∷ []) }
    else s

unfoldable pub push : RingBuffer → List Entry → RingBuffer
unfolding project write_all offer
push rb batch =
    let projected = project batch in
    let written = write_all rb projected in
    record written { subs = map (λ s. offer projected s) written.subs }

-- `n` entries of the ring from a place on.
unfoldable pub read_ring : List Entry → ℕ → ℕ → List Entry
read_ring entries zero start = []
read_ring entries (suc n) start =
    get_or entries (start % ring_size) no_entry ∷ read_ring entries n (start + 1)

unfoldable pub snapshot : RingBuffer → List Entry
unfolding read_ring
snapshot rb =
    if rb.count == 0
    then []
    else (let n = (if ltb ring_size rb.count then ring_size else rb.count) in
        read_ring rb.entries n (rb.head - n))

-- The number under which the channel is kept, and the ring with the channel.
unfoldable pub subscribe : RingBuffer → ℕ × RingBuffer
subscribe rb = (
  rb.next_sub,
  record rb {
    subs = record { id = rb.next_sub; waiting = [] } ∷ rb.subs;
    next_sub = rb.next_sub + 1;
  },
)

unfoldable pub remove_sub : ℕ → List Subscriber → List Subscriber
remove_sub id [] = []
remove_sub id (s ∷ ss) = let rest = remove_sub id ss in if s.id == id then rest else s ∷ rest

unfoldable pub unsubscribe : ℕ → RingBuffer → RingBuffer
unfolding remove_sub
unsubscribe id rb = record rb { subs = remove_sub id rb.subs }

unfoldable pub snapshot_and_subscribe : RingBuffer → List Entry × ℕ × RingBuffer
unfolding snapshot subscribe
snapshot_and_subscribe rb = let (id, rb') = subscribe rb in (snapshot rb, id, rb')
