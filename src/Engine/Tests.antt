-- ===== src/Engine/Tests.antt =====
-- Numbers of entries, the ring buffer and the sizes of columns (internal/logstore/engine) on concrete values.
use opentrace.Base.{ℕ, ◌≡◌, ◌<◌, refl, List, [], ◌∷◌, arith, some, none, inl, inr, map, take, codes}
use opentrace.Wal.Entry.{Entry, no_entry}
use opentrace.Engine.Id.{encode_id, decode_id, id_for_position, segment_has_room}
use opentrace.Engine.Id.Laws.{decode_id-encode_id, id_for_position-lt}
use opentrace.Engine.Ring.{
  ring_size, channel_size, new_ring_buffer, project, snapshot, snapshot_and_subscribe, push,
  unsubscribe, subscribe, write_all, remove_sub,
}
use opentrace.Engine.Ring.Last.{last}
use opentrace.Engine.Ring.Refine.{push_all, pushed, snapshot-push_all}
use opentrace.Engine.Ring.Tail.{waiting_of, snapshot_and_subscribe_lem}
use opentrace.Engine.ColumnCache.{size_of_strings, size_of_bools}

-- 2026-04-04T12, an hour before the epoch, and a row too large for its field.
decode_id-encode_id_example : decode_id (encode_id 492420 3 8388609) ≡ (492420, 3, 1)
decode_id-encode_id_example = decode_id-encode_id 492420 3 8388609 (inl (omega arith))

decode_id_negative : decode_id (encode_id 0xffffffffffffffff 3 7) ≡ (0xffffffffffffffff, 3, 7)
decode_id_negative = decode_id-encode_id 0xffffffffffffffff 3 7 (inr (omega arith, omega arith))

id_for_position-lt_example : id_for_position 492420 12799999 < id_for_position 492421 0
unfolding segment_has_room
id_for_position-lt_example =
    id_for_position-lt 492420 492421 12799990 0 10 1 12799999 0 (omega arith) refl (omega arith)
      refl (omega arith) (inl (omega arith))

abbrev numbered : ℕ → Entry
numbered i = record no_entry { id = i }

abbrev with_body : ℕ → Entry
with_body i = record no_entry { id = i; body = codes "body" }

abbrev early_batches : List (List Entry)
early_batches = (with_body 1 ∷ with_body 2 ∷ []) ∷ [] ∷ (numbered 3 ∷ []) ∷ []

snapshot-push_all_example :
    snapshot (push_all new_ring_buffer early_batches) ≡ last ring_size (pushed early_batches)
snapshot-push_all_example = snapshot-push_all early_batches

pushed_run : last ring_size (pushed early_batches) ≡ numbered 1 ∷ numbered 2 ∷ numbered 3 ∷ []
unfolding last
pushed_run = refl

snapshot_and_subscribe_lem_example :
    let seen = snapshot_and_subscribe (push_all new_ring_buffer early_batches) in
    (seen.0 ≡ last ring_size (pushed early_batches))
    × (waiting_of seen.1 (push_all seen.2 ((with_body 4 ∷ []) ∷ [])).subs
        ≡ some (take channel_size (map project ((with_body 4 ∷ []) ∷ []))))
snapshot_and_subscribe_lem_example =
    snapshot_and_subscribe_lem early_batches ((with_body 4 ∷ []) ∷ [])

-- A channel that is closed gets nothing more.
unsubscribe_run :
    waiting_of 0 (push (unsubscribe 0 (subscribe new_ring_buffer).1) (numbered 1 ∷ [])).subs ≡ none
unfolding push unsubscribe subscribe new_ring_buffer waiting_of write_all project remove_sub
unsubscribe_run = refl

size_of_strings_run : size_of_strings (codes "ab" ∷ codes "abcd" ∷ []) ≡ 102
unfolding size_of_strings
size_of_strings_run = refl

size_of_bools_run : size_of_bools (none ∷ none ∷ []) ≡ 64
unfolding size_of_bools
size_of_bools_run = refl
