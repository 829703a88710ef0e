-- ===== src/Engine/Id.antt =====
-- engine/id.go: an entry's number is made of its segment's hour, its chunk and its row. An int64 is its
-- two's complement word; chunks, rows and counts of entries are ints that are not negative.
pub mod Laws
use opentrace.Base.{ℕ, ◌+◌, ◌-◌, ◌*◌, ◌/◌, ◌%◌, Bool, leb, bit_and, bit_or, ltb, if◌then◌else◌}

abbrev pub row_mask : ℕ
row_mask = 0x7fffff

abbrev pub chunk_mask : ℕ
chunk_mask = 0xff

abbrev pub chunk_size : ℕ
chunk_size = 50000

abbrev pub max_chunks_per_segment : ℕ
max_chunks_per_segment = 256

abbrev pub max_entries_per_segment : ℕ
max_entries_per_segment = 12800000

-- `x << n` and `x >> n` on an int64, where `p` is `2 ^ n`; the second keeps the sign.
abbrev pub shift_left : ℕ → ℕ → ℕ
shift_left x p = x * p % 0x10000000000000000

abbrev pub shift_right : ℕ → ℕ → ℕ
shift_right x p =
    if ltb x 0x8000000000000000
    then x / p
    else 0x10000000000000000 - 0x10000000000000000 / p + x / p

unfoldable pub encode_id : ℕ → ℕ → ℕ → ℕ
encode_id segment_hour chunk_num row =
    bit_or
      (bit_or (shift_left segment_hour 0x80000000)
        (shift_left (bit_and chunk_num chunk_mask) 0x800000))
      (bit_and row row_mask)

-- The hour, the chunk and the row.
unfoldable pub decode_id : ℕ → ℕ × ℕ × ℕ
decode_id id =
    (shift_right id 0x80000000, bit_and (shift_right id 0x800000) chunk_mask, bit_and id row_mask)

unfoldable pub id_for_position : ℕ → ℕ → ℕ
unfolding encode_id
id_for_position segment_hour entry_index =
    encode_id segment_hour (entry_index / chunk_size) (entry_index % chunk_size)

unfoldable pub segment_has_room : ℕ → ℕ → Bool
segment_has_room have n = leb (have + n) max_entries_per_segment
