-- ===== src/Encoding/Sparse.antt =====
-- encoding/sparse.go: columns that are mostly null, as a bitmap of the values that are there and
-- those values. The columns of strings and of int64s; a nil pointer is `none`.
pub mod Bitmap
pub mod Blobs
pub mod Bools
pub mod Loops
pub mod Marks
pub mod RoundTrip
use opentrace.Base.{
  ℕ, zero, suc, ◌+◌, ◌/◌, ◌%◌, ◌^◌, List, [], ◌∷◌, ◌++◌, Bytes, Bool, true, false, not, ◌&&◌,
  length, take, drop, map, replicate, get_or, set, bit_and, bit_or, ltb, leb, ◌==◌, if◌then◌else◌,
  Option, none, some, Result, ok, err, ◌>>=◌, ◌>>◌, guard, map_err,
}
use opentrace.Encoding.Word.{le_bytes, le_word}
use opentrace.Encoding.Varint.{put_varint, varint}
use opentrace.Encoding.Framing.{LenFormat, append_len_string, read_string}
use opentrace.Encoding.Zstd.{
  Zstd, compress, decompress_bounded, decode_ceiling, max_column_value_bytes, max_len_framing_bytes,
  max_varint_bytes,
}
use opentrace.Encoding.Columns.{
  ColumnError, too_short, bad_size, bad_varint, bad_string, bad_block, pack_strings,
}

-- `bitmap[i/8] |= 1 << (i % 8)`
unfoldable pub set_bit : Bytes → ℕ → Bytes
set_bit bitmap i = set bitmap (i / 8) (bit_or (get_or bitmap (i / 8) 0) (2 ^ (i % 8)))

-- The loop of buildBitmap from the value `i` on, over the values' presence.
unfoldable pub set_bits : ℕ → Bytes → List Bool → Bytes
set_bits i bitmap [] = bitmap
set_bits i bitmap (p ∷ ps) = set_bits (i + 1) (if p then set_bit bitmap i else bitmap) ps

abbrev pub count_present : List Bool → ℕ
count_present [] = 0
count_present (p ∷ ps) = let rest = count_present ps in if p then suc rest else rest

-- The bitmap and the number of values that are there.
unfoldable pub build_bitmap : {A : Type 0} → List A → (A → Bool) → Bytes × ℕ
unfolding set_bits
build_bitmap values is_there =
    let ps = map is_there values in
    (set_bits 0 (replicate ((length values + 7) / 8) 0) ps, count_present ps)

unfoldable pub get_bit : Bytes → ℕ → Bool
get_bit bitmap i =
    ltb (i / 8) (length bitmap) && not (bit_and (get_or bitmap (i / 8) 0) (2 ^ (i % 8)) == 0)

unfoldable pub marshal_sparse : ℕ → Bytes → Bytes → Bytes
marshal_sparse non_null_count bitmap values =
    ((le_bytes 4 non_null_count ++ le_bytes 4 (length bitmap)) ++ bitmap) ++ values

unfoldable pub unmarshal_sparse : Bytes → Result ColumnError (ℕ × Bytes × Bytes)
unmarshal_sparse block = do
  guard (leb 8 (length block)) too_short
  let size = le_word 4 (drop 4 block)
  guard (leb (8 + size) (length block)) bad_size
  let body = drop 4 (drop 4 block)
  ok (le_word 4 block, take size body, drop size body)

abbrev pub is_text : Bytes → Bool
is_text [] = false
is_text (b ∷ bs) = true

unfoldable pub present_texts : List Bytes → List Bytes
present_texts [] = []
present_texts (v ∷ vs) = let rest = present_texts vs in if is_text v then v ∷ rest else rest

-- `buf = PutVarint(buf, *v)` for each value that is there.
unfoldable pub pack_varints : Bytes → List (Option ℕ) → Bytes
pack_varints buf [] = buf
pack_varints buf (none ∷ vs) = pack_varints buf vs
pack_varints buf (some v ∷ vs) = pack_varints (put_varint buf v) vs

abbrev pub is_some : {A : Type 0} → Option A → Bool
is_some none = false
is_some (some v) = true

-- One value of UnsparseStrings.
unfoldable pub read_text : LenFormat → Bool → Bytes → Result ColumnError (Bytes × Bytes)
read_text f false raw = ok ([], raw)
read_text f true raw = map_err bad_string (read_string f raw)

unfoldable pub read_texts : LenFormat → Bytes → ℕ → ℕ → Bytes → Result ColumnError (List Bytes)
read_texts f bitmap i zero raw = ok []
read_texts f bitmap i (suc n) raw = do
  (v, rest) ← read_text f (get_bit bitmap i) raw
  vs ← read_texts f bitmap (i + 1) n rest
  ok (v ∷ vs)

abbrev some_varint : Option (ℕ × Bytes) → Result ColumnError (Option ℕ × Bytes)
some_varint none = err bad_varint
some_varint (some (v, rest)) = ok (some v, rest)

-- One value of UnsparseInt64.
unfoldable pub read_number : Bool → Bytes → Result ColumnError (Option ℕ × Bytes)
read_number false raw = ok (none, raw)
read_number true [] = err too_short
read_number true (b ∷ bs) = some_varint (varint (b ∷ bs))

unfoldable pub read_numbers : Bytes → ℕ → ℕ → Bytes → Result ColumnError (List (Option ℕ))
read_numbers bitmap i zero raw = ok []
read_numbers bitmap i (suc n) raw = do
  (v, rest) ← read_number (get_bit bitmap i) raw
  vs ← read_numbers bitmap (i + 1) n rest
  ok (v ∷ vs)

module _ (z : Zstd) where
  -- The values are decompressed only if one is there.
  unfoldable pub sparse_values : ℕ → Bytes → ℕ → Result ColumnError Bytes
  sparse_values non_null_count values ceiling =
      if ltb 0 non_null_count
      then map_err bad_block (decompress_bounded z values ceiling)
      else ok []

  unfoldable pub sparse_strings : List Bytes → Bytes
  sparse_strings values =
      let (bitmap, non_null_count) = build_bitmap values is_text in
      marshal_sparse non_null_count bitmap (compress z (pack_strings [] (present_texts values)))

  unfoldable pub unsparse_strings : Bytes → ℕ → LenFormat → Result ColumnError (List Bytes)
  unsparse_strings block count f = do
    (non_null_count, bitmap, values) ← unmarshal_sparse block
    raw ←
        sparse_values non_null_count values
          (decode_ceiling count (max_column_value_bytes + max_len_framing_bytes))
    read_texts f bitmap 0 count raw

  unfoldable pub sparse_int64 : List (Option ℕ) → Bytes
  sparse_int64 values =
      let (bitmap, non_null_count) = build_bitmap values is_some in
      marshal_sparse non_null_count bitmap (compress z (pack_varints [] values))

  unfoldable pub unsparse_int64 : Bytes → ℕ → Result ColumnError (List (Option ℕ))
  unsparse_int64 block count = do
    (non_null_count, bitmap, values) ← unmarshal_sparse block
    raw ← sparse_values non_null_count values (decode_ceiling count max_varint_bytes)
    read_numbers bitmap 0 count raw
