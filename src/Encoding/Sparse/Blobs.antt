-- ===== src/Encoding/Sparse/Blobs.antt =====
-- encoding/sparse.go: SparseBytes and UnsparseBytes. A nil slice is `none`.
pub mod Loops
use opentrace.Base.{
  ℕ, zero, suc, ◌+◌, List, [], ◌∷◌, ◌++◌, Bytes, Bool, true, false, length, take, drop, leb, Option,
  none, some, Result, ok, ◌>>=◌, ◌>>◌, guard,
}
use opentrace.Encoding.Word.{le_bytes, le_word}
use opentrace.Encoding.Zstd.{
  Zstd, compress, decode_ceiling, max_column_value_bytes, max_len_framing_bytes,
}
use opentrace.Encoding.Columns.{ColumnError, too_short, bad_size}
use opentrace.Encoding.Sparse.{
  build_bitmap, get_bit, marshal_sparse, unmarshal_sparse, is_some, sparse_values,
}

-- A four-byte length and the bytes, for each value that is there.
unfoldable pub pack_blobs : Bytes → List (Option Bytes) → Bytes
pack_blobs buf [] = buf
pack_blobs buf (none ∷ vs) = pack_blobs buf vs
pack_blobs buf (some v ∷ vs) = pack_blobs ((buf ++ le_bytes 4 (length v)) ++ v) vs

-- One value of UnsparseBytes.
unfoldable pub read_blob : Bool → Bytes → Result ColumnError (Option Bytes × Bytes)
read_blob false raw = ok (none, raw)
read_blob true raw = do
  guard (leb 4 (length raw)) too_short
  let size = le_word 4 raw
  let rest = drop 4 raw
  guard (leb size (length rest)) bad_size
  ok (some (take size rest), drop size rest)

unfoldable pub read_blobs : Bytes → ℕ → ℕ → Bytes → Result ColumnError (List (Option Bytes))
read_blobs bitmap i zero raw = ok []
read_blobs bitmap i (suc n) raw = do
  (v, rest) ← read_blob (get_bit bitmap i) raw
  vs ← read_blobs bitmap (i + 1) n rest
  ok (v ∷ vs)

module _ (z : Zstd) where
  unfoldable pub sparse_bytes : List (Option Bytes) → Bytes
  sparse_bytes values =
      let (bitmap, non_null_count) = build_bitmap values is_some in
      marshal_sparse non_null_count bitmap (compress z (pack_blobs [] values))

  unfoldable pub unsparse_bytes : Bytes → ℕ → Result ColumnError (List (Option Bytes))
  unsparse_bytes block count = do
    (non_null_count, bitmap, values) ← unmarshal_sparse block
    raw ←
        sparse_values z non_null_count values
          (decode_ceiling count (max_column_value_bytes + max_len_framing_bytes))
    read_blobs bitmap 0 count raw
