-- ===== src/Encoding/ZstdBlock.antt =====
-- encoding/zstdblock.go: whole blocks of strings and of int64 words.
pub mod RoundTrip
use opentrace.Base.{
  ℕ, zero, suc, ◌+◌, List, [], ◌∷◌, ◌++◌, Bytes, length, drop, replicate, leb, if◌then◌else◌,
  Result, ok, err, ◌>>=◌, map_err,
}
use opentrace.Encoding.Words.{words_bytes, read_words}
use opentrace.Encoding.Framing.{LenFormat}
use opentrace.Encoding.Columns.{ColumnError, bad_block, pack_strings, read_strings}
use opentrace.Encoding.Zstd.{
  Zstd, compress, decompress_bounded, decode_ceiling, max_column_value_bytes, max_len_framing_bytes,
}

module _ (z : Zstd) where
  unfoldable pub zstd_block_encode_strings : List Bytes → Bytes
  zstd_block_encode_strings values = compress z (pack_strings [] values)

  unfoldable pub zstd_block_decode_strings : Bytes → ℕ → LenFormat → Result ColumnError (List Bytes)
  zstd_block_decode_strings block count f = do
    raw ← map_err bad_block (
        decompress_bounded z block
          (decode_ceiling count (max_column_value_bytes + max_len_framing_bytes)))
    (values, rest) ← read_strings f count raw
    ok values

  unfoldable pub zstd_block_encode_int64 : List ℕ → Bytes
  zstd_block_encode_int64 values = compress z (words_bytes 8 values)

  unfoldable pub zstd_block_decode_int64 : Bytes → ℕ → Result ColumnError (List ℕ)
  zstd_block_decode_int64 block count = do
    raw ← map_err bad_block (decompress_bounded z block (decode_ceiling count 8))
    ok (read_words 8 count raw)
