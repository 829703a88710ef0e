-- ===== src/Encoding/Delta.antt =====
-- encoding/delta.go: a base and the zigzag varints of the differences. An int64 is its two's
-- complement word, so sums and differences wrap at 2 ^ 64.
pub mod RoundTrip
use opentrace.Base.{
  ℕ, zero, suc, ◌+◌, ◌-◌, ◌%◌, ◌^◌, List, [], ◌∷◌, ◌++◌, Bytes, length, drop, leb, if◌then◌else◌,
  Result, ok, err, ◌>>=◌, ◌>>◌, guard, map_err, Option, none, some,
}
use opentrace.Encoding.Word.{le_bytes, le_word}
use opentrace.Encoding.Varint.{put_uvarint, zig_zag_encode, zig_zag_decode, uvarint}
use opentrace.Encoding.Columns.{ColumnError, too_short, bad_varint, bad_block}
use opentrace.Encoding.Zstd.{Zstd, compress, decompress_bounded, decode_ceiling, max_varint_bytes}

-- The loop of DeltaEncode over the buffer and the previous value.
unfoldable pub delta_bytes : Bytes → ℕ → List ℕ → Bytes
delta_bytes buf prev [] = buf
delta_bytes buf prev (v ∷ vs) =
    delta_bytes (put_uvarint buf (zig_zag_encode ((v + 2 ^ 64 - prev) % 2 ^ 64))) v vs

abbrev uvarint_or_fail : Option (ℕ × Bytes) → Result ColumnError (ℕ × Bytes)
uvarint_or_fail none = err bad_varint
uvarint_or_fail (some p) = ok p

-- The loop of DeltaDecode: at most `count` values, as long as bytes are left.
unfoldable pub read_deltas : ℕ → ℕ → Bytes → Result ColumnError (List ℕ)
read_deltas zero prev raw = ok []
read_deltas (suc n) prev [] = ok []
read_deltas (suc n) prev (b ∷ bs) = do
  (encoded, rest) ← uvarint_or_fail (uvarint (b ∷ bs))
  let v = (prev + zig_zag_decode encoded) % 2 ^ 64
  vs ← read_deltas n v rest
  ok (v ∷ vs)

module _ (z : Zstd) where
  unfoldable pub delta_encode : List ℕ → Bytes
  delta_encode [] = []
  delta_encode (base ∷ vs) = le_bytes 8 base ++ compress z (delta_bytes [] base (base ∷ vs))

  unfoldable pub delta_decode : Bytes → ℕ → Result ColumnError (List ℕ)
  delta_decode bs count = do
    guard (leb 8 (length bs)) too_short
    raw ←
        map_err bad_block (decompress_bounded z (drop 8 bs) (decode_ceiling count max_varint_bytes))
    read_deltas count (le_word 8 bs) raw
