-- ===== src/Encoding/ZstdBlock/RoundTrip.antt =====
-- Blocks of strings and of words are decoded to what was encoded.
use opentrace.Base.{
  ℕ, ◌*◌, ◌≤◌, ◌≡◌, ap, List, [], ◌∷◌, arith, Bytes, IsWord, All, length, ok, append-nil, ap,
}
use opentrace.Encoding.Words.{words_bytes, length-words_bytes, read_words-words_bytes}
use opentrace.Encoding.Framing.{len_extended}
use opentrace.Encoding.Columns.{pack_strings, read_strings-pack_strings, length-pack_strings}
use opentrace.Encoding.Zstd.{Zstd, IsLossless, max_block_bytes, max_column_value_bytes}
use opentrace.Encoding.Zstd.Bounds.{decompress-column}
use opentrace.Encoding.ZstdBlock.{
  zstd_block_encode_strings, zstd_block_decode_strings, zstd_block_encode_int64,
  zstd_block_decode_int64,
}

All-le :
    (vs : List Bytes) (m n : ℕ) → m ≤ n → All (λ v. length v ≤ m) vs → All (λ v. length v ≤ n) vs
All-le [] m n h a = tt
All-le (v ∷ vs) m n h a = (omega (arith, a.0), All-le vs m n h a.1)

module _ (z : Zstd) (lossless : IsLossless z) where
  -- Over a lossless codec, ZstdBlockDecodeStrings inverts ZstdBlockEncodeStrings on values of at
  -- most 1 MiB whose packed block is at most 2 GiB.
  pub zstd_block_decode_strings_lem :
      (vs : List Bytes)
      → All (λ v. length v ≤ max_column_value_bytes) vs
      → length (pack_strings [] vs) ≤ max_block_bytes
      → zstd_block_decode_strings z (zstd_block_encode_strings z vs) (length vs) len_extended
        ≡ ok vs
  unfolding zstd_block_decode_strings zstd_block_encode_strings
  zstd_block_decode_strings_lem vs h fits =
      let raw : Bytes = pack_strings [] vs in
      rw (
        decompress-column z lossless raw (length vs) 1048584
            (omega (arith, length-pack_strings vs max_column_value_bytes h)) fits,
        ← append-nil raw,
        read_strings-pack_strings vs [] (All-le vs _ _ (omega arith) h),
      )

  -- Over a lossless codec, ZstdBlockDecodeInt64 inverts ZstdBlockEncodeInt64 on every list of int64
  -- words of at most 2 GiB.
  pub zstd_block_decode_int64_lem :
      (vs : List ℕ)
      → All (IsWord 64) vs
      → length vs * 8 ≤ max_block_bytes
      → zstd_block_decode_int64 z (zstd_block_encode_int64 z vs) (length vs) ≡ ok vs
  unfolding zstd_block_decode_int64 zstd_block_encode_int64
  zstd_block_decode_int64_lem vs h fits =
      rw
        (decompress-column z lossless (words_bytes 8 vs) (length vs) 8
          (omega (arith, length-words_bytes 8 vs)) (omega (arith, length-words_bytes 8 vs)))
        (ap ok (read_words-words_bytes 8 vs h))
