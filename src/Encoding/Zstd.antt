-- ===== src/Encoding/Zstd.antt =====
-- encoding/zstd.go over the zstd library, which is not part of the repository: its encoder, its
-- frame header parser and its bounded decoder are a parameter, and `IsLossless` is what the code
-- relies on. The encoder's and decoders' pools only share state that does not show in results.
pub mod Bounds
pub mod Plain
use opentrace.Base.{
  ℕ, zero, suc, ◌+◌, ◌*◌, ◌/◌, ◌^◌, ◌≤◌, ◌<◌, ◌≡◌, refl, List, [], ◌∷◌, arith, Bytes, Bool, true,
  false, ◌||◌, ◌&&◌, length, ltb, leb, ◌==◌, if◌then◌else◌, Result, ok, err, Option, none, some,
  le→leb, leb-false, Bool-cases, inl, inr,
}

pub record Zstd : Type 0 where
  -- Encoder.EncodeAll
  pub encode_all : Bytes → Bytes
  -- The content size that a frame's header declares, if it parses and declares one.
  pub frame_content_size : Bytes → Option ℕ
  -- DecodeAll of a decoder built with a maximum memory; `none` is an error.
  pub decode_all : ℕ → Bytes → Option Bytes

-- The documented behaviour of the library: decoding inverts encoding within the decoder's memory,
-- a declared size is the size of the content, and only empty input gives empty output.
pub record IsLossless (z : Zstd) : Type 0 where
  pub decode-encode : (m : ℕ) (b : Bytes) → length b ≤ m → z.decode_all m (z.encode_all b) ≡ some b
  pub size-encode :
      (b : Bytes) (n : ℕ) → z.frame_content_size (z.encode_all b) ≡ some n → n ≡ length b
  pub encode_empty : z.encode_all [] ≡ []
  pub encode_nonempty : (b : Bytes) → z.encode_all b ≡ [] → b ≡ []

abbrev pub max_block_bytes : ℕ
max_block_bytes = 2 ^ 31

abbrev pub max_column_value_bytes : ℕ
max_column_value_bytes = 2 ^ 20

abbrev pub max_varint_bytes : ℕ
max_varint_bytes = 10

abbrev pub max_len_framing_bytes : ℕ
max_len_framing_bytes = 8

abbrev pub min_decode_ceiling : ℕ
min_decode_ceiling = 2 ^ 16

abbrev pub decoder_bucket_min : ℕ
decoder_bucket_min = 2 ^ 20

-- A negative count or size takes the first branch with 0.
unfoldable pub decode_ceiling : ℕ → ℕ → ℕ
decode_ceiling count per_value_bytes =
    if count == 0 || per_value_bytes == 0
    then min_decode_ceiling
    else if ltb (max_block_bytes / per_value_bytes) count
    then max_block_bytes
    else let n = count * per_value_bytes in
      if ltb min_decode_ceiling n then n else min_decode_ceiling

-- `for b < max { b <<= 1 }`
double_until : ℕ → ℕ → ℕ → ℕ
double_until zero max b = b
double_until (suc fuel) max b =
    let rest = double_until fuel max (b * 2) in if ltb b max then rest else b

-- Eleven doublings take 1 MiB to 2 GiB.
unfoldable pub decoder_bucket : ℕ → ℕ
unfolding double_until
decoder_bucket max =
    if leb max_block_bytes max then max_block_bytes else double_until 11 max decoder_bucket_min

pub data ZstdError : Type 0 where
  declared_too_large decode_failed : ZstdError

module _ (z : Zstd) where
  unfoldable pub compress : Bytes → Bytes
  compress src = z.encode_all src

  abbrev decoded : Option Bytes → Result ZstdError Bytes
  decoded none = err decode_failed
  decoded (some out) = ok out

  -- `h.HasFCS && h.FrameContentSize > uint64(maxDecoded)`
  abbrev declares_more : Option ℕ → ℕ → Bool
  declares_more none max_decoded = false
  declares_more (some n) max_decoded = ltb max_decoded n

  unfoldable pub decompress_bounded : Bytes → ℕ → Result ZstdError Bytes
  decompress_bounded [] max = ok []
  decompress_bounded (b ∷ bs) max =
      let max_decoded = if max == 0 || ltb max_block_bytes max then max_block_bytes else max in
      if declares_more (z.frame_content_size (b ∷ bs)) max_decoded
      then err declared_too_large
      else decoded (z.decode_all (decoder_bucket max_decoded) (b ∷ bs))

  unfoldable pub decompress : Bytes → Result ZstdError Bytes
  decompress src = decompress_bounded src max_block_bytes
