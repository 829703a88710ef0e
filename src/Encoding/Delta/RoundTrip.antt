-- ===== src/Encoding/Delta/RoundTrip.antt =====
-- A delta column decodes to the values that were encoded, in any order and of any sign.
use opentrace.Base.{
  ℕ, suc, ◌+◌, ◌-◌, ◌*◌, ◌%◌, ◌^◌, ◌≤◌, ◌≡◌, refl, sym, ◌∙◌, List, [], ◌∷◌, ◌++◌, arith, Bytes,
  IsWord, All, length, ok, some, append-nil, append_assoc, length-append, le→leb, ◌>>=◌,
}
use opentrace.Encoding.Word.{le_bytes, length-le_bytes, le_word-le_bytes, drop-le_bytes}
use opentrace.Encoding.Varint.{
  put_uvarint, uvarint_encoding, zig_zag_encode, zig_zag_decode, uvarint,
}
use opentrace.Encoding.Varint.ZigZag.{zig_zag_encode-IsWord, zig_zag_decode-zig_zag_encode}
use opentrace.Encoding.Varint.RoundTrip.{uvarint-uvarint_encoding, length-uvarint_encoding}
use opentrace.Encoding.Zstd.{Zstd, IsLossless, max_block_bytes, compress}
use opentrace.Encoding.Zstd.Bounds.{decompress-column}
use opentrace.Encoding.Delta.{delta_bytes, read_deltas, delta_encode, delta_decode}

-- The wrapped difference, zigzagged.
abbrev zig_zag_delta : ℕ → ℕ → ℕ
zig_zag_delta prev v = zig_zag_encode ((v + 2 ^ 64 - prev) % 2 ^ 64)

delta_bytes-append :
    (buf : Bytes) (prev : ℕ) (vs : List ℕ) → delta_bytes buf prev vs ≡ buf ++ delta_bytes [] prev vs
unfolding delta_bytes put_uvarint
delta_bytes-append buf prev [] = sym (append-nil buf)
delta_bytes-append buf prev (v ∷ vs) =
    let code : Bytes = uvarint_encoding (zig_zag_delta prev v) in
    delta_bytes-append (buf ++ code) v vs ∙ rw append_assoc (rw (← delta_bytes-append code v vs))

delta_bytes-cons :
    (prev v : ℕ) (vs : List ℕ)
    → delta_bytes [] prev (v ∷ vs) ≡ uvarint_encoding (zig_zag_delta prev v) ++ delta_bytes [] v vs
delta_bytes-cons prev v vs = unfold delta_bytes put_uvarint in delta_bytes-append _ v vs

length-delta_bytes : (prev : ℕ) (vs : List ℕ) → length (delta_bytes [] prev vs) ≤ length vs * 10
length-delta_bytes prev [] = unfold delta_bytes in omega arith
length-delta_bytes prev (v ∷ vs) =
    rw (delta_bytes-cons, length-append)
      (omega (arith, length-delta_bytes v vs, length-uvarint_encoding (zig_zag_delta prev v)))

-- One round of the reader on what starts with a varint.
read_deltas_step :
    (n prev u : ℕ) (raw rest : Bytes)
    → uvarint raw ≡ some (u, rest)
    → read_deltas (suc n) prev raw
      ≡ (do let v = (prev + zig_zag_decode u) % 2 ^ 64; vs ← read_deltas n v rest; ok (v ∷ vs))
read_deltas_step n prev u [] rest e = unfold uvarint in cc
read_deltas_step n prev u (b ∷ bs) rest e = unfold read_deltas in rw e

wrapped_sum :
    (prev v : ℕ) → IsWord 64 prev → IsWord 64 v → (prev + (v + 2 ^ 64 - prev) % 2 ^ 64) % 2 ^ 64 ≡ v
wrapped_sum prev v h k = omega arith

read_deltas-delta_bytes :
    (prev : ℕ) (vs : List ℕ)
    → IsWord 64 prev
    → All (IsWord 64) vs
    → read_deltas (length vs) prev (delta_bytes [] prev vs) ≡ ok vs
read_deltas-delta_bytes prev [] h a = unfold read_deltas in refl
read_deltas-delta_bytes prev (v ∷ vs) h a =
    let d : ℕ = (v + 2 ^ 64 - prev) % 2 ^ 64 in
    let d_word : IsWord 64 d = omega arith in
    let more : Bytes = delta_bytes [] v vs in
    rw delta_bytes-cons (
      read_deltas_step (length vs) prev (zig_zag_encode d) _ more
        (uvarint-uvarint_encoding (zig_zag_encode d) more (zig_zag_encode-IsWord d d_word))
      ∙ rw (
        zig_zag_decode-zig_zag_encode d d_word,
        wrapped_sum prev v h a.0,
        read_deltas-delta_bytes v vs a.0 a.1,
      ))

module _ (z : Zstd) (lossless : IsLossless z) where
  -- Over a lossless codec, DeltaDecode inverts DeltaEncode on every non-empty list of int64 words
  -- of at most a tenth of 2 GiB in number, whatever the differences that wrap around.
  pub delta_decode-delta_encode :
      (v : ℕ) (vs : List ℕ)
      → All (IsWord 64) (v ∷ vs)
      → length (v ∷ vs) * 10 ≤ max_block_bytes
      → delta_decode z (delta_encode z (v ∷ vs)) (length (v ∷ vs)) ≡ ok (v ∷ vs)
  unfolding delta_decode delta_encode
  delta_decode-delta_encode v vs h fits =
      let raw : Bytes = delta_bytes [] v (v ∷ vs) in
      let size : length raw ≤ length (v ∷ vs) * 10 = length-delta_bytes v (v ∷ vs) in
      rw
        (
          le→leb 8 (length (le_bytes 8 v ++ compress z raw))
              (omega (arith, length-append (le_bytes 8 v) (compress z raw), length-le_bytes 8 v)),
          drop-le_bytes 8 v (compress z raw),
          decompress-column z lossless raw (length (v ∷ vs)) 10 size (omega arith),
          le_word-le_bytes 8 v (compress z raw) h.0,
        )
        (read_deltas-delta_bytes v (v ∷ vs) h.0 h)
