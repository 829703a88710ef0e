-- ===== src/Encoding/Zstd/Bounds.antt =====
-- The ceilings of a bounded decode, and the round trip under them.
use opentrace.Base.{
  ℕ, zero, suc, ◌*◌, ◌^◌, ◌≤◌, ◌<◌, ◌≡◌, refl, [], ◌∷◌, arith, Bytes, true, false, length, ◌==◌, ok,
  Option, none, some, ltb-false, inl, ap, sym, ◌⊎◌, ◌||◌,
}
use native.Mathlib.Nat.{pow-suc, le-div_iff_mul-le}
use opentrace.Encoding.Zstd.{
  Zstd, IsLossless, max_block_bytes, decoder_bucket_min, decode_ceiling, double_until,
  decoder_bucket, compress, decompress_bounded, decompress, declares_more,
}

double_until_reaches : (fuel max b : ℕ) → max ≤ b * 2 ^ fuel → max ≤ double_until fuel max b
unfolding double_until
double_until_reaches zero max b h = omega arith
double_until_reaches (suc fuel) max b h =
    ground (arith, double_until_reaches fuel max (b * 2), ap (λ (t : ℕ). b * t) (pow-suc 2 fuel))

double_until_least :
    (fuel max b : ℕ) → (double_until fuel max b ≡ b) ⊎ (double_until fuel max b < 2 * max)
unfolding double_until
double_until_least zero max b = inl refl
double_until_least (suc fuel) max b = ground (arith, double_until_least fuel max (b * 2))

-- For a ceiling of at most 2 GiB, decoderBucket admits it, and is the smallest bucket or at most
-- its double.
pub decoder_bucket_bounds :
    (max : ℕ)
    → max ≤ max_block_bytes
    → (max ≤ decoder_bucket max)
      × ((decoder_bucket max ≡ decoder_bucket_min) ⊎ (decoder_bucket max ≤ 2 * max))
unfolding decoder_bucket
decoder_bucket_bounds max h = ground (
  arith,
  double_until_reaches 11 max decoder_bucket_min (omega arith),
  double_until_least 11 max decoder_bucket_min,
)

zero_product : (count per : ℕ) → (count == 0 || per == 0) ≡ true → count * per ≡ 0
zero_product count per h = grind arith

-- A column whose size is at most its count times its bytes per value, and at most 2 GiB, is
-- admitted by its DecodeCeiling.
pub le-decode_ceiling :
    (count per n : ℕ) → n ≤ count * per → n ≤ max_block_bytes → n ≤ decode_ceiling count per
unfolding decode_ceiling
le-decode_ceiling count per n h k = ground (arith, zero_product count per)

pub decode_ceiling-le :
    (count per : ℕ) → (0 < decode_ceiling count per) × (decode_ceiling count per ≤ max_block_bytes)
unfolding decode_ceiling
decode_ceiling-le count per =
    ground (arith, λ (p : 0 < per). (le-div_iff_mul-le {x = count} {y = max_block_bytes} p).0)

module _ (z : Zstd) (lossless : IsLossless z) where
  -- The header's declared size never refuses what was compressed.
  declared_within :
      (o : Option ℕ) (size max : ℕ)
      → ((n : ℕ) → o ≡ some n → n ≡ size)
      → size ≤ max
      → declares_more z o max ≡ false
  declared_within none size max h fits = refl
  declared_within (some n) size max h fits = ltb-false _ _ (omega (arith, h n refl))

  declares_at_most :
      (b : Bytes) (max : ℕ)
      → length b ≤ max
      → declares_more z (z.frame_content_size (z.encode_all b)) max ≡ false
  declares_at_most b max fits = declared_within _ (length b) max (lossless.size-encode b) fits

  frame-decodes :
      (b frame : Bytes) (max : ℕ)
      → z.encode_all b ≡ frame
      → length b ≤ max
      → 0 < max
      → max ≤ max_block_bytes
      → decompress_bounded z frame max ≡ ok b
  unfolding decompress_bounded
  frame-decodes b [] max e fits pos top = ap ok (sym (lossless.encode_nonempty b e))
  frame-decodes b (x ∷ xs) max e fits pos top = ground (
    arith,
    e,
    declares_at_most b max fits,
    lossless.decode-encode (decoder_bucket max) b,
    decoder_bucket_bounds max top,
  )

  -- Over a lossless codec, what Compress wrote is decompressed whole under every positive ceiling
  -- of at most 2 GiB that admits its size.
  pub decompress_bounded-compress :
      (b : Bytes) (max : ℕ)
      → length b ≤ max
      → 0 < max
      → max ≤ max_block_bytes
      → decompress_bounded z (compress z b) max ≡ ok b
  unfolding compress
  decompress_bounded-compress b max fits pos top = frame-decodes b _ max refl fits pos top

  pub decompress-compress :
      (b : Bytes) → length b ≤ max_block_bytes → decompress z (compress z b) ≡ ok b
  unfolding decompress
  decompress-compress b h =
      decompress_bounded-compress b max_block_bytes h (omega arith) (omega arith)

  -- A column's block decodes under the ceiling of its count.
  pub decompress-column :
      (b : Bytes) (count per : ℕ)
      → length b ≤ count * per
      → length b ≤ max_block_bytes
      → decompress_bounded z (compress z b) (decode_ceiling count per) ≡ ok b
  decompress-column b count per h fits =
      let bounds = decode_ceiling-le count per in
      decompress_bounded-compress b (decode_ceiling count per)
        (le-decode_ceiling count per (length b) h fits) bounds.0 bounds.1
