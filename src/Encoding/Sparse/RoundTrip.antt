-- ===== src/Encoding/Sparse/RoundTrip.antt =====
-- The sparse columns of strings, int64s, bools and bytes decode to what was encoded (encoding/sparse.go).
use opentrace.Base.{
  ℕ, zero, suc, ◌+◌, ◌*◌, ◌/◌, ◌^◌, ◌≤◌, ◌<◌, ◌≡◌, refl, sym, ap, ◌∙◌, arith, List, [], ◌∷◌, ◌++◌,
  Bytes, IsWord, All, Bool, length, map, replicate, Option, none, some, ok, length-append, lt→ltb,
  length-map,
}
use opentrace.Encoding.Word.{le_bytes, length-le_bytes}
use opentrace.Encoding.Framing.{len_extended}
use opentrace.Encoding.Varint.{put_varint, put_uvarint}
use opentrace.Encoding.Varint.RoundTrip.{length-uvarint_encoding, signed_word}
use opentrace.Encoding.Zstd.{
  Zstd, IsLossless, compress, decode_ceiling, max_block_bytes, max_column_value_bytes,
}
use opentrace.Encoding.Zstd.Bounds.{decompress-column}
use opentrace.Encoding.Columns.{pack_strings, length-pack_strings}
use opentrace.Encoding.Sparse.{
  count_present, build_bitmap, marshal_sparse, unmarshal_sparse, is_text, present_texts,
  pack_varints, is_some, sparse_values, sparse_strings, unsparse_strings, sparse_int64,
  unsparse_int64,
}
use opentrace.Encoding.Sparse.Blobs.{pack_blobs, sparse_bytes, unsparse_bytes}
use opentrace.Encoding.Sparse.Bools.{set_values, sparse_bool, unsparse_bool}
use opentrace.Encoding.Sparse.Marks.{
  length-build_bitmap, count_present-le, unmarshal_sparse-marshal_sparse, build_bitmap-Marks,
}
use opentrace.Encoding.Sparse.Loops.{
  read_texts-pack_strings, read_numbers-pack_varints, AllSome, pack_varints-append,
}
use opentrace.Encoding.Sparse.Blobs.Loops.{read_blobs-pack_blobs, pack_blobs-append}
use opentrace.Encoding.Sparse.Bools.Loops.{set_values-Marks, read_bools-present}

count_present-build_bitmap :
    {A : Type 0} (values : List A) (is_there : A → Bool)
    → (build_bitmap values is_there).1 ≡ count_present (map is_there values)
unfolding build_bitmap
count_present-build_bitmap values is_there = refl

-- The bitmap and the count of a column that was built are found again.
unmarshal_sparse-build_bitmap :
    {A : Type 0} (values : List A) (is_there : A → Bool) (packed : Bytes)
    → length values < 2 ^ 32
    → (let b = build_bitmap values is_there in
        unmarshal_sparse (marshal_sparse b.1 b.0 packed) ≡ ok (b.1, b.0, packed))
unmarshal_sparse-build_bitmap values is_there packed few =
    let b = build_bitmap values is_there in
    unmarshal_sparse-marshal_sparse b.1 b.0 packed
      (omega (
        arith,
        count_present-build_bitmap values is_there,
        count_present-le (map is_there values),
        length-map is_there values,
      ))
      (omega (arith, length-build_bitmap values is_there))

module _ (z : Zstd) (lossless : IsLossless z) where
  sparse_values-compress :
      (n : ℕ) (raw : Bytes) (count per : ℕ)
      → (n ≡ 0 → raw ≡ [])
      → length raw ≤ count * per
      → length raw ≤ max_block_bytes
      → sparse_values z n (compress z raw) (decode_ceiling count per) ≡ ok raw
  unfolding sparse_values
  sparse_values-compress zero raw count per empty fits top = rw (empty refl) refl
  sparse_values-compress (suc n) raw count per empty fits top =
      rw (lt→ltb 0 (suc n) (omega arith), decompress-column z lossless raw count per fits top) refl

  no_texts : (vs : List Bytes) → count_present (map is_text vs) ≡ 0 → present_texts vs ≡ []
  unfolding present_texts
  no_texts [] h = refl
  no_texts ([] ∷ vs) h = no_texts vs h
  no_texts ((b ∷ bs) ∷ vs) h = absurd (omega (arith, h))

  length-present_texts : (vs : List Bytes) → length (present_texts vs) ≤ length vs
  unfolding present_texts
  length-present_texts [] = omega arith
  length-present_texts ([] ∷ vs) = omega (arith, length-present_texts vs)
  length-present_texts ((b ∷ bs) ∷ vs) = omega (arith, length-present_texts vs)

  present_texts-All :
      (m : ℕ) (vs : List Bytes)
      → All (λ v. length v ≤ m) vs
      → All (λ v. length v ≤ m) (present_texts vs)
  unfolding present_texts
  present_texts-All m [] h = tt
  present_texts-All m ([] ∷ vs) h = present_texts-All m vs h.1
  present_texts-All m ((b ∷ bs) ∷ vs) h = (h.0, present_texts-All m vs h.1)

  -- Over a lossless codec, under the extended framing, UnsparseStrings inverts SparseStrings on
  -- fewer than 2^32 values of at most 1 MiB, empty ones among them, whose packed texts are at most
  -- 2 GiB.
  pub unsparse_strings-sparse_strings :
      (vs : List Bytes)
      → All (λ v. length v ≤ max_column_value_bytes) vs
      → length (pack_strings [] (present_texts vs)) ≤ max_block_bytes
      → length vs < 2 ^ 32
      → unsparse_strings z (sparse_strings z vs) (length vs) len_extended ≡ ok vs
  unfolding unsparse_strings sparse_strings pack_strings
  unsparse_strings-sparse_strings vs h fits few =
      let raw : Bytes = pack_strings [] (present_texts vs) in
      rw
        (
          unmarshal_sparse-build_bitmap vs is_text (compress z raw) few,
          sparse_values-compress (build_bitmap vs is_text).1 raw (length vs) 1048584
              (λ e. rw (no_texts vs (sym (count_present-build_bitmap vs is_text) ∙ e)) refl)
              (omega (
                arith,
                length-pack_strings (present_texts vs) max_column_value_bytes
                    (present_texts-All max_column_value_bytes vs h),
                length-present_texts vs,
              ))
              fits,
        )
        (read_texts-pack_strings (build_bitmap vs is_text).0 0 vs (build_bitmap-Marks vs is_text) h)

  no_varints : (vs : List (Option ℕ)) → count_present (map is_some vs) ≡ 0 → pack_varints [] vs ≡ []
  unfolding pack_varints
  no_varints [] h = refl
  no_varints (none ∷ vs) h = no_varints vs h
  no_varints (some v ∷ vs) h = absurd (omega (arith, h))

  length-pack_varints : (vs : List (Option ℕ)) → length (pack_varints [] vs) ≤ length vs * 10
  unfolding pack_varints put_varint put_uvarint
  length-pack_varints [] = omega arith
  length-pack_varints (none ∷ vs) = omega (arith, length-pack_varints vs)
  length-pack_varints (some v ∷ vs) =
      rw
        (
          pack_varints-append (put_varint [] v) vs,
          length-append (put_varint [] v) (pack_varints [] vs),
        )
        (omega (arith, length-pack_varints vs, length-uvarint_encoding (signed_word v)))

  -- x
  pub unsparse_int64-sparse_int64 :
      (vs : List (Option ℕ))
      → AllSome (IsWord 64) vs
      → length vs * 10 ≤ max_block_bytes
      → unsparse_int64 z (sparse_int64 z vs) (length vs) ≡ ok vs
  unfolding unsparse_int64 sparse_int64
  unsparse_int64-sparse_int64 vs h fits =
      let raw : Bytes = pack_varints [] vs in
      rw
        (
          unmarshal_sparse-build_bitmap vs is_some (compress z raw) (omega arith),
          sparse_values-compress (build_bitmap vs is_some).1 raw (length vs) 10
              (λ e. no_varints vs (sym (count_present-build_bitmap vs is_some) ∙ e))
              (length-pack_varints vs) (omega (arith, length-pack_varints vs)),
        )
        (read_numbers-pack_varints (build_bitmap vs is_some).0 0 vs (build_bitmap-Marks vs is_some)
          h)

  no_blobs : (vs : List (Option Bytes)) → count_present (map is_some vs) ≡ 0 → pack_blobs [] vs ≡ []
  unfolding pack_blobs
  no_blobs [] h = refl
  no_blobs (none ∷ vs) h = no_blobs vs h
  no_blobs (some v ∷ vs) h = absurd (omega (arith, h))

  length-pack_blobs :
      (vs : List (Option Bytes))
      → AllSome (λ v. length v ≤ max_column_value_bytes) vs
      → length (pack_blobs [] vs) ≤ length vs * 1048584
  unfolding pack_blobs
  length-pack_blobs [] h = omega arith
  length-pack_blobs (none ∷ vs) h = omega (arith, length-pack_blobs vs h)
  length-pack_blobs (some v ∷ vs) h =
      rw
        (
          pack_blobs-append (le_bytes 4 (length v) ++ v) vs,
          length-append (le_bytes 4 (length v) ++ v) (pack_blobs [] vs),
        )
        (omega (
          arith,
          length-append (le_bytes 4 (length v)) v,
          length-le_bytes 4 (length v),
          length-pack_blobs vs h.1,
          h.0,
        ))

  AllSome-short :
      (vs : List (Option Bytes))
      → AllSome (λ v. length v ≤ max_column_value_bytes) vs
      → AllSome (λ v. length v < 2 ^ 32) vs
  AllSome-short [] h = tt
  AllSome-short (none ∷ vs) h = AllSome-short vs h
  AllSome-short (some v ∷ vs) h = (omega (arith, h.0), AllSome-short vs h.1)

  -- Over a lossless codec, UnsparseBytes inverts SparseBytes on fewer than 2^32 values of at most 1
  -- MiB, each missing or there, maybe empty, that take at most 2 GiB packed.
  pub unsparse_bytes-sparse_bytes :
      (vs : List (Option Bytes))
      → AllSome (λ v. length v ≤ max_column_value_bytes) vs
      → length (pack_blobs [] vs) ≤ max_block_bytes
      → length vs < 2 ^ 32
      → unsparse_bytes z (sparse_bytes z vs) (length vs) ≡ ok vs
  unfolding unsparse_bytes sparse_bytes
  unsparse_bytes-sparse_bytes vs h fits few =
      let raw : Bytes = pack_blobs [] vs in
      rw
        (
          unmarshal_sparse-build_bitmap vs is_some (compress z raw) few,
          sparse_values-compress (build_bitmap vs is_some).1 raw (length vs) 1048584
              (λ e. no_blobs vs (sym (count_present-build_bitmap vs is_some) ∙ e))
              (length-pack_blobs vs h) fits,
        )
        (read_blobs-pack_blobs (build_bitmap vs is_some).0 0 vs (build_bitmap-Marks vs is_some)
          (AllSome-short vs h))

-- UnsparseBool inverts SparseBool on fewer than 2^32 values, each true, false or missing.
pub unsparse_bool-sparse_bool :
    (vs : List (Option Bool))
    → length vs < 2 ^ 32
    → unsparse_bool (sparse_bool vs) (length vs) ≡ ok vs
unfolding unsparse_bool sparse_bool
unsparse_bool-sparse_bool vs few =
    let b = build_bitmap vs is_some in
    let packed : Bytes = set_values 0 (replicate ((b.1 + 7) / 8) 0) vs in
    rw (unmarshal_sparse-build_bitmap vs is_some packed few) (
      ap ok (
        read_bools-present b.0 packed 0 0 vs (build_bitmap-Marks vs is_some)
          (rw (count_present-build_bitmap vs is_some) (set_values-Marks vs))))
