-- ===== src/Encoding/Sparse/Marks.antt =====
-- The bitmap and the parts of a sparse column are found again (encoding/sparse.go).
use opentrace.Base.{
  ℕ, suc, ◌+◌, ◌/◌, ◌^◌, ◌≤◌, ◌<◌, ◌≡◌, refl, ◌∙◌, arith, List, [], ◌∷◌, ◌++◌, Bytes, Bool, true,
  false, length, map, get_or, replicate, ok, append_assoc, length-append, length-set,
  length-replicate, le→leb, take-append, drop-append,
}
use opentrace.Encoding.Word.{le_bytes, length-le_bytes, le_word-le_bytes, drop-le_bytes}
use opentrace.Encoding.Sparse.{
  set_bits, set_bit, count_present, build_bitmap, get_bit, marshal_sparse, unmarshal_sparse,
}
use opentrace.Encoding.Sparse.Bitmap.{get_bit-build_bitmap}

length-set_bits :
    (ps : List Bool) (i : ℕ) (bitmap : Bytes) → length (set_bits i bitmap ps) ≡ length bitmap
unfolding set_bits set_bit
length-set_bits [] i bitmap = refl
length-set_bits (true ∷ ps) i bitmap =
    length-set_bits ps (i + 1) (set_bit bitmap i) ∙ length-set bitmap (i / 8) _
length-set_bits (false ∷ ps) i bitmap = length-set_bits ps (i + 1) bitmap

pub length-build_bitmap :
    {A : Type 0} (values : List A) (is_there : A → Bool)
    → length (build_bitmap values is_there).0 ≡ (length values + 7) / 8
unfolding build_bitmap
length-build_bitmap values is_there =
    length-set_bits (map is_there values) 0 (replicate ((length values + 7) / 8) 0)
    ∙ length-replicate {A = ℕ} ((length values + 7) / 8) 0

pub count_present-le : (ps : List Bool) → count_present ps ≤ length ps
count_present-le [] = omega arith
count_present-le (true ∷ ps) = omega (arith, count_present-le ps)
count_present-le (false ∷ ps) = omega (arith, count_present-le ps)

pub unmarshal_sparse-marshal_sparse :
    (n : ℕ) (bitmap values : Bytes)
    → n < 2 ^ 32
    → length bitmap < 2 ^ 32
    → unmarshal_sparse (marshal_sparse n bitmap values) ≡ ok (n, bitmap, values)
unfolding unmarshal_sparse marshal_sparse
unmarshal_sparse-marshal_sparse n bitmap values h k =
    let body : Bytes = bitmap ++ values in
    rw
      (
        append_assoc (le_bytes 4 n ++ le_bytes 4 (length bitmap)) bitmap values,
        append_assoc (le_bytes 4 n) (le_bytes 4 (length bitmap)) body,
        le→leb 8 (length (le_bytes 4 n ++ (le_bytes 4 (length bitmap) ++ body))) (
            omega (
              arith,
              length-append (le_bytes 4 n) (le_bytes 4 (length bitmap) ++ body),
              length-append (le_bytes 4 (length bitmap)) body,
              length-le_bytes 4 n,
              length-le_bytes 4 (length bitmap),
            )),
        drop-le_bytes 4 n (le_bytes 4 (length bitmap) ++ body),
        le_word-le_bytes 4 (length bitmap) body (omega arith),
        le→leb (8 + length bitmap) (length (le_bytes 4 n ++ (le_bytes 4 (length bitmap) ++ body))) (
            omega (
              arith,
              length-append (le_bytes 4 n) (le_bytes 4 (length bitmap) ++ body),
              length-append (le_bytes 4 (length bitmap)) body,
              length-append bitmap values,
              length-le_bytes 4 n,
              length-le_bytes 4 (length bitmap),
            )),
        drop-le_bytes 4 (length bitmap) body,
        le_word-le_bytes 4 n (le_bytes 4 (length bitmap) ++ body) (omega arith),
        take-append bitmap values,
        drop-append bitmap values,
      )
      refl

-- The bits of a bitmap from the place `i` on are those of `ps`.
abbrev pub Marks : Bytes → ℕ → List Bool → Type 0
Marks bitmap i ps = (k : ℕ) → get_bit bitmap (i + k) ≡ get_or ps k false

pub Marks-head :
    (bitmap : Bytes) (i : ℕ) (p : Bool) (ps : List Bool)
    → Marks bitmap i (p ∷ ps)
    → get_bit bitmap i ≡ p
Marks-head bitmap i p ps h = let e : i + 0 ≡ i = omega arith in rw e at (h 0)

pub Marks-tail :
    (bitmap : Bytes) (i : ℕ) (p : Bool) (ps : List Bool)
    → Marks bitmap i (p ∷ ps)
    → Marks bitmap (i + 1) ps
Marks-tail bitmap i p ps h k = let e : i + suc k ≡ i + 1 + k = omega arith in rw e at (h (suc k))

pub build_bitmap-Marks :
    {A : Type 0} (values : List A) (is_there : A → Bool)
    → Marks (build_bitmap values is_there).0 0 (map is_there values)
build_bitmap-Marks values is_there k =
    let e : 0 + k ≡ k = omega arith in rw e (get_bit-build_bitmap values is_there k)
