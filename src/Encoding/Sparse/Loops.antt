-- ===== src/Encoding/Sparse/Loops.antt =====
-- The loops over the strings and the int64s of a sparse column read back what was packed (encoding/sparse.go).
use opentrace.Base.{
  ℕ, ◌+◌, ◌≤◌, ◌≡◌, refl, sym, ◌∙◌, arith, List, [], ◌∷◌, ◌++◌, Bytes, IsWord, All, true, false,
  length, map, Option, none, some, ok, append-nil, append_assoc,
}
use opentrace.Encoding.Framing.{len_extended, append_len_string}
use opentrace.Encoding.Framing.RoundTrip.{read_string-append_len_string}
use opentrace.Encoding.Varint.{put_varint, put_uvarint, varint, uvarint}
use opentrace.Encoding.Varint.RoundTrip.{varint-put_varint}
use opentrace.Encoding.Zstd.{max_column_value_bytes}
use opentrace.Encoding.Columns.{pack_strings, pack_strings-append}
use opentrace.Encoding.Sparse.{
  is_text, present_texts, pack_varints, is_some, read_text, read_texts, read_number, read_numbers,
}
use opentrace.Encoding.Sparse.Marks.{Marks, Marks-head, Marks-tail}

-- The loop of UnsparseStrings.
pub read_texts-pack_strings :
    (bitmap : Bytes) (i : ℕ) (vs : List Bytes)
    → Marks bitmap i (map is_text vs)
    → All (λ v. length v ≤ max_column_value_bytes) vs
    → read_texts len_extended bitmap i (length vs) (pack_strings [] (present_texts vs)) ≡ ok vs
unfolding read_texts read_text present_texts pack_strings
read_texts-pack_strings bitmap i [] marks h = refl
read_texts-pack_strings bitmap i ([] ∷ vs) marks h =
    rw
      (
        Marks-head bitmap i false (map is_text vs) marks,
        read_texts-pack_strings bitmap (i + 1) vs (Marks-tail bitmap i false (map is_text vs) marks)
            h.1,
      )
      refl
read_texts-pack_strings bitmap i ((b ∷ bs) ∷ vs) marks h =
    rw
      (
        Marks-head bitmap i true (map is_text vs) marks,
        pack_strings-append (append_len_string [] (b ∷ bs)) (present_texts vs),
        read_string-append_len_string (b ∷ bs) (pack_strings [] (present_texts vs))
            (omega (arith, h.0)),
        read_texts-pack_strings bitmap (i + 1) vs (Marks-tail bitmap i true (map is_text vs) marks)
            h.1,
      )
      refl

pub pack_varints-append :
    (buf : Bytes) (vs : List (Option ℕ)) → pack_varints buf vs ≡ buf ++ pack_varints [] vs
unfolding pack_varints put_varint put_uvarint
pack_varints-append buf [] = sym (append-nil buf)
pack_varints-append buf (none ∷ vs) = pack_varints-append buf vs
pack_varints-append buf (some v ∷ vs) =
    pack_varints-append (put_varint buf v) vs
    ∙ rw append_assoc (rw (← pack_varints-append (put_varint [] v) vs))

-- What holds of every value that is there.
abbrev pub AllSome : {A : Type 0} → (A → Type 0) → List (Option A) → Type 0
AllSome P [] = Unit {0}
AllSome P (none ∷ vs) = AllSome P vs
AllSome P (some v ∷ vs) = P v × AllSome P vs

read_number-none : (raw : Bytes) → read_number false raw ≡ ok (none, raw)
unfolding read_number
read_number-none raw = refl

read_number-some :
    (raw : Bytes) (v : ℕ) (rest : Bytes)
    → varint raw ≡ some (v, rest)
    → read_number true raw ≡ ok (some v, rest)
unfolding read_number
read_number-some [] v rest h = unfold varint uvarint in absurd cc
read_number-some (b ∷ bs) v rest h = rw h refl

read_number-put_varint :
    (v : ℕ) (rest : Bytes)
    → IsWord 64 v
    → read_number true (put_varint [] v ++ rest) ≡ ok (some v, rest)
read_number-put_varint v rest h =
    read_number-some (put_varint [] v ++ rest) v rest (varint-put_varint v rest h)

-- The loop of UnsparseInt64.
pub read_numbers-pack_varints :
    (bitmap : Bytes) (i : ℕ) (vs : List (Option ℕ))
    → Marks bitmap i (map is_some vs)
    → AllSome (IsWord 64) vs
    → read_numbers bitmap i (length vs) (pack_varints [] vs) ≡ ok vs
unfolding read_numbers pack_varints
read_numbers-pack_varints bitmap i [] marks h = refl
read_numbers-pack_varints bitmap i (none ∷ vs) marks h =
    rw
      (
        Marks-head bitmap i false (map is_some vs) marks,
        read_number-none (pack_varints [] vs),
        read_numbers-pack_varints bitmap (i + 1) vs
            (Marks-tail bitmap i false (map is_some vs) marks) h,
      )
      refl
read_numbers-pack_varints bitmap i (some v ∷ vs) marks h =
    rw
      (
        Marks-head bitmap i true (map is_some vs) marks,
        pack_varints-append (put_varint [] v) vs,
        read_number-put_varint v (pack_varints [] vs) h.0,
        read_numbers-pack_varints bitmap (i + 1) vs
            (Marks-tail bitmap i true (map is_some vs) marks) h.1,
      )
      refl
