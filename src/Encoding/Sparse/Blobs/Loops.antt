-- ===== src/Encoding/Sparse/Blobs/Loops.antt =====
-- The loop of UnsparseBytes reads back what was packed (encoding/sparse.go).
use opentrace.Base.{
  ℕ, ◌+◌, ◌^◌, ◌<◌, ◌≡◌, refl, sym, ◌∙◌, arith, List, [], ◌∷◌, ◌++◌, Bytes, true, false, length,
  map, Option, none, some, ok, append-nil, append_assoc, length-append, le→leb, take-append,
  drop-append,
}
use opentrace.Encoding.Word.{le_bytes, length-le_bytes, le_word-le_bytes, drop-le_bytes}
use opentrace.Encoding.Sparse.{is_some}
use opentrace.Encoding.Sparse.Blobs.{pack_blobs, read_blob, read_blobs}
use opentrace.Encoding.Sparse.Marks.{Marks, Marks-head, Marks-tail}
use opentrace.Encoding.Sparse.Loops.{AllSome}

pub pack_blobs-append :
    (buf : Bytes) (vs : List (Option Bytes)) → pack_blobs buf vs ≡ buf ++ pack_blobs [] vs
unfolding pack_blobs
pack_blobs-append buf [] = sym (append-nil buf)
pack_blobs-append buf (none ∷ vs) = pack_blobs-append buf vs
pack_blobs-append buf (some v ∷ vs) =
    pack_blobs-append ((buf ++ le_bytes 4 (length v)) ++ v) vs
    ∙ rw (append_assoc, append_assoc, ← append_assoc (le_bytes 4 (length v)) v (pack_blobs [] vs))
        (rw (← pack_blobs-append (le_bytes 4 (length v) ++ v) vs) refl)

read_blob-none : (raw : Bytes) → read_blob false raw ≡ ok (none, raw)
unfolding read_blob
read_blob-none raw = refl

read_blob-le_bytes :
    (v rest : Bytes)
    → length v < 2 ^ 32
    → read_blob true ((le_bytes 4 (length v) ++ v) ++ rest) ≡ ok (some v, rest)
unfolding read_blob
read_blob-le_bytes v rest h =
    let size : Bytes = le_bytes 4 (length v) in
    rw
      (
        append_assoc size v rest,
        le→leb 4 (length (size ++ (v ++ rest)))
            (omega (arith, length-append size (v ++ rest), length-le_bytes 4 (length v))),
        drop-le_bytes 4 (length v) (v ++ rest),
        le_word-le_bytes 4 (length v) (v ++ rest) (omega arith),
        le→leb (length v) (length (v ++ rest)) (omega (arith, length-append v rest)),
        take-append v rest,
        drop-append v rest,
      )
      refl

-- The loop of UnsparseBytes.
pub read_blobs-pack_blobs :
    (bitmap : Bytes) (i : ℕ) (vs : List (Option Bytes))
    → Marks bitmap i (map is_some vs)
    → AllSome (λ v. length v < 2 ^ 32) vs
    → read_blobs bitmap i (length vs) (pack_blobs [] vs) ≡ ok vs
unfolding read_blobs pack_blobs
read_blobs-pack_blobs bitmap i [] marks h = refl
read_blobs-pack_blobs bitmap i (none ∷ vs) marks h =
    rw
      (
        Marks-head bitmap i false (map is_some vs) marks,
        read_blob-none (pack_blobs [] vs),
        read_blobs-pack_blobs bitmap (i + 1) vs (Marks-tail bitmap i false (map is_some vs) marks)
            h,
      )
      refl
read_blobs-pack_blobs bitmap i (some v ∷ vs) marks h =
    rw
      (
        Marks-head bitmap i true (map is_some vs) marks,
        pack_blobs-append (le_bytes 4 (length v) ++ v) vs,
        read_blob-le_bytes v (pack_blobs [] vs) h.0,
        read_blobs-pack_blobs bitmap (i + 1) vs (Marks-tail bitmap i true (map is_some vs) marks)
            h.1,
      )
      refl
