-- ===== src/TextIndex/Reader/Postings.antt =====
-- Writing and reading the posting lists of an index (index/builder.go, index/reader.go).
use opentrace.Base.{
  ℕ, zero, suc, ◌+◌, ◌-◌, ◌*◌, ◌%◌, ◌^◌, ◌≤◌, ◌<◌, ◌≡◌, refl, sym, ap, ◌∙◌, arith, List, [], ◌∷◌,
  ◌++◌, Bytes, IsWord, All, length, leb, le→leb, true, length-append, append_assoc, append-nil,
  take-append, drop-append, ok, Result, ◌>>=◌, some,
}
use opentrace.Encoding.Varint.{put_uvarint, uvarint_encoding, uvarint}
use opentrace.Encoding.Varint.RoundTrip.{uvarint-uvarint_encoding, length-uvarint_encoding}
use opentrace.Encoding.Zstd.{Zstd, IsLossless, max_block_bytes, compress}
use opentrace.Encoding.Zstd.Bounds.{decompress-compress}
use opentrace.TextIndex.Builder.{IndexTerm, posting_deltas, write_postings}
use opentrace.TextIndex.Reader.{Reader, IndexError, read_rows, read_postings}

abbrev row_delta : ℕ → ℕ → ℕ
row_delta prev id = (id + 2 ^ 32 - prev) % 2 ^ 32

posting_deltas-append :
    (buf : Bytes) (prev : ℕ) (ids : List ℕ)
    → posting_deltas buf prev ids ≡ buf ++ posting_deltas [] prev ids
unfolding posting_deltas put_uvarint
posting_deltas-append buf prev [] = sym (append-nil buf)
posting_deltas-append buf prev (id ∷ ids) =
    let code : Bytes = uvarint_encoding (row_delta prev id) in
    posting_deltas-append (buf ++ code) id ids
    ∙ rw append_assoc (rw (← posting_deltas-append code id ids))

posting_deltas-cons :
    (prev id : ℕ) (ids : List ℕ)
    → posting_deltas [] prev (id ∷ ids)
      ≡ uvarint_encoding (row_delta prev id) ++ posting_deltas [] id ids
posting_deltas-cons prev id ids =
    unfold posting_deltas put_uvarint in
    posting_deltas-append (uvarint_encoding (row_delta prev id)) id ids

-- One round of the reader on what starts with a varint.
read_rows_step :
    (fuel prev u : ℕ) (raw rest : Bytes)
    → uvarint raw ≡ some (u, rest)
    → read_rows (suc fuel) prev raw
      ≡ (do let id = (prev + u) % 2 ^ 32; ids ← read_rows fuel id rest; ok (id ∷ ids))
read_rows_step fuel prev u [] rest e = unfold uvarint in cc
read_rows_step fuel prev u (b ∷ bs) rest e = unfold read_rows in rw e

read_rows-posting_deltas :
    (fuel prev : ℕ) (ids : List ℕ)
    → length (posting_deltas [] prev ids) ≤ fuel
    → IsWord 32 prev
    → All (IsWord 32) ids
    → read_rows fuel prev (posting_deltas [] prev ids) ≡ ok ids
read_rows-posting_deltas zero prev [] enough h a = unfold read_rows posting_deltas in refl
read_rows-posting_deltas (suc fuel) prev [] enough h a = unfold read_rows posting_deltas in refl
read_rows-posting_deltas zero prev (id ∷ ids) enough h a =
    let code = uvarint_encoding (row_delta prev id) in
    absurd (
      omega (
        arith,
        ap (λ (l : Bytes). length l) (posting_deltas-cons prev id ids),
        length-append code (posting_deltas [] id ids),
        length-uvarint_encoding (row_delta prev id),
      ))
read_rows-posting_deltas (suc fuel) prev (id ∷ ids) enough h (i, a) =
    let d = row_delta prev id in
    let more = posting_deltas [] id ids in
    let wrapped : (prev + d) % 2 ^ 32 ≡ id = omega arith in
    let shorter : length more ≤ fuel = omega (
      arith,
      ap (λ (l : Bytes). length l) (posting_deltas-cons prev id ids),
      length-append (uvarint_encoding d) more,
      length-uvarint_encoding d,
    ) in
    rw (posting_deltas-cons prev id ids) (
      read_rows_step fuel prev d (uvarint_encoding d ++ more) more
        (uvarint-uvarint_encoding d more (omega arith))
      ∙ rw (wrapped, read_rows-posting_deltas fuel id ids shorter i a) refl)

length-posting_deltas :
    (prev : ℕ) (ids : List ℕ) → length (posting_deltas [] prev ids) ≤ length ids * 10
length-posting_deltas prev [] = unfold posting_deltas in omega arith
length-posting_deltas prev (id ∷ ids) = omega (
  arith,
  ap (λ (l : Bytes). length l) (posting_deltas-cons prev id ids),
  length-append (uvarint_encoding (row_delta prev id)) (posting_deltas [] id ids),
  length-uvarint_encoding (row_delta prev id),
  length-posting_deltas id ids,
)

-- Rows that the format can hold: uint32s, and not so many that a block is too large.
pub record IsPosting (rows : List ℕ) : Type 0 where
  pub words : All (IsWord 32) rows
  pub few : length rows * 10 ≤ max_block_bytes

module _ (z : Zstd) where
  abbrev block : List ℕ → Bytes
  block rows = compress z (posting_deltas [] 0 rows)

  blocks : List (Bytes × List ℕ) → Bytes
  blocks [] = []
  blocks ((t, rows) ∷ terms) = block rows ++ blocks terms

  write_postings-blocks :
      (terms : List (Bytes × List ℕ)) (pre : Bytes)
      → (write_postings z pre terms).1 ≡ pre ++ blocks terms
  unfolding write_postings blocks
  write_postings-blocks [] pre = sym (append-nil pre)
  write_postings-blocks ((t, rows) ∷ terms) pre =
      write_postings-blocks terms (pre ++ block rows) ∙ append_assoc pre (block rows) (blocks terms)

  -- The terms with the rows that their entries lead to.
  abbrev pub read_each : Reader → List IndexTerm → Result IndexError (List (Bytes × List ℕ))
  read_each r [] = ok []
  read_each r (t ∷ ts) = do
    rows ← read_postings z r t
    more ← read_each r ts
    ok ((t.term, rows) ∷ more)

  module _ (lossless : IsLossless z) where
    read_postings-block :
        (r : Reader) (t : IndexTerm) (rows : List ℕ) (pre post : Bytes)
        → IsPosting rows
        → r.postings_data ≡ pre ++ (block rows ++ post)
        → t.postings_offset ≡ length pre
        → t.postings_len ≡ length (block rows)
        → read_postings z r t ≡ ok rows
    unfolding read_postings
    read_postings-block r t rows pre post p eq offset len =
        let raw = posting_deltas [] 0 rows in
        let all = pre ++ (block rows ++ post) in
        let inside : leb (length pre + length (block rows)) (length all) ≡ true =
          le→leb (length pre + length (block rows)) (length all) (
            omega
              (arith, length-append pre (block rows ++ post), length-append (block rows) post)) in
        rw
          (
            eq,
            offset,
            len,
            inside,
            drop-append pre (block rows ++ post),
            take-append (block rows) post,
            decompress-compress z lossless raw (omega (arith, length-posting_deltas 0 rows, p.few)),
            read_rows-posting_deltas (length raw) 0 rows (omega arith) (omega arith) p.words,
          )
          refl

    -- Where every list fits a block and the postings are below 4 GiB, each entry leads to its rows.
    pub read_each-write_postings :
        (terms : List (Bytes × List ℕ)) (pre : Bytes) (r : Reader)
        → All (λ p. IsPosting p.1) terms
        → r.postings_data ≡ (write_postings z pre terms).1
        → length r.postings_data < 2 ^ 32
        → read_each r (write_postings z pre terms).0 ≡ ok terms
    unfolding write_postings blocks
    read_each-write_postings [] pre r h eq small = refl
    read_each-write_postings ((t, rows) ∷ terms) pre r (p, h) eq small =
        let rest = blocks terms in
        let eq' : r.postings_data ≡ pre ++ (block rows ++ rest) =
          eq ∙ write_postings-blocks ((t, rows) ∷ terms) pre in
        let size = ap (λ (l : Bytes). length l) eq' in
        let size' = length-append pre (block rows ++ rest) in
        let size'' = length-append (block rows) rest in
        let entry : IndexTerm = record {
          term = t;
          postings_offset = length pre % 2 ^ 32;
          postings_len = length (block rows) % 2 ^ 32;
        } in
        rw
          (
            read_postings-block r entry rows pre rest p eq' (omega arith) (omega arith),
            read_each-write_postings terms (pre ++ block rows) r h eq small,
          )
          refl
