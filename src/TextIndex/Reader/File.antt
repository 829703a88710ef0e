-- ===== src/TextIndex/Reader/File.antt =====
-- Writing and reading the file of an index (index/builder.go, index/reader.go).
use opentrace.Base.{
  ℕ, suc, ◌+◌, ◌^◌, ◌<◌, ◌≡◌, refl, sym, ◌∙◌, arith, List, [], ◌∷◌, ◌++◌, Bytes, All, true, length,
  drop, leb, le→leb, length-append, append_assoc, take-append, drop-append, codes, bytes_eq, ok,
  ◌>>=◌,
}
use opentrace.Encoding.Word.{le_bytes, le_word, length-le_bytes, le_word-le_bytes, drop-le_bytes}
use opentrace.TextIndex.Builder.{IndexTerm, term_bytes, term_table}
use opentrace.TextIndex.Reader.{read_terms, open_reader}

-- What fits into the fields of a term entry.
pub record IsEntry (t : IndexTerm) : Type 0 where
  pub short : length t.term < 2 ^ 16
  pub near : t.postings_offset < 2 ^ 32
  pub small : t.postings_len < 2 ^ 32

module _ (t : IndexTerm) (rest : Bytes) (i : IsEntry t) where
  abbrev fields : Bytes
  fields = le_bytes 4 t.postings_offset ++ (le_bytes 4 t.postings_len ++ rest)

  abbrev behind_length : Bytes
  behind_length = t.term ++ fields

  term_bytes_lem : term_bytes t ++ rest ≡ le_bytes 2 (length t.term) ++ behind_length
  unfolding term_bytes
  term_bytes_lem =
      rw
        (
          append_assoc (le_bytes 2 (length t.term)),
          append_assoc t.term,
          append_assoc (le_bytes 4 t.postings_offset),
        )
        refl

  drop-fields : drop 8 fields ≡ rest
  unfolding le_bytes
  drop-fields = refl

  read_terms_step :
      (count : ℕ)
      → read_terms (suc count) (term_bytes t ++ rest)
        ≡ (do terms ← read_terms count rest; ok (t ∷ terms))
  unfolding read_terms
  read_terms_step count =
      let table = le_bytes 2 (length t.term) ++ behind_length in
      let word : le_word 2 table ≡ length t.term =
        le_word-le_bytes 2 (length t.term) behind_length (omega (arith, i.short)) in
      let size = length-append (le_bytes 2 (length t.term)) behind_length in
      let size' = length-append t.term fields in
      let size'' =
        length-append (le_bytes 4 t.postings_offset) (le_bytes 4 t.postings_len ++ rest) in
      let size''' = length-append (le_bytes 4 t.postings_len) rest in
      let long : leb 2 (length table) ≡ true =
        le→leb 2 (length table) (omega (arith, length-le_bytes 2 (length t.term))) in
      let whole : leb (length t.term + 8) (length behind_length) ≡ true =
        le→leb (length t.term + 8) (length behind_length)
          (omega (arith, length-le_bytes 4 t.postings_offset, length-le_bytes 4 t.postings_len)) in
      let offset : le_word 4 fields ≡ t.postings_offset =
        le_word-le_bytes 4 t.postings_offset (le_bytes 4 t.postings_len ++ rest)
          (omega (arith, i.near)) in
      let postings : le_word 4 (le_bytes 4 t.postings_len ++ rest) ≡ t.postings_len =
        le_word-le_bytes 4 t.postings_len rest (omega (arith, i.small)) in
      rw
        (
          term_bytes_lem,
          long,
          word,
          drop-le_bytes 2 (length t.term) behind_length,
          whole,
          drop-append t.term fields,
          take-append t.term fields,
          drop-fields,
          offset,
          drop-le_bytes 4 t.postings_offset (le_bytes 4 t.postings_len ++ rest),
          postings,
        )
        refl

read_terms-term_table :
    (ts : List IndexTerm) → All IsEntry ts → read_terms (length ts) (term_table ts) ≡ ok ts
unfolding term_table read_terms
read_terms-term_table [] h = refl
read_terms-term_table (t ∷ ts) (i, h) =
    read_terms_step t (term_table ts) i (length ts) ∙ rw (read_terms-term_table ts h) refl

pub open_reader_lem :
    (ts : List IndexTerm) (entry_count : ℕ) (postings : Bytes)
    → All IsEntry ts
    → length ts < 2 ^ 32
    → entry_count < 2 ^ 32
    → length (term_table ts) < 2 ^ 32
    → open_reader (
        codes "OTIX"
        ++ (le_bytes 4 (length ts)
            ++ (le_bytes 4 entry_count
                ++ (le_bytes 4 (length (term_table ts)) ++ (term_table ts ++ postings)))))
      ≡ ok (record { terms = ts; postings_data = postings; entry_count = entry_count })
unfolding open_reader le_bytes bytes_eq
open_reader_lem ts entry_count postings h few count short =
    let body = term_table ts ++ postings in
    let table_size : le_word 4 (le_bytes 4 (length (term_table ts)) ++ body)
        ≡ length (term_table ts) =
      le_word-le_bytes 4 (length (term_table ts)) body (omega arith) in
    let terms_word =
      le_word-le_bytes 4 (length ts)
        (le_bytes 4 entry_count ++ (le_bytes 4 (length (term_table ts)) ++ body)) (omega arith) in
    let count_word =
      le_word-le_bytes 4 entry_count (le_bytes 4 (length (term_table ts)) ++ body) (omega arith) in
    let long : leb 16 (16 + length body) ≡ true = le→leb 16 (16 + length body) (omega arith) in
    let size : 16 + length body
        ≡ suc (
            suc (
              suc (
                suc (
                  suc (
                    suc (
                      suc
                        (suc (suc (suc (suc (suc (suc (suc (suc (suc (length body)))))))))))))))) =
      omega arith in
    let inside : leb (16 + length (term_table ts)) (16 + length body) ≡ true =
      le→leb (16 + length (term_table ts)) (16 + length body)
        (omega (arith, length-append (term_table ts) postings)) in
    rw
      (
        open_reader,
        sym size,
        long,
        table_size,
        inside,
        terms_word,
        count_word,
        take-append (term_table ts) postings,
        drop-append (term_table ts) postings,
        read_terms-term_table ts h,
      )
      refl
