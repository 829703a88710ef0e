-- ===== src/TextIndex/Builder.antt =====
-- index/builder.go. The map from terms to rows is the list of its pairs, in no order that matters; a row
-- is a uint32. The file's bytes are what Write writes; creating and syncing it is I/O.
pub mod Rows
pub mod Sorting
use opentrace.Base.{
  ℕ, zero, suc, ◌+◌, ◌-◌, ◌%◌, ◌^◌, List, [], ◌∷◌, ◌++◌, Bytes, Bool, true, false, length, ltb,
  codes, if◌then◌else◌, bytes_eq, ◌||◌, ◌&&◌, ◌==◌,
}
use opentrace.Encoding.Word.{le_bytes}
use opentrace.Encoding.Varint.{put_uvarint}
use opentrace.Encoding.Zstd.{Zstd, compress}
use opentrace.TextIndex.Tokenizer.{Letters, tokenize_unique}

pub record Builder : Type 0 where
  pub terms : List (Bytes × List ℕ)

unfoldable pub new_builder : Builder
new_builder = record { terms = [] }

-- `b.terms[t] = append(b.terms[t], rowIdx)`
unfoldable pub append_row : Bytes → ℕ → List (Bytes × List ℕ) → List (Bytes × List ℕ)
append_row t row [] = (t, row ∷ []) ∷ []
append_row t row ((u, rows) ∷ terms) =
    let rest = append_row t row terms in
    if bytes_eq u t then (u, rows ++ (row ∷ [])) ∷ terms else (u, rows) ∷ rest

unfoldable pub append_rows : ℕ → List Bytes → List (Bytes × List ℕ) → List (Bytes × List ℕ)
unfolding append_row
append_rows row [] terms = terms
append_rows row (t ∷ ts) terms = append_rows row ts (append_row t row terms)

unfoldable pub term_count : Builder → ℕ
term_count b = length b.terms

-- The order of Go's strings.
unfoldable pub text_lt : Bytes → Bytes → Bool
text_lt s [] = false
text_lt [] (c ∷ cs) = true
text_lt (b ∷ bs) (c ∷ cs) = ltb b c || (b == c && text_lt bs cs)

unfoldable pub insert_term : Bytes × List ℕ → List (Bytes × List ℕ) → List (Bytes × List ℕ)
insert_term t [] = t ∷ []
insert_term t (u ∷ us) =
    let rest = insert_term t us in if text_lt u.0 t.0 then u ∷ rest else t ∷ u ∷ us

-- sort.Strings on the terms
unfoldable pub sort_terms : List (Bytes × List ℕ) → List (Bytes × List ℕ)
unfolding insert_term
sort_terms [] = []
sort_terms (t ∷ ts) = insert_term t (sort_terms ts)

-- Differences of uint32s wrap.
unfoldable pub posting_deltas : Bytes → ℕ → List ℕ → Bytes
posting_deltas buf prev [] = buf
posting_deltas buf prev (id ∷ ids) =
    posting_deltas (put_uvarint buf ((id + 2 ^ 32 - prev) % 2 ^ 32)) id ids

pub record IndexTerm : Type 0 where
  pub term : Bytes
  pub postings_offset : ℕ
  pub postings_len : ℕ

unfoldable pub term_bytes : IndexTerm → Bytes
term_bytes te =
    le_bytes 2 (length te.term)
    ++ (te.term ++ (le_bytes 4 te.postings_offset ++ le_bytes 4 te.postings_len))

unfoldable pub term_table : List IndexTerm → Bytes
unfolding term_bytes
term_table [] = []
term_table (te ∷ tes) = term_bytes te ++ term_table tes

module _ (l : Letters) where
  unfoldable pub add : ℕ → Bytes → Builder → Builder
  unfolding append_rows
  add row_idx message b = record { terms = append_rows row_idx (tokenize_unique l message) b.terms }

module _ (z : Zstd) where
  -- The loop over the sorted terms: their entries, and the postings so far.
  unfoldable pub write_postings : Bytes → List (Bytes × List ℕ) → List IndexTerm × Bytes
  unfolding posting_deltas
  write_postings postings [] = ([], postings)
  write_postings postings ((t, rows) ∷ terms) =
      let compressed = compress z (posting_deltas [] 0 rows) in
      let (entries, all) = write_postings (postings ++ compressed) terms in
      (
        record {
          term = t;
          postings_offset = length postings % 2 ^ 32;
          postings_len = length compressed % 2 ^ 32;
        }
            ∷ entries,
        all,
      )

  unfoldable pub index_file : ℕ → Builder → Bytes
  unfolding write_postings term_table sort_terms
  index_file entry_count b =
      let sorted = sort_terms b.terms in
      let (entries, postings) = write_postings [] sorted in
      let table = term_table entries in
      codes "OTIX"
      ++ (le_bytes 4 (length sorted)
          ++ (le_bytes 4 entry_count ++ (le_bytes 4 (length table) ++ (table ++ postings))))
