-- ===== src/TextIndex/Reader.antt =====
-- index/reader.go on the bytes of the file, which os.ReadFile returns. An offset into a slice is the list
-- from there on.
pub mod Intersect
pub mod Postings
pub mod File
pub mod Lookup
use opentrace.Base.{
  ℕ, zero, suc, ◌+◌, ◌-◌, ◌/◌, ◌%◌, ◌^◌, List, [], ◌∷◌, ◌++◌, Bytes, Bool, true, false, not, ◌&&◌,
  ◌||◌, length, get_elem?, take, drop, ltb, leb, ◌==◌, codes, if◌then◌else◌, bytes_eq, Option, none,
  some, Result, ok, err, ◌>>=◌, ◌>>◌, guard, map_err,
}
use opentrace.Encoding.Word.{le_word}
use opentrace.Encoding.Varint.{uvarint}
use opentrace.Encoding.Zstd.{Zstd, ZstdError, decompress}
use opentrace.TextIndex.Tokenizer.{Letters, tokenize_unique}
use opentrace.TextIndex.Builder.{IndexTerm, text_lt}

pub data IndexError : Type 0 where
  unreadable index_too_short bad_magic table_overflow table_truncated entry_truncated : IndexError
  postings_overflow bad_delta : IndexError
  bad_postings : ZstdError → IndexError

pub record Reader : Type 0 where
  pub terms : List IndexTerm
  pub postings_data : Bytes
  pub entry_count : ℕ

-- The loop over the entries of the term table.
unfoldable pub read_terms : ℕ → Bytes → Result IndexError (List IndexTerm)
read_terms zero table = ok []
read_terms (suc count) table = do
  guard (leb 2 (length table)) table_truncated
  let term_len = le_word 2 table
  let behind = drop 2 table
  guard (leb (term_len + 8) (length behind)) entry_truncated
  let fields = drop term_len behind
  terms ← read_terms count (drop 8 fields)
  ok (
      record {
        term = take term_len behind;
        postings_offset = le_word 4 fields;
        postings_len = le_word 4 (drop 4 fields);
      }
      ∷ terms)

unfoldable pub open_reader : Bytes → Result IndexError Reader
unfolding read_terms
open_reader bytes = do
  guard (leb 16 (length bytes)) index_too_short
  guard (bytes_eq (take 4 bytes) (codes "OTIX")) bad_magic
  let table_size = le_word 4 (drop 12 bytes)
  guard (leb (16 + table_size) (length bytes)) table_overflow
  let body = drop 16 bytes
  terms ← read_terms (le_word 4 (drop 4 bytes)) (take table_size body)
  ok (record {
    terms = terms;
    postings_data = drop table_size body;
    entry_count = le_word 4 (drop 8 bytes);
  })

-- `r.terms[i].term >= term`, which sort.Search asks within bounds.
abbrev not_before : Bytes → Option IndexTerm → Bool
not_before term none = false
not_before term (some t) = not (text_lt t.term term)

-- The loop of sort.Search. Each round makes the range smaller, so its length is fuel enough.
unfoldable pub search_terms : ℕ → List IndexTerm → Bytes → ℕ → ℕ → ℕ
search_terms zero terms term i j = i
search_terms (suc fuel) terms term i j =
    let h = (i + j) / 2 in
    let upper = search_terms fuel terms term (h + 1) j in
    let lower = search_terms fuel terms term i h in
    if ltb i j then (if not_before term (get_elem? terms h) then lower else upper) else i

abbrev delta_or_fail : Option (ℕ × Bytes) → Result IndexError (ℕ × Bytes)
delta_or_fail none = err bad_delta
delta_or_fail (some p) = ok p

-- A varint takes a byte at least, so the length is fuel enough; sums of uint32s wrap.
unfoldable pub read_rows : ℕ → ℕ → Bytes → Result IndexError (List ℕ)
read_rows zero prev raw = ok []
read_rows (suc fuel) prev [] = ok []
read_rows (suc fuel) prev (b ∷ bs) = do
  (delta, rest) ← delta_or_fail (uvarint (b ∷ bs))
  let id = (prev + delta) % 2 ^ 32
  ids ← read_rows fuel id rest
  ok (id ∷ ids)

-- The intersection of two sorted lists of rows.
unfoldable pub intersect_sorted : List ℕ → List ℕ → List ℕ
intersect_sorted [] ys = []
intersect_sorted (x ∷ xs) [] = []
intersect_sorted (x ∷ xs) (y ∷ ys) = elim (x == y) [
  | true ↦ x ∷ intersect_sorted xs ys
  | false ↦ elim (ltb x y) [
    | true ↦ intersect_sorted xs (y ∷ ys)
    | false ↦ intersect_sorted (x ∷ xs) ys
  ]
]

abbrev pub no_rows : List ℕ → Bool
no_rows [] = true
no_rows (r ∷ rs) = false

-- The loop over the other posting lists, which ends early when nothing is left.
unfoldable pub intersect_all : List ℕ → List (List ℕ) → List ℕ
unfolding intersect_sorted
intersect_all result [] = result
intersect_all result (rows ∷ lists) =
    let both = intersect_sorted result rows in
    let rest = intersect_all both lists in if no_rows both then [] else rest

abbrev pub intersection : List (List ℕ) → List ℕ
intersection [] = []
intersection (rows ∷ lists) = intersect_all rows lists

module _ (z : Zstd) where
  unfoldable pub read_postings : Reader → IndexTerm → Result IndexError (List ℕ)
  unfolding read_rows
  read_postings r t = do
    guard (leb (t.postings_offset + t.postings_len) (length r.postings_data)) postings_overflow
    raw ←
        map_err bad_postings
          (decompress z (take t.postings_len (drop t.postings_offset r.postings_data)))
    read_rows (length raw) 0 raw

  abbrev rows_of : Reader → Bytes → Option IndexTerm → Result IndexError (List ℕ)
  rows_of r term none = ok []
  rows_of r term (some t) = if bytes_eq t.term term then read_postings r t else ok []

  unfoldable pub lookup : Reader → Bytes → Result IndexError (List ℕ)
  unfolding search_terms
  lookup r term =
      let n = length r.terms in rows_of r term (get_elem? r.terms (search_terms n r.terms term 0 n))

  -- The posting lists of the terms; `none` as soon as one is empty.
  unfoldable pub lookup_all : Reader → List Bytes → Result IndexError (Option (List (List ℕ)))
  unfolding lookup
  lookup_all r [] = ok (some [])
  lookup_all r (t ∷ ts) = do
    rows ← lookup r t
    let more = lookup_all r ts
    (if no_rows rows
        then ok none
        else (do lists ← more; ok (elim lists [ none ↦ none | some ls ↦ some (rows ∷ ls) ])))

  abbrev pub rows_in_all : Option (List (List ℕ)) → List ℕ
  rows_in_all none = []
  rows_in_all (some lists) = intersection lists

  unfoldable pub search_index : Letters → Reader → Bytes → Result IndexError (List ℕ)
  unfolding lookup_all
  search_index l r query = do found ← lookup_all r (tokenize_unique l query); ok (rows_in_all found)
