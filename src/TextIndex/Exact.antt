-- ===== src/TextIndex/Exact.antt =====
-- A search in the file of an index (internal/logstore/index) against a search in the messages themselves.
use opentrace.Base.{
  ℕ, zero, suc, ◌+◌, ◌^◌, ◌<◌, ◌≡◌, ◌⊎◌, refl, sym, ap, ◌∙◌, arith, List, [], ◌∷◌, ◌++◌, Bytes, All,
  Bool, true, false, ◌&&◌, length, get_elem?, ◌==◌, Option, none, some, ok, ◌>>=◌, Bool-cases, inl,
  inr,
}
use opentrace.Encoding.Zstd.{Zstd, IsLossless, compress}
use opentrace.TextIndex.Tokenizer.{Letters, is_seen, tokenize, tokenize_unique}
use opentrace.TextIndex.Builder.{
  Builder, new_builder, append_row, append_rows, posting_deltas, add, sort_terms, write_postings,
  term_table, index_file,
}
use opentrace.TextIndex.Builder.Rows.{add_all, matching, rows_for-add_all}
use opentrace.TextIndex.Builder.Sorting.{
  Apart, keys, append_row-Apart, sort_terms-Ascends, rows_for-sort_terms,
}
use opentrace.TextIndex.Reader.{
  Reader, open_reader, lookup, lookup_all, rows_in_all, intersection, no_rows, search_index,
}
use opentrace.TextIndex.Reader.Intersect.{
  IsFrom, IsFrom-weaken, has_row, has_row-below, all_have, intersection_lem,
}
use opentrace.TextIndex.Reader.Postings.{IsPosting, read_each-write_postings}
use opentrace.TextIndex.Reader.File.{IsEntry, open_reader_lem}
use opentrace.TextIndex.Reader.Lookup.{names, lookup-rows_for}

module _ (l : Letters) where
  abbrev pub has_token : Option Bytes → Bytes → Bool
  has_token none t = false
  has_token (some m) t = is_seen (tokenize l m) t

  -- Whether the message of a row has every token.
  abbrev pub has_tokens : List Bytes → Option Bytes → Bool
  has_tokens [] m = true
  has_tokens (t ∷ ts) m = has_token m t && has_tokens ts m

  abbrev pub answers_query : List Bytes → Option Bytes → Bool
  answers_query [] m = false
  answers_query (t ∷ ts) m = has_tokens (t ∷ ts) m

  matching-IsFrom : (row : ℕ) (ms : List Bytes) (t : Bytes) → IsFrom row (matching l row ms t)
  unfolding matching IsFrom
  matching-IsFrom row [] t = tt
  matching-IsFrom row (m ∷ ms) t = elim (Bool-cases (is_seen (tokenize l m) t)) [
    | inl e ↦ rw e (
      omega arith,
      IsFrom-weaken (suc row) (row + 1) (matching l (row + 1) ms t) (omega arith)
          (matching-IsFrom (row + 1) ms t),
    )
    | inr e ↦ rw e (
        IsFrom-weaken row (row + 1) (matching l (row + 1) ms t) (omega arith)
          (matching-IsFrom (row + 1) ms t))
  ]

  has_row-matching :
      (row k : ℕ) (ms : List Bytes) (t : Bytes)
      → has_row (matching l row ms t) (row + k) ≡ has_token (get_elem? ms k) t
  unfolding matching has_row
  has_row-matching row k [] t = refl
  has_row-matching row zero (m ∷ ms) t = elim (Bool-cases (is_seen (tokenize l m) t)) [
    | inl e ↦ rw e (ground arith)
    | inr e ↦ rw e (
        has_row-below (row + 1) (row + 0) (matching l (row + 1) ms t)
          (matching-IsFrom (row + 1) ms t) (omega arith))
  ]
  has_row-matching row (suc k) (m ∷ ms) t =
      let next : row + suc k ≡ row + 1 + k = omega arith in
      let other : (row == row + 1 + k) ≡ false = ground arith in
      let rest = has_row-matching (row + 1) k ms t in
      rw next (elim (Bool-cases (is_seen (tokenize l m) t)) [
        | inl e ↦ rw (e, other) rest
        | inr e ↦ rw e rest
      ])

  has_row_none : (rows : List ℕ) (k : ℕ) → no_rows rows ≡ true → has_row rows k ≡ false
  unfolding has_row
  has_row_none [] k h = refl
  has_row_none (r ∷ rows) k h = absurd cc

  module _ (z : Zstd) (r : Reader) (ms : List Bytes)
      (found : (t : Bytes) → lookup z r t ≡ ok (matching l 0 ms t)) where
    abbrev Answer : List Bytes → Type 0
    Answer ts =
        ((lookup_all z r ts ≡ ok none) × ((k : ℕ) → has_tokens ts (get_elem? ms k) ≡ false))
        ⊎ ((lists : List (List ℕ)) × (lookup_all z r ts ≡ ok (some lists))
            × (length lists ≡ length ts)
            × All (IsFrom 0) lists
            × ((k : ℕ) → all_have lists k ≡ has_tokens ts (get_elem? ms k)))

    row_has : (k : ℕ) (t : Bytes) → has_row (matching l 0 ms t) k ≡ has_token (get_elem? ms k) t
    row_has k t = let e : 0 + k ≡ k = omega arith in rw e at (has_row-matching 0 k ms t)

    answer : (ts : List Bytes) → Answer ts
    unfolding lookup_all
    answer [] = inr ([], refl, refl, tt, λ k. refl)
    answer (t ∷ ts) = elim (Bool-cases (no_rows (matching l 0 ms t))) [
      | inl e ↦ inl (
        rw (lookup_all, found t, e) refl,
        λ k.
            let absent = has_row_none (matching l 0 ms t) k e in
            let same = row_has k t in ground arith,
      )
      | inr e ↦ elim (answer ts) [
        | inl (gone, h) ↦
            inl (rw (lookup_all, found t, e, gone) refl, λ k. let absent = h k in ground arith)
        | inr (lists, eq, len, from, same) ↦ inr (
          matching l 0 ms t ∷ lists,
          rw (lookup_all, found t, e, eq) refl,
          ap suc len,
          (matching-IsFrom 0 ms t, from),
          λ k. rw (row_has k t, same k) refl,
        )
      ]
    ]

    found_rows :
        (ts : List Bytes)
        → (rows : List ℕ) × ((do found ← lookup_all z r ts; ok (rows_in_all z found)) ≡ ok rows)
          × IsFrom 0 rows
          × ((k : ℕ) → has_row rows k ≡ answers_query ts (get_elem? ms k))
    unfolding lookup_all IsFrom has_row
    found_rows [] = ([], refl, tt, λ k. refl)
    found_rows (t ∷ ts) = elim (answer (t ∷ ts)) [
      | inl (gone, h) ↦ ([], rw gone refl, tt, λ k. sym (h k))
      | inr ([], eq, len, from, same) ↦ absurd (omega (arith, len))
      | inr (rows ∷ lists, eq, len, from, same) ↦
          let (ascending, held) = intersection_lem rows lists from.0 from.1 in
          (intersection (rows ∷ lists), rw eq refl, ascending, λ k. held k ∙ same k)
    ]

append_rows-Apart :
    (row : ℕ) (ts : List Bytes) (us : List (Bytes × List ℕ))
    → Apart (keys us)
    → Apart (keys (append_rows row ts us))
unfolding append_rows
append_rows-Apart row [] us h = h
append_rows-Apart row (t ∷ ts) us h =
    append_rows-Apart row ts (append_row t row us) (append_row-Apart t row us h)

add_all-Apart :
    (l : Letters) (row : ℕ) (ms : List Bytes) (b : Builder)
    → Apart (keys b.terms)
    → Apart (keys (add_all l row ms b).terms)
unfolding add
add_all-Apart l row [] b h = h
add_all-Apart l row (m ∷ ms) b h =
    add_all-Apart l (row + 1) ms (add l row m b)
      (append_rows-Apart row (tokenize_unique l m) b.terms h)

module _ (z : Zstd) where
  write_postings-names :
      (terms : List (Bytes × List ℕ)) (pre : Bytes)
      → names (write_postings z pre terms).0 ≡ keys terms
  unfolding write_postings
  write_postings-names [] pre = refl
  write_postings-names ((t, rows) ∷ terms) pre =
      ap (λ (ns : List Bytes). t ∷ ns)
        (write_postings-names terms (pre ++ compress z (posting_deltas [] 0 rows)))

  length-write_postings :
      (terms : List (Bytes × List ℕ)) (pre : Bytes)
      → length (write_postings z pre terms).0 ≡ length terms
  unfolding write_postings
  length-write_postings [] pre = refl
  length-write_postings ((t, rows) ∷ terms) pre =
      ap suc (length-write_postings terms (pre ++ compress z (posting_deltas [] 0 rows)))

  write_postings-IsEntry :
      (terms : List (Bytes × List ℕ)) (pre : Bytes)
      → All (λ t. length t < 2 ^ 16) (keys terms)
      → All IsEntry (write_postings z pre terms).0
  unfolding write_postings
  write_postings-IsEntry [] pre h = tt
  write_postings-IsEntry ((t, rows) ∷ terms) pre h = (
    record { short = h.0; near = omega arith; small = omega arith },
    write_postings-IsEntry terms (pre ++ compress z (posting_deltas [] 0 rows)) h.1,
  )

  -- What fits into the fields of the format.
  pub record Fits (entry_count : ℕ) (terms : List (Bytes × List ℕ)) : Type 0 where
    pub count : entry_count < 2 ^ 32
    pub few : length terms < 2 ^ 32
    pub short : All (λ t. length t < 2 ^ 16) (keys terms)
    pub postings : All (λ p. IsPosting p.1) terms
    pub table : length (term_table (write_postings z [] terms).0) < 2 ^ 32
    pub total : length (write_postings z [] terms).1 < 2 ^ 32

  abbrev pub written_reader : ℕ → List (Bytes × List ℕ) → Reader
  written_reader entry_count terms = record {
    terms = (write_postings z [] terms).0;
    postings_data = (write_postings z [] terms).1;
    entry_count = entry_count;
  }

  -- Where the entry count and the sorted terms of a builder fit the fields of the format,
  -- OpenReader on the bytes that Write writes gives the term entries, the postings and the entry
  -- count that were written.
  pub open_reader-index_file :
      (entry_count : ℕ) (b : Builder)
      → Fits entry_count (sort_terms b.terms)
      → open_reader (index_file z entry_count b)
        ≡ ok (written_reader entry_count (sort_terms b.terms))
  unfolding index_file
  open_reader-index_file entry_count b f =
      let terms = sort_terms b.terms in
      let w = write_postings z [] terms in
      rw (length-write_postings terms []) at (
        open_reader_lem w.0 entry_count w.1 (write_postings-IsEntry terms [] f.short)
          (rw (length-write_postings terms []) f.few) f.count f.table)

  module _ (lossless : IsLossless z) (l : Letters) where
    lookup-written_reader :
        (entry_count : ℕ) (ms : List Bytes) (t : Bytes)
        → (let terms = sort_terms (add_all l 0 ms new_builder).terms in
            Fits entry_count terms
            → lookup z (written_reader entry_count terms) t ≡ ok (matching l 0 ms t))
    unfolding new_builder Apart
    lookup-written_reader entry_count ms t f =
        let b = add_all l 0 ms new_builder in
        let apart = add_all-Apart l 0 ms new_builder tt in
        let terms = sort_terms b.terms in
        lookup-rows_for z (written_reader entry_count terms) t terms
          (rw (write_postings-names terms []) (sort_terms-Ascends b.terms apart))
          (read_each-write_postings z lossless terms [] (written_reader entry_count terms)
            f.postings refl f.total)
        ∙ ap ok (rows_for-sort_terms t b.terms apart ∙ rows_for-add_all l ms t)

    pub search_index-index_file :
        (ms : List Bytes) (query : Bytes) (entry_count : ℕ)
        → Fits entry_count (sort_terms (add_all l 0 ms new_builder).terms)
        → (rows : List ℕ) × ((do
          r ← open_reader (index_file z entry_count (add_all l 0 ms new_builder))
          search_index z l r query)
            ≡ ok rows)
          × IsFrom 0 rows
          × ((k : ℕ) → has_row rows k ≡ answers_query l (tokenize_unique l query) (get_elem? ms k))
    unfolding search_index
    search_index-index_file ms query entry_count f =
        let b = add_all l 0 ms new_builder in
        rw (open_reader-index_file entry_count b f) (
          found_rows l z (written_reader entry_count (sort_terms b.terms)) ms
            (λ t. lookup-written_reader entry_count ms t f) (tokenize_unique l query))
