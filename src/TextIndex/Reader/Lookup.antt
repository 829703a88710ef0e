-- ===== src/TextIndex/Reader/Lookup.antt =====
-- The binary search of lookup (index/reader.go) beside a search from the front.
use opentrace.Base.{
  ℕ, zero, suc, ◌+◌, ◌/◌, ◌≤◌, ◌<◌, ◌≡◌, refl, sym, arith, List, [], ◌∷◌, Bytes, All, true, false,
  length, get_elem?, ltb, if◌then◌else◌, bytes_eq, bytes_eq-eq, Option, none, some, Result, ok, err,
  ◌>>=◌, Bool-cases, inl, inr, le-or-lt,
}
use opentrace.Encoding.Zstd.{Zstd}
use opentrace.TextIndex.Builder.{IndexTerm, text_lt}
use opentrace.TextIndex.Builder.Rows.{rows_for}
use opentrace.TextIndex.Builder.Sorting.{Ascends, text_lt_irrefl, text_lt_trans, text_lt_total}
use opentrace.TextIndex.Reader.{
  Reader, IndexError, not_before, search_terms, rows_of, read_postings, lookup,
}
use opentrace.TextIndex.Reader.Postings.{read_each}

abbrev pub names : List IndexTerm → List Bytes
names [] = []
names (t ∷ ts) = t.term ∷ names ts

-- How many terms in front are before a text.
count_before : Bytes → List IndexTerm → ℕ
count_before term [] = 0
count_before term (t ∷ ts) =
    let rest = count_before term ts in if text_lt t.term term then suc rest else 0

module _ (term : Bytes) where
  count_before-le : (ts : List IndexTerm) → count_before term ts ≤ length ts
  unfolding count_before
  count_before-le [] = omega arith
  count_before-le (t ∷ ts) = ground (arith, count_before-le ts)

  in_front :
      (ts : List IndexTerm) (h : ℕ)
      → h < count_before term ts
      → not_before term (get_elem? ts h) ≡ false
  unfolding count_before
  in_front [] h lt = refl
  in_front (t ∷ ts) zero lt = ground arith
  in_front (t ∷ ts) (suc h) lt = ground (arith, in_front ts h)

  -- Behind a term that is not before the text, no term is.
  none_before :
      (t : IndexTerm) (ts : List IndexTerm) (h : ℕ)
      → text_lt t.term term ≡ false
      → All (λ u. text_lt t.term u ≡ true) (names ts)
      → h < length ts
      → not_before term (get_elem? ts h) ≡ true
  none_before t [] h p later lt = absurd (omega arith)
  none_before t (u ∷ us) zero p later lt = elim (Bool-cases (text_lt u.term term)) [
    | inl e ↦ absurd (ground (arith, text_lt_trans t.term u.term term later.0 e))
    | inr e ↦ rw e refl
  ]
  none_before t (u ∷ us) (suc h) p later lt = none_before t us h p later.1 (omega arith)

  behind :
      (ts : List IndexTerm) (h : ℕ)
      → Ascends (names ts)
      → count_before term ts ≤ h
      → h < length ts
      → not_before term (get_elem? ts h) ≡ true
  unfolding count_before Ascends
  behind [] h sorted le lt = absurd (omega arith)
  behind (t ∷ ts) zero sorted le lt = ground arith
  behind (t ∷ ts) (suc h) sorted le lt = elim (Bool-cases (text_lt t.term term)) [
    | inl e ↦ behind ts h sorted.1 (ground arith) (omega arith)
    | inr e ↦ none_before t ts h e sorted.0 (omega arith)
  ]

  search_terms-count_before :
      (fuel i j : ℕ) (ts : List IndexTerm)
      → Ascends (names ts)
      → i ≤ count_before term ts
      → count_before term ts ≤ j
      → j ≤ length ts
      → j ≤ i + fuel
      → search_terms fuel ts term i j ≡ count_before term ts
  unfolding search_terms
  search_terms-count_before zero i j ts sorted low high inside enough = omega arith
  search_terms-count_before (suc fuel) i j ts sorted low high inside enough = elim (le-or-lt j i) [
    | inl done ↦ let stop : ltb i j ≡ false = ground arith in rw stop (omega arith)
    | inr open_range ↦
        let more : ltb i j ≡ true = ground arith in
        let h = (i + j) / 2 in
        elim (le-or-lt (count_before term ts) h) [
          | inl left ↦
              rw (more, behind ts h sorted left (omega arith))
                (search_terms-count_before fuel i h ts sorted low left (omega arith) (omega arith))
          | inr right ↦
              rw (more, in_front ts h right)
                (search_terms-count_before fuel (h + 1) j ts sorted (omega arith) high inside
                  (omega arith))
        ]
  ]

  abbrev if_equal : Option IndexTerm → Option IndexTerm
  if_equal none = none
  if_equal (some t) = if bytes_eq t.term term then some t else none

  find_term : List IndexTerm → Option IndexTerm
  find_term [] = none
  find_term (t ∷ ts) = let rest = find_term ts in if bytes_eq t.term term then some t else rest

  find_term-none :
      (ts : List IndexTerm) → All (λ u. text_lt term u ≡ true) (names ts) → find_term ts ≡ none
  unfolding find_term
  find_term-none [] h = refl
  find_term-none (t ∷ ts) h = elim (Bool-cases (bytes_eq t.term term)) [
    | inl e ↦
        let self : text_lt term term ≡ true = rw (bytes_eq-eq t.term term e) at h.0 in
        absurd (ground (arith, text_lt_irrefl term))
    | inr e ↦ rw e (find_term-none ts h.1)
  ]

  from_here :
      (t : IndexTerm) (us : List IndexTerm)
      → text_lt term t.term ≡ true
      → All (λ u. text_lt t.term u ≡ true) (names us)
      → All (λ u. text_lt term u ≡ true) (names us)
  from_here t [] p h = tt
  from_here t (u ∷ us) p h = (text_lt_trans term t.term u.term p h.0, from_here t us p h.1)

  at_count_before :
      (ts : List IndexTerm)
      → Ascends (names ts)
      → if_equal (get_elem? ts (count_before term ts)) ≡ find_term ts
  unfolding count_before find_term Ascends
  at_count_before [] sorted = refl
  at_count_before (t ∷ ts) sorted = elim (Bool-cases (text_lt t.term term)) [
    | inl e ↦ elim (Bool-cases (bytes_eq t.term term)) [
      | inl same ↦
          let self : text_lt term term ≡ true = rw (bytes_eq-eq t.term term same) at e in
          absurd (ground (arith, text_lt_irrefl term))
      | inr other ↦ rw (e, other) (at_count_before ts sorted.1)
    ]
    | inr e ↦ elim (Bool-cases (bytes_eq t.term term)) [
      | inl same ↦ rw (e, same) refl
      | inr other ↦
          rw (e, other)
            (sym (find_term-none ts (from_here t ts (text_lt_total t.term term e other) sorted.0)))
    ]
  ]

module _ (z : Zstd) (r : Reader) (term : Bytes) where
  abbrev rows_at : Option IndexTerm → Result IndexError (List ℕ)
  rows_at none = ok []
  rows_at (some t) = read_postings z r t

  rows_of-if_equal : (o : Option IndexTerm) → rows_of z r term o ≡ rows_at (if_equal term o)
  rows_of-if_equal none = refl
  rows_of-if_equal (some t) = elim (Bool-cases (bytes_eq t.term term)) [
    | inl e ↦ rw e refl
    | inr e ↦ rw e refl
  ]

  both_read :
      (t : IndexTerm) (rest : Result IndexError (List ℕ)) (pairs : List (Bytes × List ℕ))
      (first : Result IndexError (List ℕ)) (more : Result IndexError (List (Bytes × List ℕ)))
      → ((ps : List (Bytes × List ℕ)) → more ≡ ok ps → rest ≡ ok (rows_for term ps))
      → (do rows ← first; ps ← more; ok ((t.term, rows) ∷ ps)) ≡ ok pairs
      → (if bytes_eq t.term term then first else rest) ≡ ok (rows_for term pairs)
  unfolding rows_for
  both_read t rest pairs (err e) more ih h = absurd cc
  both_read t rest pairs (ok rows) (err e) ih h = absurd cc
  both_read t rest pairs (ok rows) (ok ps) ih h =
      let same : (t.term, rows) ∷ ps ≡ pairs = ground arith in
      let below = ih ps refl in
      rw (sym same)
        (elim (Bool-cases (bytes_eq t.term term)) [ inl e ↦ rw e refl | inr e ↦ rw e below ])

  rows_at-find_term :
      (ts : List IndexTerm) (pairs : List (Bytes × List ℕ))
      → read_each z r ts ≡ ok pairs
      → rows_at (find_term term ts) ≡ ok (rows_for term pairs)
  unfolding find_term rows_for
  rows_at-find_term [] pairs h = let e : pairs ≡ [] = ground arith in rw e refl
  rows_at-find_term (t ∷ ts) pairs h =
      let both =
        both_read t (rows_at (find_term term ts)) pairs (read_postings z r t) (read_each z r ts)
          (λ ps eq. rows_at-find_term ts ps eq) h in
      elim (Bool-cases (bytes_eq t.term term)) [
        | inl e ↦ rw e (rw e at both)
        | inr e ↦ rw e (rw e at both)
      ]

  pub lookup-rows_for :
      (pairs : List (Bytes × List ℕ))
      → Ascends (names r.terms)
      → read_each z r r.terms ≡ ok pairs
      → lookup z r term ≡ ok (rows_for term pairs)
  unfolding lookup
  lookup-rows_for pairs sorted h =
      let n = length r.terms in
      rw
        (
          search_terms-count_before term n 0 n r.terms sorted (omega arith)
              (count_before-le term r.terms) (omega arith) (omega arith),
          rows_of-if_equal (get_elem? r.terms (count_before term r.terms)),
          at_count_before term r.terms sorted,
        )
        (rows_at-find_term r.terms pairs h)
