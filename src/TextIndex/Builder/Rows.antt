-- ===== src/TextIndex/Builder/Rows.antt =====
-- The rows that a builder (index/builder.go) gathers under a term, by the tokens of the messages.
use opentrace.Base.{
  ℕ, ◌+◌, ◌≡◌, refl, sym, ◌∙◌, arith, List, [], ◌∷◌, ◌++◌, Bytes, true, false, not, ◌&&◌,
  if◌then◌else◌, bytes_eq, bytes_eq-eq, bytes_eq_refl, Bool-cases, inl, inr, append_assoc,
  append-nil,
}
use opentrace.TextIndex.Tokenizer.{Letters, is_seen, unique, tokenize, tokenize_unique}
use opentrace.TextIndex.Builder.{Builder, new_builder, append_row, append_rows, add}

-- The rows under a term; none where the map has no such key.
unfoldable pub rows_for : Bytes → List (Bytes × List ℕ) → List ℕ
rows_for t [] = []
rows_for t ((u, rows) ∷ terms) = let rest = rows_for t terms in if bytes_eq u t then rows else rest

-- One text cannot be equal to two others that differ.
pub bytes_eq-join :
    (v u t : Bytes) → bytes_eq v t ≡ true → bytes_eq u t ≡ true → bytes_eq v u ≡ true
bytes_eq-join v u t p q = rw (bytes_eq-eq v t p, bytes_eq-eq u t q) (bytes_eq_refl t)

rows_for-append_row :
    (t u : Bytes) (row : ℕ) (terms : List (Bytes × List ℕ))
    → rows_for t (append_row u row terms)
      ≡ (if bytes_eq u t then rows_for t terms ++ (row ∷ []) else rows_for t terms)
unfolding rows_for append_row
rows_for-append_row t u row [] = refl
rows_for-append_row t u row ((v, rows) ∷ terms) = elim (Bool-cases (bytes_eq v u)) [
  | inl same ↦ rw (same, bytes_eq-eq v u same) (ground arith)
  | inr other ↦ elim (Bool-cases (bytes_eq v t)) [
    | inl here ↦ elim (Bool-cases (bytes_eq u t)) [
      | inl both ↦ absurd (ground (arith, bytes_eq-join v u t here both))
      | inr apart ↦ rw (other, here, apart) refl
    ]
    | inr there ↦ rw (other, there) (rows_for-append_row t u row terms)
  ]
]

-- No token stands twice.
Once : List Bytes → Type 0
Once [] = Unit {0}
Once (t ∷ ts) = (is_seen ts t ≡ false) × Once ts

is_seen-eq :
    (seen : List Bytes) (s t : Bytes) → bytes_eq s t ≡ true → is_seen seen s ≡ is_seen seen t
is_seen-eq seen s t e = rw (bytes_eq-eq s t e) refl

is_seen-unique :
    (seen ts : List Bytes) (t : Bytes)
    → is_seen (unique seen ts) t ≡ is_seen ts t && not (is_seen seen t)
unfolding is_seen unique
is_seen-unique seen [] t = refl
is_seen-unique seen (s ∷ ts) t =
    let old = is_seen-unique seen ts t in
    let new = is_seen-unique (s ∷ seen) ts t in
    elim (Bool-cases (is_seen seen s)) [
      | inl e ↦
          rw (unique, e)
            (elim (Bool-cases (bytes_eq s t)) [
              | inl at ↦ let same = is_seen-eq seen s t at in ground arith
              | inr off ↦ ground arith
            ])
      | inr e ↦
          rw (unique, e)
            (elim (Bool-cases (bytes_eq s t)) [
              | inl at ↦ let same = is_seen-eq seen s t at in ground arith
              | inr off ↦ ground arith
            ])
    ]

unique-Once : (seen ts : List Bytes) → Once (unique seen ts)
unfolding is_seen unique Once
unique-Once seen [] = tt
unique-Once seen (t ∷ ts) = elim (Bool-cases (is_seen seen t)) [
  | inl old ↦ rw (unique, old) (unique-Once seen ts)
  | inr new ↦
      rw (unique, new)
        (
          rw (is_seen-unique (t ∷ seen) ts t, bytes_eq_refl t) (ground arith),
          unique-Once (t ∷ seen) ts,
        )
]

rows_for-append_rows :
    (t : Bytes) (row : ℕ) (ts : List Bytes) (terms : List (Bytes × List ℕ))
    → Once ts
    → rows_for t (append_rows row ts terms)
      ≡ (if is_seen ts t then rows_for t terms ++ (row ∷ []) else rows_for t terms)
unfolding append_rows is_seen Once
rows_for-append_rows t row [] terms once = refl
rows_for-append_rows t row (u ∷ ts) terms (fresh, once) =
    rows_for-append_rows t row ts (append_row u row terms) once
    ∙ rw (rows_for-append_row t u row terms) (elim (Bool-cases (bytes_eq u t)) [
      | inl at ↦ let same = is_seen-eq ts u t at in rw (at, sym same, fresh) refl
      | inr off ↦ rw off refl
    ])

module _ (l : Letters) where
  -- The messages from a row on.
  abbrev pub add_all : ℕ → List Bytes → Builder → Builder
  add_all row [] b = b
  add_all row (m ∷ ms) b = add_all (row + 1) ms (add l row m b)

  -- The rows, from a row on, whose messages have the token.
  unfoldable pub matching : ℕ → List Bytes → Bytes → List ℕ
  matching row [] t = []
  matching row (m ∷ ms) t =
      let rest = matching (row + 1) ms t in if is_seen (tokenize l m) t then row ∷ rest else rest

  rows_for-add :
      (t : Bytes) (row : ℕ) (m : Bytes) (b : Builder)
      → rows_for t (add l row m b).terms ≡ (
          if is_seen (tokenize l m) t then rows_for t b.terms ++ (row ∷ []) else rows_for t b.terms)
  unfolding add tokenize_unique is_seen
  rows_for-add t row m b =
      rows_for-append_rows t row (unique [] (tokenize l m)) b.terms (unique-Once [] (tokenize l m))
      ∙ rw (is_seen-unique [] (tokenize l m) t) (ground arith)

  rows_for-add_all_from :
      (t : Bytes) (row : ℕ) (ms : List Bytes) (b : Builder)
      → rows_for t (add_all row ms b).terms ≡ rows_for t b.terms ++ matching row ms t
  unfolding matching
  rows_for-add_all_from t row [] b = sym (append-nil (rows_for t b.terms))
  rows_for-add_all_from t row (m ∷ ms) b =
      rows_for-add_all_from t (row + 1) ms (add l row m b)
      ∙ rw (rows_for-add t row m b) (elim (Bool-cases (is_seen (tokenize l m) t)) [
        | inl has ↦ rw has (append_assoc (rows_for t b.terms) (row ∷ []) (matching (row + 1) ms t))
        | inr hasnt ↦ rw hasnt refl
      ])

  -- After adding any messages at the rows from 0 on to a new builder, the rows under a text are, in
  -- their order, those whose message has the text as a token, each once.
  pub rows_for-add_all :
      (ms : List Bytes) (t : Bytes) → rows_for t (add_all 0 ms new_builder).terms ≡ matching 0 ms t
  unfolding new_builder rows_for
  rows_for-add_all ms t = rows_for-add_all_from t 0 ms new_builder
