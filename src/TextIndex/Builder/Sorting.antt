-- ===== src/TextIndex/Builder/Sorting.antt =====
-- The terms of a builder (index/builder.go) in their order.
use opentrace.Base.{
  ℕ, ◌≡◌, refl, ◌∙◌, arith, List, [], ◌∷◌, Bytes, All, true, false, bytes_eq, bytes_eq-eq,
  bytes_eq_refl, Bool-cases, inl, inr,
}
use opentrace.TextIndex.Builder.{text_lt, insert_term, sort_terms, append_row}
use opentrace.TextIndex.Builder.Rows.{rows_for, bytes_eq-join}

pub text_lt_irrefl : (s : Bytes) → text_lt s s ≡ false
unfolding text_lt
text_lt_irrefl [] = refl
text_lt_irrefl (b ∷ bs) = ground (arith, text_lt_irrefl bs)

pub text_lt_trans : (a b c : Bytes) → text_lt a b ≡ true → text_lt b c ≡ true → text_lt a c ≡ true
unfolding text_lt
text_lt_trans a b [] p q = absurd cc
text_lt_trans a [] (z ∷ c) p q = absurd cc
text_lt_trans [] (y ∷ b) (z ∷ c) p q = refl
text_lt_trans (x ∷ a) (y ∷ b) (z ∷ c) p q = ground (arith, text_lt_trans a b c)

pub text_lt_total : (a b : Bytes) → text_lt a b ≡ false → bytes_eq a b ≡ false → text_lt b a ≡ true
unfolding text_lt bytes_eq
text_lt_total [] [] p q = absurd cc
text_lt_total [] (y ∷ b) p q = absurd cc
text_lt_total (x ∷ a) [] p q = refl
text_lt_total (x ∷ a) (y ∷ b) p q = ground (arith, text_lt_total a b)

-- Every text is before those behind it.
unfoldable pub Ascends : List Bytes → Type 0
Ascends [] = Unit {0}
Ascends (s ∷ ss) = All (λ u. text_lt s u ≡ true) ss × Ascends ss

abbrev pub keys : List (Bytes × List ℕ) → List Bytes
keys [] = []
keys (t ∷ ts) = t.0 ∷ keys ts

-- No term stands twice in the map.
unfoldable pub Apart : List Bytes → Type 0
Apart [] = Unit {0}
Apart (s ∷ ss) = All (λ u. bytes_eq u s ≡ false) ss × Apart ss

bytes_eq_swap : (s t : Bytes) → bytes_eq s t ≡ false → bytes_eq t s ≡ false
bytes_eq_swap s t h = elim (Bool-cases (bytes_eq t s)) [
  | inl e ↦ absurd (
      ground
        (arith, bytes_eq-join s t t (rw (bytes_eq-eq t s e) (bytes_eq_refl s)) (bytes_eq_refl t)))
  | inr e ↦ e
]

-- What holds of every key.
module _ (P : Bytes → Type 0) where
  All-insert_term :
      (t : Bytes × List ℕ) (us : List (Bytes × List ℕ))
      → P t.0
      → All P (keys us)
      → All P (keys (insert_term t us))
  unfolding insert_term
  All-insert_term t [] p h = (p, tt)
  All-insert_term t (u ∷ us) p h = elim (Bool-cases (text_lt u.0 t.0)) [
    | inl e ↦ rw e (h.0, All-insert_term t us p h.1)
    | inr e ↦ rw e (p, h)
  ]

  pub All-sort_terms : (ts : List (Bytes × List ℕ)) → All P (keys ts) → All P (keys (sort_terms ts))
  unfolding sort_terms
  All-sort_terms [] h = tt
  All-sort_terms (t ∷ ts) h = All-insert_term t (sort_terms ts) h.0 (All-sort_terms ts h.1)

  All-append_row :
      (t : Bytes) (row : ℕ) (us : List (Bytes × List ℕ))
      → P t
      → All P (keys us)
      → All P (keys (append_row t row us))
  unfolding append_row
  All-append_row t row [] p h = (p, tt)
  All-append_row t row (u ∷ us) p h = elim (Bool-cases (bytes_eq u.0 t)) [
    | inl e ↦ rw e h
    | inr e ↦ rw e (h.0, All-append_row t row us p h.1)
  ]

pub append_row-Apart :
    (t : Bytes) (row : ℕ) (us : List (Bytes × List ℕ))
    → Apart (keys us)
    → Apart (keys (append_row t row us))
unfolding append_row Apart
append_row-Apart t row [] h = (tt, tt)
append_row-Apart t row (u ∷ us) h = elim (Bool-cases (bytes_eq u.0 t)) [
  | inl e ↦ rw e h
  | inr e ↦ rw e (
    All-append_row (λ w. bytes_eq w u.0 ≡ false) t row us (bytes_eq_swap u.0 t e) h.0,
    append_row-Apart t row us h.1,
  )
]

before_all :
    (s t : Bytes) (us : List Bytes)
    → text_lt s t ≡ true
    → All (λ u. text_lt t u ≡ true) us
    → All (λ u. text_lt s u ≡ true) us
before_all s t [] p h = tt
before_all s t (u ∷ us) p h = (text_lt_trans s t u p h.0, before_all s t us p h.1)

insert_term-Ascends :
    (t : Bytes × List ℕ) (us : List (Bytes × List ℕ))
    → Ascends (keys us)
    → All (λ u. bytes_eq u t.0 ≡ false) (keys us)
    → Ascends (keys (insert_term t us))
unfolding insert_term Ascends
insert_term-Ascends t [] h fresh = (tt, tt)
insert_term-Ascends t (u ∷ us) h fresh = elim (Bool-cases (text_lt u.0 t.0)) [
  | inl e ↦
      rw e (
        All-insert_term (λ w. text_lt u.0 w ≡ true) t us e h.0,
        insert_term-Ascends t us h.1 fresh.1,
      )
  | inr e ↦
      let first = text_lt_total u.0 t.0 e fresh.0 in
      rw e ((first, before_all t.0 u.0 (keys us) first h.0), h)
]

pub sort_terms-Ascends :
    (ts : List (Bytes × List ℕ)) → Apart (keys ts) → Ascends (keys (sort_terms ts))
unfolding sort_terms Apart Ascends
sort_terms-Ascends [] h = tt
sort_terms-Ascends (t ∷ ts) h =
    insert_term-Ascends t (sort_terms ts) (sort_terms-Ascends ts h.1)
      (All-sort_terms (λ u. bytes_eq u t.0 ≡ false) ts h.0)

rows_for-insert_term :
    (k : Bytes) (t : Bytes × List ℕ) (us : List (Bytes × List ℕ))
    → All (λ u. bytes_eq u t.0 ≡ false) (keys us)
    → rows_for k (insert_term t us) ≡ rows_for k (t ∷ us)
unfolding insert_term rows_for
rows_for-insert_term k t [] fresh = refl
rows_for-insert_term k t (u ∷ us) fresh = elim (Bool-cases (text_lt u.0 t.0)) [
  | inr e ↦ rw e refl
  | inl e ↦ elim (Bool-cases (bytes_eq u.0 k)) [
    | inr off ↦ rw (e, off) (rows_for-insert_term k t us fresh.1)
    | inl at ↦ elim (Bool-cases (bytes_eq t.0 k)) [
      | inl both ↦ absurd (ground (arith, bytes_eq-join u.0 t.0 k at both, fresh.0))
      | inr other ↦ rw (e, at, other) refl
    ]
  ]
]

pub rows_for-sort_terms :
    (k : Bytes) (ts : List (Bytes × List ℕ))
    → Apart (keys ts)
    → rows_for k (sort_terms ts) ≡ rows_for k ts
unfolding sort_terms Apart rows_for
rows_for-sort_terms k [] h = refl
rows_for-sort_terms k (t ∷ ts) h =
    rows_for-insert_term k t (sort_terms ts) (All-sort_terms (λ u. bytes_eq u t.0 ≡ false) ts h.0)
    ∙ rw (rows_for-sort_terms k ts h.1) refl
