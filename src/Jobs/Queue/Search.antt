-- ===== src/Jobs/Queue/Search.antt =====
-- The row that the SELECT of ClaimNext finds (internal/jobs/queue.go).
use opentrace.Base.{
  ℕ, zero, suc, ◌<◌, ◌≡◌, ◌⊎◌, inl, inr, refl, sym, subst, ◌∙◌, arith, Bytes, true, false, ◌&&◌,
  Option, none, some, Bool-cases,
}
use opentrace.Jobs.Queue.{Job, is_due, precedes, better, consider, select_next}

eq_or_lt : (k n : ℕ) → k < suc n → (k ≡ n) ⊎ (k < n)
eq_or_lt k n h = omega arith

module _ (rows : ℕ → Option Job) (queue : Bytes) (now : ℕ) where
  -- What the search has found among the keys below `n`.
  abbrev pub Found : ℕ → Option (ℕ × Job) → Type 0
  Found n none = (k : ℕ) (j : Job) → k < n → rows k ≡ some j → is_due queue now j ≡ false
  Found n (some (id, j)) =
      (id < n)
      × (rows id ≡ some j)
      × (is_due queue now j ≡ true)
      × ((k : ℕ) (i : Job) → k < n → rows k ≡ some i → (is_due queue now i && precedes i j) ≡ false)

  Found-none : (n : ℕ) (best : Option (ℕ × Job)) → rows n ≡ none → Found n best → Found (suc n) best
  Found-none n none e h = λ k j below at_k. elim (eq_or_lt k n below) [
    | inl same ↦ absurd (let bad : none ≡ some j = sym e ∙ (rw same at at_k) in cc)
    | inr less ↦ h k j less at_k
  ]
  Found-none n (some (id, j)) e (low, there, due, best) = (
    omega arith,
    there,
    due,
    λ k i below at_k. elim (eq_or_lt k n below) [
      | inl same ↦ absurd (let bad : none ≡ some i = sym e ∙ (rw same at at_k) in cc)
      | inr less ↦ best k i less at_k
    ],
  )

  Found-worse :
      (n : ℕ) (best : Option (ℕ × Job)) (j : Job)
      → rows n ≡ some j
      → is_due queue now j ≡ false
      → Found n best
      → Found (suc n) best
  Found-worse n none j e undue h = λ k i below at_k. elim (eq_or_lt k n below) [
    | inl same ↦
        let both : some j ≡ some i = sym e ∙ (rw same at at_k) in
        let one : j ≡ i = cc in rw one at undue
    | inr less ↦ h k i less at_k
  ]
  Found-worse n (some (id, b)) j e undue (low, there, due, best) = (
    omega arith,
    there,
    due,
    λ k i below at_k. elim (eq_or_lt k n below) [
      | inl same ↦
          let both : some j ≡ some i = sym e ∙ (rw same at at_k) in
          let one : j ≡ i = cc in
          let undue' : is_due queue now i ≡ false = rw one at undue in rw undue' refl
      | inr less ↦ best k i less at_k
    ],
  )

  not_before_self : (j : Job) → precedes j j ≡ false
  not_before_self j = ground arith

  before_trans : (i j b : Job) → precedes j b ≡ true → precedes i b ≡ false → precedes i j ≡ false
  before_trans i j b h k = ground arith

  Found-first :
      (n : ℕ) (j : Job)
      → rows n ≡ some j
      → is_due queue now j ≡ true
      → Found n none
      → Found (suc n) (some (n, j))
  Found-first n j e due h = (
    omega arith,
    e,
    due,
    λ k i below at_k. elim (eq_or_lt k n below) [
      | inl same ↦
          let both : some j ≡ some i = sym e ∙ (rw same at at_k) in
          let one : j ≡ i = cc in
          let kept = not_before_self j in
          let kept' : precedes i j ≡ false = subst (λ x. precedes x j ≡ false) one kept in
          rw kept' (ground arith)
      | inr less ↦ let undue = h k i less at_k in rw undue refl
    ],
  )

  Found-better :
      (n id : ℕ) (j b : Job)
      → rows n ≡ some j
      → is_due queue now j ≡ true
      → precedes j b ≡ true
      → Found n (some (id, b))
      → Found (suc n) (some (n, j))
  Found-better n id j b e due before (low, there, due', best) = (
    omega arith,
    e,
    due,
    λ k i below at_k. elim (eq_or_lt k n below) [
      | inl same ↦
          let both : some j ≡ some i = sym e ∙ (rw same at at_k) in
          let one : j ≡ i = cc in
          let kept' : precedes i j ≡ false =
            subst (λ x. precedes x j ≡ false) one (not_before_self j) in
          rw kept' (ground arith)
      | inr less ↦
          let not_both = best k i less at_k in
          elim (Bool-cases (is_due queue now i)) [
            | inr undue ↦ rw undue refl
            | inl due_i ↦
                let later : precedes i b ≡ false = rw due_i at not_both in
                rw (due_i, before_trans i j b before later) refl
          ]
    ],
  )

  Found-kept :
      (n id : ℕ) (j b : Job)
      → rows n ≡ some j
      → precedes j b ≡ false
      → Found n (some (id, b))
      → Found (suc n) (some (id, b))
  Found-kept n id j b e after (low, there, due, best) = (
    omega arith,
    there,
    due,
    λ k i below at_k. elim (eq_or_lt k n below) [
      | inl same ↦
          let both : some j ≡ some i = sym e ∙ (rw same at at_k) in
          let one : j ≡ i = cc in
          let after' : precedes i b ≡ false = subst (λ x. precedes x b ≡ false) one after in
          rw after' (ground arith)
      | inr less ↦ best k i less at_k
    ],
  )

  Found-better_of :
      (n : ℕ) (best : Option (ℕ × Job)) (j : Job)
      → rows n ≡ some j
      → is_due queue now j ≡ true
      → Found n best
      → Found (suc n) (better best n j)
  Found-better_of n none j e due h = Found-first n j e due h
  Found-better_of n (some (id, b)) j e due h = elim (Bool-cases (precedes j b)) [
    | inl before ↦ rw before (Found-better n id j b e due before h)
    | inr after ↦ rw after (Found-kept n id j b e after h)
  ]

  Found-consider :
      (n : ℕ) (best : Option (ℕ × Job)) (row : Option Job)
      → rows n ≡ row
      → Found n best
      → Found (suc n) (consider queue now best n row)
  Found-consider n best none e h = Found-none n best e h
  Found-consider n best (some j) e h = elim (Bool-cases (is_due queue now j)) [
    | inl due ↦ rw due (Found-better_of n best j e due h)
    | inr undue ↦ rw undue (Found-worse n best j e undue h)
  ]

  pub select_next-Found : (n : ℕ) → Found n (select_next rows queue now n)
  unfolding select_next
  select_next-Found zero = λ k j below at_k. absurd (omega arith)
  select_next-Found (suc n) =
      Found-consider n (select_next rows queue now n) (rows n) refl (select_next-Found n)
