-- ===== src/Watcher/KeyedMutex/Count.antt =====
-- Counting the goroutines at a place, and what one of them moving does to the count.
use opentrace.Base.{
  ℕ, zero, suc, ◌+◌, ◌≤◌, ◌≡◌, inl, inr, refl, ap, arith, List, [], ◌∷◌, Bool, true, false, some,
  get_elem?, set, if◌then◌else◌, Bool-cases,
}

abbrev pub one_if : Bool → ℕ
one_if b = if b then 1 else 0

module _ {A : Type 0} (test : A → Bool) where
  abbrev pub count : List A → ℕ
  count [] = 0
  count (x ∷ xs) = one_if (test x) + count xs

  pub count-set :
      (xs : List A) (i : ℕ) (x y : A)
      → get_elem? xs i ≡ some x
      → count (set xs i y) + one_if (test x) ≡ count xs + one_if (test y)
  count-set [] i x y h = absurd cc
  count-set (z ∷ xs) zero x y h = let e : z ≡ x = cc in rw e (omega arith)
  count-set (z ∷ xs) (suc i) x y h = omega (arith, count-set xs i x y h)

  pub count-at :
      (xs : List A) (i : ℕ) (x : A) → get_elem? xs i ≡ some x → test x ≡ true → 1 ≤ count xs
  count-at [] i x h t = absurd cc
  count-at (z ∷ xs) zero x h t =
      let e : z ≡ x = cc in let e' : test z ≡ true = rw e t in rw e' (omega arith)
  count-at (z ∷ xs) (suc i) x h t = omega (arith, count-at xs i x h t)

  pub count-two :
      (xs : List A) (i j : ℕ) (x y : A)
      → get_elem? xs i ≡ some x
      → get_elem? xs j ≡ some y
      → test x ≡ true
      → test y ≡ true
      → count xs ≤ 1
      → i ≡ j
  count-two [] i j x y h k t u few = absurd cc
  count-two (z ∷ xs) zero zero x y h k t u few = refl
  count-two (z ∷ xs) zero (suc j) x y h k t u few =
      let e : z ≡ x = cc in
      let e' : test z ≡ true = rw e t in absurd (omega (arith, rw e' at few, count-at xs j y k u))
  count-two (z ∷ xs) (suc i) zero x y h k t u few =
      let e : z ≡ y = cc in
      let e' : test z ≡ true = rw e u in absurd (omega (arith, rw e' at few, count-at xs i x h t))
  count-two (z ∷ xs) (suc i) (suc j) x y h k t u few =
      ap suc (count-two xs i j x y h k t u (omega (arith, few)))

  -- A count above 0 is of some place.
  pub count-find :
      (xs : List A) → 1 ≤ count xs → (i : ℕ) × (x : A) × (get_elem? xs i ≡ some x) × (test x ≡ true)
  count-find [] h = absurd (omega arith)
  count-find (z ∷ xs) h = elim (Bool-cases (test z)) [
    | inl t ↦ (0, z, refl, t)
    | inr t ↦ let (i, x, e, u) = count-find xs (omega (arith, rw t at h)) in (suc i, x, e, u)
  ]

  pub count-none :
      (xs : List A) → ((i : ℕ) (x : A) → get_elem? xs i ≡ some x → test x ≡ false) → count xs ≡ 0
  count-none [] h = refl
  count-none (z ∷ xs) h = rw (h 0 z refl) (omega (arith, count-none xs (λ i x e. h (suc i) x e)))
