-- ===== src/Engine/Ring/Last.antt =====
-- The last entries of a list, as engine/ring.go keeps them.
use opentrace.Base.{
  ℕ, zero, suc, ◌+◌, ◌-◌, ◌≤◌, ◌<◌, ◌≡◌, refl, sym, arith, List, [], ◌∷◌, ◌++◌, map, length, drop,
  get_or, set, ◌==◌, if◌then◌else◌, length-append, length-drop, inl, inr, drop-append,
  drop-append_add, le-or-lt,
}

-- The last `n` of a list.
unfoldable pub last {ℓ} : {A : Type ℓ} → ℕ → List A → List A
last n xs = drop (length xs - n) xs

module _ {ℓ} {A : Type ℓ} where
  drop-append_le : (n : ℕ) (xs ys : List A) → n ≤ length xs → drop n (xs ++ ys) ≡ drop n xs ++ ys
  drop-append_le zero xs ys h = refl
  drop-append_le (suc n) [] ys h = absurd (omega arith)
  drop-append_le (suc n) (x ∷ xs) ys h = drop-append_le n xs ys (omega arith)

  drop-drop : (n m : ℕ) (xs : List A) → drop n (drop m xs) ≡ drop (m + n) xs
  drop-drop n zero xs = let e : 0 + n ≡ n = omega arith in rw e refl
  drop-drop zero (suc m) [] = let e : suc m + 0 ≡ suc m = omega arith in rw e refl
  drop-drop (suc n) (suc m) [] = let e : suc m + suc n ≡ suc (m + suc n) = omega arith in rw e refl
  drop-drop n (suc m) (x ∷ xs) =
      let e : suc m + n ≡ suc (m + n) = omega arith in rw e (drop-drop n m xs)

  pub drop_past : (xs : List A) (n : ℕ) → length xs ≤ n → drop n xs ≡ []
  drop_past [] zero h = refl
  drop_past [] (suc n) h = refl
  drop_past (x ∷ xs) zero h = absurd (omega arith)
  drop_past (x ∷ xs) (suc n) h = drop_past xs n (omega arith)

  -- What follows the entry at a place.
  pub drop_at :
      (xs : List A) (i : ℕ) (d : A) → i < length xs → drop i xs ≡ get_or xs i d ∷ drop (i + 1) xs
  drop_at [] i d h = absurd (omega arith)
  drop_at (x ∷ xs) zero d h = refl
  drop_at (x ∷ xs) (suc i) d h =
      let e : suc i + 1 ≡ suc (i + 1) = omega arith in rw e (drop_at xs i d (omega arith))

  pub get_or-set :
      (xs : List A) (i j : ℕ) (v d : A)
      → i < length xs
      → get_or (set xs i v) j d ≡ (if j == i then v else get_or xs j d)
  get_or-set [] i j v d h = absurd (omega arith)
  get_or-set (x ∷ xs) zero zero v d h = refl
  get_or-set (x ∷ xs) zero (suc j) v d h = ground arith
  get_or-set (x ∷ xs) (suc i) zero v d h = ground arith
  get_or-set (x ∷ xs) (suc i) (suc j) v d h = ground (arith, get_or-set xs i j v d (omega arith))

  pub get_or-append :
      (xs : List A) (v d : A) (i : ℕ)
      → get_or (xs ++ (v ∷ [])) i d ≡ (if i == length xs then v else get_or xs i d)
  get_or-append [] v d zero = refl
  get_or-append [] v d (suc i) = ground arith
  get_or-append (x ∷ xs) v d zero = ground arith
  get_or-append (x ∷ xs) v d (suc i) = ground (arith, get_or-append xs v d i)

pub last-append_last :
    {A : Type 0} (n : ℕ) (xs ys : List A) → last n (xs ++ last n ys) ≡ last n (xs ++ ys)
unfolding last
last-append_last n xs ys = elim (le-or-lt (length ys) n) [
  | inl short ↦ let e : length ys - n ≡ 0 = omega arith in rw e refl
  | inr long ↦
      let d = drop (length ys - n) ys in
      let whole : length (xs ++ d) - n ≡ length xs =
        omega (arith, length-append xs d, length-drop (length ys - n) ys) in
      let past : length (xs ++ ys) - n ≡ length xs + (length ys - n) =
        omega (arith, length-append xs ys) in
      rw (whole, past, drop-append xs d, drop-append_add xs ys (length ys - n)) refl
]

pub last_append :
    {A : Type 0} (n : ℕ) (xs ys : List A) → last n (last n xs ++ ys) ≡ last n (xs ++ ys)
unfolding last
last_append n xs ys = elim (le-or-lt (length xs) n) [
  | inl short ↦ let e : length xs - n ≡ 0 = omega arith in rw e refl
  | inr long ↦
      let k = length xs - n in
      let left : length (drop k xs ++ ys) - n ≡ length ys =
        omega (arith, length-append (drop k xs) ys, length-drop k xs) in
      let right : length (xs ++ ys) - n ≡ k + length ys = omega (arith, length-append xs ys) in
      rw
        (
          left,
          right,
          sym (drop-append_le k xs ys (omega arith)),
          drop-drop (length ys) k (xs ++ ys),
        )
        refl
]

pub map-drop :
    {A B : Type 0} (f : A → B) (n : ℕ) (xs : List A) → map f (drop n xs) ≡ drop n (map f xs)
map-drop f zero xs = refl
map-drop f (suc n) [] = refl
map-drop f (suc n) (x ∷ xs) = map-drop f n xs
