-- ===== src/TextIndex/Reader/Intersect.antt =====
-- What intersectSorted and Search (index/reader.go) make of sorted lists of rows.
use opentrace.Base.{
  ℕ, suc, ◌<◌, ◌≤◌, ◌≡◌, refl, arith, List, [], ◌∷◌, All, Bool, true, false, ltb, ◌==◌, ◌||◌, ◌&&◌,
  if◌then◌else◌, Bool-cases, inl, inr,
}
use opentrace.TextIndex.Reader.{intersect_sorted, intersect_all, intersection, no_rows}

-- Ascending, from a number on.
unfoldable pub IsFrom : ℕ → List ℕ → Type 0
IsFrom n [] = Unit {0}
IsFrom n (r ∷ rs) = (n ≤ r) × IsFrom (suc r) rs

unfoldable pub has_row : List ℕ → ℕ → Bool
has_row [] k = false
has_row (r ∷ rs) k = r == k || has_row rs k

pub IsFrom-weaken : (m n : ℕ) (rs : List ℕ) → m ≤ n → IsFrom n rs → IsFrom m rs
unfolding IsFrom
IsFrom-weaken m n [] le h = tt
IsFrom-weaken m n (r ∷ rs) le h = (omega (arith, h.0), h.1)

pub has_row-below : (n k : ℕ) (rs : List ℕ) → IsFrom n rs → k < n → has_row rs k ≡ false
unfolding IsFrom has_row
has_row-below n k [] h lt = refl
has_row-below n k (r ∷ rs) h lt =
    let other : r == k ≡ false = ground (arith, h.0) in
    rw other (has_row-below (suc r) k rs h.1 (omega (arith, h.0)))

-- The intersection of two lists, by what it holds.
abbrev Meets : ℕ → List ℕ → List ℕ → List ℕ → Type 0
Meets n xs ys both = IsFrom n both × ((k : ℕ) → has_row both k ≡ has_row xs k && has_row ys k)

Meets-here :
    (n x y : ℕ) (xs ys both : List ℕ)
    → n ≤ x
    → x ≡ y
    → Meets (suc x) xs ys both
    → Meets n (x ∷ xs) (y ∷ ys) (x ∷ both)
unfolding IsFrom has_row
Meets-here n x y xs ys both le e (from, same) = ((le, from), λ k. let met = same k in ground arith)

Meets-left :
    (n x y : ℕ) (xs ys both : List ℕ)
    → n ≤ x
    → x < y
    → IsFrom (suc y) ys
    → Meets (suc x) xs (y ∷ ys) both
    → Meets n (x ∷ xs) (y ∷ ys) both
unfolding IsFrom has_row
Meets-left n x y xs ys both le lt hy (from, same) = (
  IsFrom-weaken n (suc x) both (omega arith) from,
  λ k. elim (Bool-cases (x == k)) [
    | inl at ↦
        let absent : has_row ys k ≡ false = has_row-below (suc y) k ys hy (ground arith) in
        let other : y == k ≡ false = ground arith in let met = same k in ground arith
    | inr off ↦ let met = same k in ground arith
  ],
)

Meets-right :
    (n x y : ℕ) (xs ys both : List ℕ)
    → n ≤ y
    → y < x
    → IsFrom (suc x) xs
    → Meets (suc y) (x ∷ xs) ys both
    → Meets n (x ∷ xs) (y ∷ ys) both
unfolding IsFrom has_row
Meets-right n x y xs ys both le lt hx (from, same) = (
  IsFrom-weaken n (suc y) both (omega arith) from,
  λ k. elim (Bool-cases (y == k)) [
    | inl at ↦
        let absent : has_row xs k ≡ false = has_row-below (suc x) k xs hx (ground arith) in
        let other : x == k ≡ false = ground arith in let met = same k in ground arith
    | inr off ↦ let met = same k in ground arith
  ],
)

pub intersect_sorted-Meets :
    (n : ℕ) (xs ys : List ℕ) → IsFrom n xs → IsFrom n ys → Meets n xs ys (intersect_sorted xs ys)
unfolding intersect_sorted IsFrom has_row
intersect_sorted-Meets n [] ys hx hy = (tt, λ k. refl)
intersect_sorted-Meets n (x ∷ xs) [] hx hy = (tt, λ k. ground arith)
intersect_sorted-Meets n (x ∷ xs) (y ∷ ys) hx hy = elim (Bool-cases (x == y)) [
  | inl e ↦
      let same : x ≡ y = ground arith in
      rw (intersect_sorted, e)
        (Meets-here n x y xs ys (intersect_sorted xs ys) hx.0 same (
          intersect_sorted-Meets (suc x) xs ys hx.1
            (IsFrom-weaken (suc x) (suc y) ys (omega arith) hy.1)))
  | inr e ↦ elim (Bool-cases (ltb x y)) [
    | inl lt ↦
        rw (intersect_sorted, e, lt)
          (Meets-left n x y xs ys (intersect_sorted xs (y ∷ ys)) hx.0 (ground arith) hy.1
            (intersect_sorted-Meets (suc x) xs (y ∷ ys) hx.1 (ground arith, hy.1)))
    | inr ge ↦
        rw (intersect_sorted, e, ge)
          (Meets-right n x y xs ys (intersect_sorted (x ∷ xs) ys) hy.0 (ground arith) hx.1
            (intersect_sorted-Meets (suc y) (x ∷ xs) ys (ground arith, hx.1) hy.1))
  ]
]

abbrev pub all_have : List (List ℕ) → ℕ → Bool
all_have [] k = true
all_have (rows ∷ lists) k = has_row rows k && all_have lists k

-- The round of the loop, by what is left after it.
Meets-all_have :
    (rows result both : List ℕ) (lists : List (List ℕ))
    → Meets 0 result rows both
    → IsFrom 0 (intersect_all both lists)
    → ((k : ℕ) → has_row (intersect_all both lists) k ≡ has_row both k && all_have lists k)
    → (let final = (if no_rows both then [] else intersect_all both lists) in
        IsFrom 0 final
        × ((k : ℕ) → has_row final k ≡ has_row result k && (has_row rows k && all_have lists k)))
unfolding has_row IsFrom
Meets-all_have rows result [] lists (from, same) rest held =
    (tt, λ k. let met = same k in ground arith)
Meets-all_have rows result (r ∷ rs) lists (from, same) rest held =
    (rest, λ k. let met = same k in let all = held k in ground arith)

intersect_all-Meets :
    (lists : List (List ℕ)) (result : List ℕ)
    → IsFrom 0 result
    → All (IsFrom 0) lists
    → IsFrom 0 (intersect_all result lists)
      × ((k : ℕ) → has_row (intersect_all result lists) k ≡ has_row result k && all_have lists k)
unfolding intersect_all
intersect_all-Meets [] result h hs = (h, λ k. ground arith)
intersect_all-Meets (rows ∷ lists) result h (hr, hs) =
    let met = intersect_sorted-Meets 0 result rows h hr in
    let rest = intersect_all-Meets lists (intersect_sorted result rows) met.0 hs in
    Meets-all_have rows result (intersect_sorted result rows) lists met rest.0 rest.1

-- For posting lists that each ascend, at least one of them, the loops of Search give a list that
-- ascends and holds a row exactly if all the lists hold it.
pub intersection_lem :
    (rows : List ℕ) (lists : List (List ℕ))
    → IsFrom 0 rows
    → All (IsFrom 0) lists
    → IsFrom 0 (intersection (rows ∷ lists))
      × ((k : ℕ) → has_row (intersection (rows ∷ lists)) k ≡ all_have (rows ∷ lists) k)
intersection_lem rows lists h hs = intersect_all-Meets lists rows h hs
