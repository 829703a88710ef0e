-- ===== src/Lru/Evict.antt =====
-- What the loop that makes room in a cache (Lru.antt) keeps: as many of the items used last as fit.
use opentrace.Base.{
  ℕ, zero, suc, ◌+◌, ◌-◌, ◌≤◌, ◌<◌, ◌≡◌, refl, ap, ◌∙◌, arith, List, [], ◌∷◌, ◌++◌, true, false,
  Option, some, length, length-append, le-or-lt, leb, ltb, if◌then◌else◌, Bool-cases, inl, inr,
}
use opentrace.Lru.{Eq, Item, Cache, oldest, before_last, evict}

module _ {K V : Type 0} ⦃e : Eq K⦄ where
  unfoldable pub total : List (Item K V) → ℕ
  total [] = 0
  total (x ∷ xs) = x.bytes + total xs

  -- The items in front that fit into a number of bytes together.
  unfoldable pub keep : ℕ → List (Item K V) → List (Item K V)
  keep limit [] = []
  keep limit (x ∷ xs) =
      let rest = keep (limit - x.bytes) xs in if leb x.bytes limit then x ∷ rest else []

  keep_all : (limit : ℕ) (xs : List (Item K V)) → total xs ≤ limit → keep limit xs ≡ xs
  unfolding total keep
  keep_all limit [] h = refl
  keep_all limit (x ∷ xs) h =
      let fits : leb x.bytes limit ≡ true = ground arith in
      rw (fits, keep_all (limit - x.bytes) xs (omega arith)) refl

  total-append_one :
      (xs : List (Item K V)) (x : Item K V) → total (xs ++ (x ∷ [])) ≡ total xs + x.bytes
  unfolding total
  total-append_one [] x = omega arith
  total-append_one (y ∷ ys) x = omega (arith, total-append_one ys x)

  keep-append_one :
      (limit : ℕ) (xs : List (Item K V)) (x : Item K V)
      → limit < total (xs ++ (x ∷ []))
      → keep limit (xs ++ (x ∷ [])) ≡ keep limit xs
  unfolding total keep
  keep-append_one limit [] x h = let big : leb x.bytes limit ≡ false = ground arith in rw big refl
  keep-append_one limit (y ∷ ys) x h = elim (Bool-cases (leb y.bytes limit)) [
    | inl fits ↦ rw (fits, keep-append_one (limit - y.bytes) ys x (ground arith)) refl
    | inr big ↦ rw big refl
  ]

  pub total-keep : (limit : ℕ) (xs : List (Item K V)) → total (keep limit xs) ≤ limit
  unfolding total keep
  total-keep limit [] = omega arith
  total-keep limit (x ∷ xs) = elim (Bool-cases (leb x.bytes limit)) [
    | inl fits ↦ rw fits (ground (arith, total-keep (limit - x.bytes) xs))
    | inr big ↦ rw big (omega arith)
  ]

  -- A list that is not empty has an oldest item, at its end.
  oldest_lem :
      (x : Item K V) (xs : List (Item K V))
      → (front : List (Item K V)) × (last : Item K V) × (oldest (x ∷ xs) ≡ some (front, last))
        × (x ∷ xs ≡ front ++ (last ∷ []))
  unfolding oldest
  oldest_lem x [] = ([], x, refl, refl)
  oldest_lem x (y ∷ ys) =
      let (front, last, found, eq) = oldest_lem y ys in
      (
        x ∷ front,
        last,
        ap (λ (o : Option (List (Item K V) × Item K V)). some (before_last x o)) found,
        ap (λ (l : List (Item K V)). x ∷ l) eq,
      )

  abbrev kept : ℕ → List (Item K V) → ℕ → Cache K V
  kept budget items size = record {
    budget = budget;
    used = total (keep (budget - size) items);
    items = keep (budget - size) items;
  }

  evict_round :
      (fuel budget size : ℕ) (items front : List (Item K V)) (last : Item K V)
      → oldest items ≡ some (front, last)
      → items ≡ front ++ (last ∷ [])
      → size ≤ budget
      → budget < total items + size
      → evict fuel (record { budget = budget; used = total front; items = front }) size
        ≡ (kept budget front size, true)
      → evict (suc fuel) (record { budget = budget; used = total items; items = items }) size
        ≡ (kept budget items size, true)
  unfolding evict
  evict_round fuel budget size items front last found eq small over rest =
      let high : ltb budget (total items + size) ≡ true = ground arith in
      let less : total items - last.bytes ≡ total front =
        omega (arith, ap (λ (l : List (Item K V)). total l) eq, total-append_one front last) in
      let shorter : keep (budget - size) items ≡ keep (budget - size) front =
        ap (λ (l : List (Item K V)). keep (budget - size) l) eq
        ∙ keep-append_one (budget - size) front last
            (omega (arith, ap (λ (l : List (Item K V)). total l) eq)) in
      rw (evict, high, found, less, shorter) rest

  evict_fits :
      (fuel budget size : ℕ) (items : List (Item K V))
      → total items + size ≤ budget
      → evict fuel (record { budget = budget; used = total items; items = items }) size
        ≡ (kept budget items size, true)
  unfolding evict
  evict_fits zero budget size items fits =
      let low : leb (total items + size) budget ≡ true = ground arith in
      rw (keep_all (budget - size) items (omega arith), low) refl
  evict_fits (suc fuel) budget size items fits =
      let low : ltb budget (total items + size) ≡ false = ground arith in
      rw (evict, keep_all (budget - size) items (omega arith), low) refl

  evict-kept :
      (fuel budget size : ℕ) (items : List (Item K V))
      → length items ≤ fuel
      → size ≤ budget
      → evict fuel (record { budget = budget; used = total items; items = items }) size
        ≡ (kept budget items size, true)
  unfolding total
  evict-kept fuel budget size [] enough small = evict_fits fuel budget size [] (omega arith)
  evict-kept zero budget size (x ∷ xs) enough small = absurd (omega arith)
  evict-kept (suc fuel) budget size (x ∷ xs) enough small =
      elim (le-or-lt (total (x ∷ xs) + size) budget) [
        | inl fits ↦ evict_fits (suc fuel) budget size (x ∷ xs) fits
        | inr over ↦
            let (front, last, found, eq) = oldest_lem x xs in
            let shorter : length front + 1 ≡ length (x ∷ xs) =
              omega (
                arith,
                ap (λ (l : List (Item K V)). length l) eq,
                length-append front (last ∷ []),
              ) in
            evict_round fuel budget size (x ∷ xs) front last found eq small over
              (evict-kept fuel budget size front (omega arith) small)
      ]

  -- The loop ends with room made, and keeps as many of the items used last as fit.
  pub evict-keep :
      (fuel : ℕ) (c : Cache K V) (size : ℕ)
      → length c.items ≤ fuel
      → c.used ≡ total c.items
      → size ≤ c.budget
      → evict fuel c size ≡ (
        record c {
          items = keep (c.budget - size) c.items;
          used = total (keep (c.budget - size) c.items);
        },
        true,
      )
  evict-keep fuel c size enough used small =
      ap (λ (u : ℕ). evict fuel (record c { used = u }) size) used
      ∙ evict-kept fuel c.budget size c.items enough small
