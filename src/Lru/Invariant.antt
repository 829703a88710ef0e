-- ===== src/Lru/Invariant.antt =====
-- The invariant of a cache (Lru.antt) and what a value that is put in displaces.
use opentrace.Base.{
  ℕ, ◌+◌, ◌-◌, ◌/◌, ◌≤◌, ◌≡◌, ◌⊎◌, refl, sym, arith, List, [], ◌∷◌, Bool, true, false, ◌||◌, none,
  some, length, leb, ltb, ◌==◌, Bool-cases, inl, inr,
}
use native.Mathlib.Nat.{div-le_self}
use opentrace.Lru.{Eq, Item, Cache, new_cache, take_out, get, put}
use opentrace.Lru.Evict.{total, keep, evict-keep, total-keep}

div_le : (b share : ℕ) → b / share ≤ b
div_le b share = div-le_self b share

-- A lookup, or a value put in with its size.
abbrev pub Op : Type 0 → Type 0 → Type 0
Op K V = K ⊎ (K × V × ℕ)

module _ {K V : Type 0} ⦃e : Eq K⦄ where
  unfoldable pub holds : K → List (Item K V) → Bool
  holds k [] = false
  holds k (x ∷ xs) = e.same x.key k || holds k xs

  -- No key stands twice.
  unfoldable pub Distinct : List (Item K V) → Type 0
  Distinct [] = Unit {0}
  Distinct (x ∷ xs) = (holds x.key xs ≡ false) × Distinct xs

  pub record IsWithin (c : Cache K V) : Type 0 where
    pub used_total : c.used ≡ total c.items
    pub in_budget : c.used ≤ c.budget
    pub distinct : Distinct c.items

  holds-keep :
      (k : K) (limit : ℕ) (xs : List (Item K V))
      → holds k xs ≡ false
      → holds k (keep limit xs) ≡ false
  unfolding holds keep
  holds-keep k limit [] h = refl
  holds-keep k limit (x ∷ xs) h = ground (arith, holds-keep k (limit - x.bytes) xs)

  keep-Distinct : (limit : ℕ) (xs : List (Item K V)) → Distinct xs → Distinct (keep limit xs)
  unfolding keep Distinct
  keep-Distinct limit [] d = tt
  keep-Distinct limit (x ∷ xs) (fresh, d) = elim (Bool-cases (leb x.bytes limit)) [
    | inl fits ↦
        rw fits (holds-keep x.key (limit - x.bytes) xs fresh, keep-Distinct (limit - x.bytes) xs d)
    | inr big ↦ rw big tt
  ]

  -- What is left when the item under a key is taken out.
  record Without (k : K) (xs : List (Item K V)) (x : Item K V) (rest : List (Item K V))
      : Type 0 where
    sum : x.bytes + total rest ≡ total xs
    under : e.same x.key k ≡ true
    others : (k' : K) → holds k' xs ≡ false → holds k' rest ≡ false
    left : Distinct xs → (holds k rest ≡ false) × Distinct rest

  abbrev Absent : K → List (Item K V) → Type 0
  Absent k xs = (take_out k xs ≡ none) × (holds k xs ≡ false)

  abbrev Present : K → List (Item K V) → Type 0
  Present k xs =
      (x : Item K V) × (rest : List (Item K V)) × (take_out k xs ≡ some (x, rest))
      × Without k xs x rest

  take_out-here :
      (k : K) (y : Item K V) (ys : List (Item K V))
      → e.same y.key k ≡ true
      → Without k (y ∷ ys) y ys
  unfolding total Distinct holds
  take_out-here k y ys found = record {
    sum = refl;
    under = found;
    others = λ k' h. ground arith;
    left = λ (fresh, d). (rw ((e.same_iff y.key k).0 found) at fresh, d);
  }

  take_out-there :
      (k : K) (y x : Item K V) (ys rest : List (Item K V))
      → e.same y.key k ≡ false
      → Without k ys x rest
      → Without k (y ∷ ys) x (y ∷ rest)
  unfolding total Distinct holds
  take_out-there k y x ys rest other w = record {
    sum = omega (arith, w.sum);
    under = w.under;
    others = λ k' h. ground (arith, w.others k');
    left = λ (fresh, d).
        let (gone, d') = w.left d in (rw (other, gone) refl, (w.others y.key fresh, d'));
  }

  take_out_cases : (k : K) (xs : List (Item K V)) → Absent k xs ⊎ Present k xs
  unfolding take_out holds
  take_out_cases k [] = inl (refl, refl)
  take_out_cases k (y ∷ ys) = elim (Bool-cases (e.same y.key k)) [
    | inl found ↦ inr (y, ys, rw found refl, take_out-here k y ys found)
    | inr other ↦ elim (take_out_cases k ys) [
      | inl (gone, free) ↦ inl (rw (other, gone) refl, rw (other, free) refl)
      | inr (x, rest, found, w) ↦
          inr (x, y ∷ rest, rw (other, found) refl, take_out-there k y x ys rest other w)
    ]
  ]

  -- The item that a key is found under is put in front.
  to_front-IsWithin :
      (c : Cache K V) (k : K) (x : Item K V) (rest : List (Item K V))
      → IsWithin c
      → Without k c.items x rest
      → IsWithin (record c { items = x ∷ rest })
  unfolding total Distinct
  to_front-IsWithin c k x rest i w =
      let (gone, d) = w.left i.distinct in
      record {
        used_total = omega (arith, i.used_total, w.sum);
        in_budget = i.in_budget;
        distinct = (rw (sym ((e.same_iff x.key k).0 w.under)) at gone, d);
      }

  get-IsWithin : (k : K) (c : Cache K V) → IsWithin c → IsWithin (get k c).1
  unfolding get
  get-IsWithin k c i = elim (take_out_cases k c.items) [
    | inl (gone, free) ↦ rw (get, gone) i
    | inr (x, rest, found, w) ↦ rw (get, found) (to_front-IsWithin c k x rest i w)
  ]

  get-none : (k : K) (c : Cache K V) → (get k c).0 ≡ none → Absent k c.items
  unfolding get
  get-none k c h = elim (take_out_cases k c.items) [
    | inl gone ↦ gone
    | inr (x, rest, found, w) ↦ absurd (ground arith)
  ]

  put_new :
      (share : ℕ) (k : K) (v : V) (size : ℕ) (c : Cache K V)
      → 1 ≤ size
      → size ≤ c.budget / share
      → c.used ≡ total c.items
      → take_out k c.items ≡ none
      → put share k v size c ≡ (
          let kept = keep (c.budget - size) c.items in
          record c {
            items = record { key = k; value = v; bytes = size } ∷ kept;
            used = total kept + size;
          })
  unfolding put
  put_new share k v size c pos small used gone =
      let allowed : (size == 0 || ltb (c.budget / share) size) ≡ false = ground arith in
      rw
        (
          allowed,
          gone,
          evict-keep (length c.items) c size (omega arith) used
              (omega (arith, div_le c.budget share)),
        )
        refl

  -- Where the invariant holds and the size is positive and within its share of the budget, putting
  -- in a value under a key that is not there puts it in front of the longest run of the items used
  -- last that fits into the rest of the budget, and nothing else is evicted.
  pub put-keep :
      (share : ℕ) (k : K) (v : V) (size : ℕ) (c : Cache K V)
      → 1 ≤ size
      → size ≤ c.budget / share
      → IsWithin c
      → (get k c).0 ≡ none
      → put share k v size c ≡ (
          let kept = keep (c.budget - size) c.items in
          record c {
            items = record { key = k; value = v; bytes = size } ∷ kept;
            used = total kept + size;
          })
  put-keep share k v size c pos small i absent =
      put_new share k v size c pos small i.used_total (get-none k c absent).0

  add_kept-IsWithin :
      (limit : ℕ) (x : Item K V) (c : Cache K V)
      → IsWithin c
      → holds x.key c.items ≡ false
      → limit + x.bytes ≤ c.budget
      → (let kept = keep limit c.items in
          IsWithin (record c { items = x ∷ kept; used = total kept + x.bytes }))
  unfolding total Distinct
  add_kept-IsWithin limit x c i free room = record {
    used_total = omega arith;
    in_budget = omega (arith, total-keep limit c.items);
    distinct = (holds-keep x.key limit c.items free, keep-Distinct limit c.items i.distinct);
  }

  put-IsWithin :
      (share : ℕ) (k : K) (v : V) (size : ℕ) (c : Cache K V)
      → IsWithin c
      → IsWithin (put share k v size c)
  unfolding put
  put-IsWithin share k v size c i = elim (Bool-cases (size == 0 || ltb (c.budget / share) size)) [
    | inl refused ↦ rw (put, refused) i
    | inr allowed ↦ elim (take_out_cases k c.items) [
      | inr (x, rest, found, w) ↦ rw (put, allowed, found) (to_front-IsWithin c k x rest i w)
      | inl (gone, free) ↦
          rw (put_new share k v size c (ground arith) (ground arith) i.used_total gone) (
            add_kept-IsWithin (c.budget - size) (record { key = k; value = v; bytes = size }) c i
              free
              (let share_of : c.budget / share ≤ c.budget = div_le c.budget share in
                let fits : size ≤ c.budget / share = ground arith in omega arith))
    ]
  ]

  abbrev pub run_op : ℕ → Op K V → Cache K V → Cache K V
  run_op share (inl k) c = (get k c).1
  run_op share (inr (k, v, size)) c = put share k v size c

  abbrev pub run_ops : ℕ → List (Op K V) → Cache K V → Cache K V
  run_ops share [] c = c
  run_ops share (o ∷ os) c = run_ops share os (run_op share o c)

  run_ops_preserve :
      (share : ℕ) (os : List (Op K V)) (c : Cache K V) → IsWithin c → IsWithin (run_ops share os c)
  run_ops_preserve share [] c i = i
  run_ops_preserve share (inl k ∷ os) c i =
      run_ops_preserve share os (get k c).1 (get-IsWithin k c i)
  run_ops_preserve share (inr (k, v, size) ∷ os) c i =
      run_ops_preserve share os (put share k v size c) (put-IsWithin share k v size c i)

  new_cache_lem :
      (budget : ℕ) (c : Cache K V)
      → new_cache budget ≡ some c
      → c ≡ record { budget = budget; used = 0; items = [] }
  unfolding new_cache
  new_cache_lem budget c made = ground arith

  -- For every budget and every share of it that one value may take: after any lookups and puts on a
  -- new cache, the bytes counted are the sum of the sizes of the items, they are within the budget,
  -- and no key stands twice.
  pub run_ops-IsWithin :
      (share budget : ℕ) (os : List (Op K V)) (c : Cache K V)
      → new_cache budget ≡ some c
      → IsWithin (run_ops share os c)
  unfolding total Distinct
  run_ops-IsWithin share budget os c made = run_ops_preserve share os c (
      rw (new_cache_lem budget c made)
        (record { used_total = refl; in_budget = omega arith; distinct = tt }))
