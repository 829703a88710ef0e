-- ===== src/Lru.antt =====
-- The cache that internal/logstore/engine/colcache.go (columnCache) and internal/logstore/index/cache.go
-- (Cache) both are: values with sizes, the most recently used first, within a budget of bytes. The map
-- and the list of the code hold the same items, which are one list here. Sizes and budgets are the
-- int64s that are not negative, of which a budget and a size have no sum that wraps.
pub mod Evict
pub mod Contents
pub mod Invariant
mod Tests
use opentrace.Base.{
  ℕ, zero, suc, ◌+◌, ◌-◌, ◌/◌, ◌≡◌, ◌↔◌, List, [], ◌∷◌, Bool, true, false, ◌||◌, Option, none, some,
  length, leb, ltb, ◌==◌, if◌then◌else◌,
}

-- The equality of a map's keys.
pub record Eq (K : Type 0) : Type 0 where
  pub same : K → K → Bool
  pub same_iff : (a b : K) → (same a b ≡ true) ↔ (a ≡ b)

pub record Item (K V : Type 0) : Type 0 where
  pub key : K
  pub value : V
  pub bytes : ℕ

pub record Cache (K V : Type 0) : Type 0 where
  pub budget : ℕ
  pub used : ℕ
  pub items : List (Item K V)

module _ {K V : Type 0} ⦃e : Eq K⦄ where
  -- No cache where the budget is not positive.
  unfoldable pub new_cache : ℕ → Option (Cache K V)
  new_cache budget =
      if budget == 0 then none else some (record { budget = budget; used = 0; items = [] })

  abbrev pub behind :
      Item K V → Option (Item K V × List (Item K V)) → Option (Item K V × List (Item K V))
  behind x none = none
  behind x (some (found, rest)) = some (found, x ∷ rest)

  -- The item under a key, and the others in their order.
  unfoldable pub take_out : K → List (Item K V) → Option (Item K V × List (Item K V))
  take_out k [] = none
  take_out k (x ∷ xs) =
      let rest = take_out k xs in if e.same x.key k then some (x, xs) else behind x rest

  unfoldable pub get : K → Cache K V → Option V × Cache K V
  get k c = elim (take_out k c.items) [
    | none ↦ (none, c)
    | some (x, rest) ↦ (some x.value, record c { items = x ∷ rest })
  ]

  abbrev pub before_last :
      Item K V → Option (List (Item K V) × Item K V) → List (Item K V) × Item K V
  before_last x none = ([], x)
  before_last x (some (front, oldest)) = (x ∷ front, oldest)

  -- The least recently used item, and those in front of it.
  unfoldable pub oldest : List (Item K V) → Option (List (Item K V) × Item K V)
  oldest [] = none
  oldest (x ∷ xs) = some (before_last x (oldest xs))

  -- The loop that makes room, and whether it came to its end with room made.
  unfoldable pub evict : ℕ → Cache K V → ℕ → Cache K V × Bool
  evict zero c size = (c, leb (c.used + size) c.budget)
  evict (suc fuel) c size = elim (ltb c.budget (c.used + size)) [
    | false ↦ (c, true)
    | true ↦ elim (oldest c.items) [
      | none ↦ (c, false)
      | some (front, x) ↦ evict fuel (record c { items = front; used = c.used - x.bytes }) size
    ]
  ]

  abbrev pub add_item : Item K V → Cache K V × Bool → Cache K V
  add_item x (c, false) = c
  add_item x (c, true) = record c { items = x ∷ c.items; used = c.used + x.bytes }

  -- `share` is the part of the budget that one value may take. Each round of the loop takes an item out.
  unfoldable pub put : ℕ → K → V → ℕ → Cache K V → Cache K V
  unfolding evict
  put share k v size c =
      if size == 0 || ltb (c.budget / share) size then c else (elim (take_out k c.items) [
        | some (x, rest) ↦ record c { items = x ∷ rest }
        | none ↦
            add_item (record { key = k; value = v; bytes = size }) (evict (length c.items) c size)
      ])

  unfoldable pub stats : Cache K V → ℕ × ℕ
  stats c = (length c.items, c.used)
