-- ===== src/Lru/Contents.antt =====
-- What holds of every item of a cache (Lru.antt) holds after lookups and puts.
use opentrace.Base.{
  ℕ, zero, suc, ◌+◌, ◌-◌, ◌/◌, ◌≡◌, refl, List, [], ◌∷◌, All, Bool, true, false, ◌||◌, Option, none,
  some, length, ltb, ◌==◌, Bool-cases, inl, inr,
}
use opentrace.Lru.{
  Eq, Item, Cache, take_out, behind, get, oldest, before_last, evict, add_item, put,
}

module _ {K V : Type 0} ⦃e : Eq K⦄ (P : Item K V → Type 0) where
  abbrev pub TakenWell : K → Option (Item K V × List (Item K V)) → Type 0
  TakenWell k none = Unit {0}
  TakenWell k (some (x, rest)) = (e.same x.key k ≡ true) × P x × All P rest

  behind-TakenWell :
      (k : K) (y : Item K V) (o : Option (Item K V × List (Item K V)))
      → P y
      → TakenWell k o
      → TakenWell k (behind y o)
  behind-TakenWell k y none p h = tt
  behind-TakenWell k y (some (x, rest)) p (s, q, h) = (s, q, (p, h))

  pub take_out-TakenWell : (k : K) (xs : List (Item K V)) → All P xs → TakenWell k (take_out k xs)
  unfolding take_out
  take_out-TakenWell k [] h = tt
  take_out-TakenWell k (x ∷ xs) (p, h) = elim (Bool-cases (e.same x.key k)) [
    | inl here ↦ rw here (here, p, h)
    | inr there ↦ rw there (behind-TakenWell k x (take_out k xs) p (take_out-TakenWell k xs h))
  ]

  OldestWell : Option (List (Item K V) × Item K V) → Type 0
  OldestWell none = Unit {0}
  OldestWell (some (front, x)) = All P front

  before_last-OldestWell :
      (y : Item K V) (o : Option (List (Item K V) × Item K V))
      → P y
      → OldestWell o
      → OldestWell (some (before_last y o))
  unfolding OldestWell
  before_last-OldestWell y none p h = tt
  before_last-OldestWell y (some (front, x)) p h = (p, h)

  oldest-OldestWell : (xs : List (Item K V)) → All P xs → OldestWell (oldest xs)
  unfolding oldest OldestWell
  oldest-OldestWell [] h = tt
  oldest-OldestWell (x ∷ xs) (p, h) =
      before_last-OldestWell x (oldest xs) p (oldest-OldestWell xs h)

  -- A round of the loop, by the oldest item.
  round_well :
      (fuel : ℕ) (c : Cache K V) (size : ℕ) (o : Option (List (Item K V) × Item K V))
      → ((front : List (Item K V)) (x : Item K V)
          → All P front
          → All P (evict fuel (record c { items = front; used = c.used - x.bytes }) size).0.items)
      → All P c.items
      → OldestWell o
      → (let after : Cache K V × Bool = elim o [
        | none ↦ (c, false)
        | some (front, x) ↦ evict fuel (record c { items = front; used = c.used - x.bytes }) size
      ] in
          All P after.0.items)
  unfolding OldestWell
  round_well fuel c size none ih h well = h
  round_well fuel c size (some (front, x)) ih h well = ih front x well

  evict-All :
      (fuel : ℕ) (c : Cache K V) (size : ℕ) → All P c.items → All P (evict fuel c size).0.items
  unfolding evict
  evict-All zero c size h = h
  evict-All (suc fuel) c size h = elim (Bool-cases (ltb c.budget (c.used + size))) [
    | inr low ↦ rw (evict, low) h
    | inl high ↦
        rw (evict, high)
          (round_well fuel c size (oldest c.items)
            (λ front x well.
              evict-All fuel (record c { items = front; used = c.used - x.bytes }) size well)
            h (oldest-OldestWell c.items h))
  ]

  add_item-All :
      (x : Item K V) (r : Cache K V × Bool) → P x → All P r.0.items → All P (add_item x r).items
  add_item-All x (c, false) p h = h
  add_item-All x (c, true) p h = (p, h)

  taken_front :
      (c d : Cache K V) (k : K) (o : Option (Item K V × List (Item K V)))
      → TakenWell k o
      → All P d.items
      → (let after : Cache K V = elim o [
        | some (x, rest) ↦ record c { items = x ∷ rest }
        | none ↦ d
      ] in
          All P after.items)
  taken_front c d k none h hd = hd
  taken_front c d k (some (x, rest)) (s, p, h) hd = (p, h)

  pub put-All :
      (share : ℕ) (k : K) (v : V) (size : ℕ) (c : Cache K V)
      → P (record { key = k; value = v; bytes = size })
      → All P c.items
      → All P (put share k v size c).items
  unfolding put
  put-All share k v size c p h = elim (Bool-cases (size == 0 || ltb (c.budget / share) size)) [
    | inl refused ↦ rw (put, refused) h
    | inr allowed ↦
        let x : Item K V = record { key = k; value = v; bytes = size } in
        let r = evict (length c.items) c size in
        rw (put, allowed)
          (taken_front c (add_item x r) k (take_out k c.items) (take_out-TakenWell k c.items h)
            (add_item-All x r p (evict-All (length c.items) c size h)))
  ]

  -- What a lookup gives, and the cache after it.
  abbrev pub GetWell : K → Option V × Cache K V → Type 0
  GetWell k (none, c) = All P c.items
  GetWell k (some v, c) =
      ((x : Item K V) × (e.same x.key k ≡ true) × P x × (x.value ≡ v)) × All P c.items

  got_well :
      (c : Cache K V) (k : K) (o : Option (Item K V × List (Item K V)))
      → All P c.items
      → TakenWell k o
      → (let after : Option V × Cache K V = elim o [
        | none ↦ (none, c)
        | some (x, rest) ↦ (some x.value, record c { items = x ∷ rest })
      ] in
          GetWell k after)
  got_well c k none h well = h
  got_well c k (some (x, rest)) h (s, p, hr) = ((x, s, p, refl), (p, hr))

  pub get-GetWell : (k : K) (c : Cache K V) → All P c.items → GetWell k (get k c)
  unfolding get
  get-GetWell k c h = got_well c k (take_out k c.items) h (take_out-TakenWell k c.items h)
