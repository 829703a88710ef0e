-- ===== src/Encoding/Dictionary/Lookup.antt =====
-- What the indices of a dictionary (encoding/dictionary.go) stand for: the values themselves, until
-- the dictionary is full.
use opentrace.Base.{
  ℕ, zero, suc, ◌%◌, ◌^◌, ◌≤◌, ◌<◌, ◌≡◌, refl, sym, ap, ◌∙◌, ◌⊎◌, inl, inr, List, [], ◌∷◌, ◌++◌,
  arith, Bytes, length, get_or, le→leb, leb-false, le-or-lt, bytes_eq, false, true, bytes_eq_iff,
  Bool-cases, some, Option-cases, append_assoc, append-nil, length-append,
}
use opentrace.Encoding.Dictionary.{
  max_dict_entries, find_index, intern, intern_all, effective_limit, dict_encode_limit, dict_lookup,
}

module _ {ℓ} {A : Type ℓ} (d : A) where
  get_or-append : (xs ys : List A) (i : ℕ) → i < length xs → get_or (xs ++ ys) i d ≡ get_or xs i d
  get_or-append [] ys i h = absurd (omega arith)
  get_or-append (x ∷ xs) ys zero h = refl
  get_or-append (x ∷ xs) ys (suc i) h = get_or-append xs ys i (omega arith)

  get_or_last : (xs : List A) (v : A) → get_or (xs ++ (v ∷ [])) (length xs) d ≡ v
  get_or_last [] v = refl
  get_or_last (x ∷ xs) v = get_or_last xs v

newest_found :
    (m : List (Bytes × ℕ)) (v u : Bytes) (i : ℕ)
    → bytes_eq v u ≡ true
    → find_index ((v, i) ∷ m) u ≡ some i
unfolding find_index
newest_found m v u i e = rw e

newest_passed :
    (m : List (Bytes × ℕ)) (v u : Bytes) (i : ℕ)
    → bytes_eq v u ≡ false
    → find_index ((v, i) ∷ m) u ≡ find_index m u
unfolding find_index
newest_passed m v u i e = rw e

abbrev entry_at : List Bytes → ℕ → Bytes
entry_at order i = get_or order i []

-- What holds of the map and the order in every iteration.
record IsDict (limit : ℕ) (m : List (Bytes × ℕ)) (order : List Bytes) : Type 0 where
  indexed :
      (v : Bytes) (i : ℕ) → find_index m v ≡ some i → (i < length order) × (entry_at order i ≡ v)
  nonempty : 0 < length order
  empty_first : entry_at order 0 ≡ []
  within : length order ≤ limit
  fits : limit ≤ max_dict_entries

-- The index of a value is in range and gives the value, or the empty string once the order is full.
record IsInterned (limit : ℕ) (order : List Bytes) (v : Bytes) (i : ℕ) : Type 0 where
  in_range : i < length order
  kept_or_empty : (entry_at order i ≡ v) ⊎ (entry_at order i ≡ [])
  kept : length order < limit → entry_at order i ≡ v

module _ (limit : ℕ) (m : List (Bytes × ℕ)) (order : List Bytes) (v : Bytes)
    (h : IsDict limit m order) where
  added_indexed :
      (u : Bytes) (i : ℕ)
      → find_index ((v, length order) ∷ m) u ≡ some i
      → (i < length (order ++ (v ∷ []))) × (entry_at (order ++ (v ∷ [])) i ≡ u)
  added_indexed u i e = elim (Bool-cases (bytes_eq v u)) [
    | inl same ↦
        let at : some (length order) ≡ some i = sym (newest_found m v u (length order) same) ∙ e in
        let last : length order ≡ i = cc in
        rw (← last, ← (bytes_eq_iff v u).0 same)
          (omega (arith, length-append order (v ∷ [])), get_or_last [] order v)
    | inr other ↦
        let (lo, found) = h.indexed u i (sym (newest_passed m v u (length order) other) ∙ e) in
        (omega (arith, length-append order (v ∷ [])), get_or-append [] order (v ∷ []) i lo ∙ found)
  ]

  added-IsDict : length order < limit → IsDict limit ((v, length order) ∷ m) (order ++ (v ∷ []))
  added-IsDict room = record {
    indexed = added_indexed;
    nonempty = omega (arith, length-append order (v ∷ []));
    empty_first = get_or-append [] order (v ∷ []) 0 h.nonempty ∙ h.empty_first;
    within = omega (arith, length-append order (v ∷ []));
    fits = h.fits;
  }

  -- One iteration keeps what holds, only adds to the order, and gives the value its index.
  intern_lem :
      let r = intern limit m order v in
      IsDict limit r.0 r.1 × ((ys : List Bytes) × (r.1 ≡ order ++ ys)) × IsInterned limit r.1 v r.2
  unfolding intern
  intern_lem = elim (Option-cases (find_index m v)) [
    | inr (i, e) ↦
        let (lo, found) = h.indexed v i e in
        rw e (
          h,
          ([], sym (append-nil order)),
          record { in_range = lo; kept_or_empty = inl found; kept = λ k. found },
        )
    | inl e ↦ elim (le-or-lt limit (length order)) [
      | inl full ↦
          rw (e, le→leb limit (length order) full)
            (
              h,
              ([], sym (append-nil order)),
              record {
                in_range = h.nonempty;
                kept_or_empty = inr h.empty_first;
                kept = λ k. absurd (omega arith);
              },
            )
      | inr room ↦
          let idx : length order % 2 ^ 16 ≡ length order = omega (arith, h.fits) in
          rw (e, leb-false limit (length order) room, idx)
            (
              added-IsDict room,
              (v ∷ [], refl),
              record {
                in_range = omega (arith, length-append order (v ∷ []));
                kept_or_empty = inl (get_or_last [] order v);
                kept = λ k. get_or_last [] order v;
              },
            )
    ]
  ]

-- Each value, or the empty string in its place.
abbrev pub FoldsTo : List Bytes → List Bytes → Type 0
FoldsTo [] [] = Unit {0}
FoldsTo [] (r ∷ rs) = ⊥
FoldsTo (v ∷ vs) [] = ⊥
FoldsTo (v ∷ vs) (r ∷ rs) = ((r ≡ v) ⊎ (r ≡ [])) × FoldsTo vs rs

intern_all-within :
    (vs : List Bytes) (limit : ℕ) (m : List (Bytes × ℕ)) (order : List Bytes)
    → IsDict limit m order
    → length (intern_all limit m order vs).dict ≤ limit
unfolding intern_all
intern_all-within [] limit m order h = h.within
intern_all-within (v ∷ vs) limit m order h =
    intern_all-within vs limit _ _ (intern_lem limit m order v h).0

-- Entries of the order stay where they are.
intern_all-extends :
    (vs : List Bytes) (limit : ℕ) (m : List (Bytes × ℕ)) (order : List Bytes)
    → IsDict limit m order
    → (ys : List Bytes) × ((intern_all limit m order vs).dict ≡ order ++ ys)
unfolding intern_all
intern_all-extends [] limit m order h = ([], sym (append-nil order))
intern_all-extends (v ∷ vs) limit m order h =
    let (kept, (xs, e), at) = intern_lem limit m order v h in
    let (ys, f) = intern_all-extends vs limit _ _ kept in
    (xs ++ ys, f ∙ ap (λ (t : List Bytes). t ++ ys) e ∙ append_assoc order xs ys)

module _ (limit : ℕ) (m : List (Bytes × ℕ)) (order vs : List Bytes) (h : IsDict limit m order) where
  entry_kept :
      (i : ℕ) → i < length order → entry_at (intern_all limit m order vs).dict i ≡ entry_at order i
  entry_kept i lo =
      let (ys, e) = intern_all-extends vs limit m order h in rw e (get_or-append [] order ys i lo)

  order_shorter : length order ≤ length (intern_all limit m order vs).dict
  order_shorter =
      let (ys, e) = intern_all-extends vs limit m order h in
      rw e (omega (arith, length-append order ys))

intern_all-FoldsTo :
    (vs : List Bytes) (limit : ℕ) (m : List (Bytes × ℕ)) (order : List Bytes)
    → IsDict limit m order
    → FoldsTo vs (dict_lookup (intern_all limit m order vs))
unfolding intern_all dict_lookup
intern_all-FoldsTo [] limit m order h = tt
intern_all-FoldsTo (v ∷ vs) limit m order h =
    let (kept, grows, at) = intern_lem limit m order v h in
    (
      rw (entry_kept limit _ _ vs kept _ at.in_range) at.kept_or_empty,
      intern_all-FoldsTo vs limit _ _ kept,
    )

intern_all-kept :
    (vs : List Bytes) (limit : ℕ) (m : List (Bytes × ℕ)) (order : List Bytes)
    → IsDict limit m order
    → length (intern_all limit m order vs).dict < limit
    → dict_lookup (intern_all limit m order vs) ≡ vs
unfolding intern_all dict_lookup
intern_all-kept [] limit m order h room = refl
intern_all-kept (v ∷ vs) limit m order h room =
    let (kept, grows, at) = intern_lem limit m order v h in
    rw (
      entry_kept limit _ _ vs kept _ at.in_range,
      at.kept (omega (arith, order_shorter limit _ _ vs kept)),
      intern_all-kept vs limit _ _ kept room,
    )

first_indexed :
    (v : Bytes) (i : ℕ)
    → find_index (([], 0) ∷ []) v ≡ some i
    → (i < 1) × (entry_at ([] ∷ []) i ≡ v)
unfolding find_index bytes_eq
first_indexed [] zero e = (omega arith, refl)
first_indexed [] (suc i) e = absurd cc
first_indexed (x ∷ xs) i e = absurd cc

start-IsDict : (limit : ℕ) → IsDict (effective_limit limit) (([], 0) ∷ []) ([] ∷ [])
unfolding effective_limit find_index
start-IsDict limit = record {
  indexed = first_indexed;
  nonempty = omega arith;
  empty_first = refl;
  within = ground arith;
  fits = ground arith;
}

-- Under any limit, DictEncodeLimit makes no more entries than the limit in force, and DictLookup
-- gives each value back or the empty string in its place; as long as the dictionary stays below
-- that limit, it gives back exactly the values.
pub dict_lookup-dict_encode_limit :
    (vs : List Bytes) (limit : ℕ)
    → let d = dict_encode_limit vs limit in
      (length d.dict ≤ effective_limit limit)
      × FoldsTo vs (dict_lookup d)
      × (length d.dict < effective_limit limit → dict_lookup d ≡ vs)
unfolding dict_encode_limit
dict_lookup-dict_encode_limit vs limit =
    let h = start-IsDict limit in
    (intern_all-within vs _ _ _ h, intern_all-FoldsTo vs _ _ _ h, intern_all-kept vs _ _ _ h)
