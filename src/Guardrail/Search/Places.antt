-- ===== src/Guardrail/Search/Places.antt =====
-- A search of internal/guardrail/sql_generic.go skips the word at every place that it refuses; it still
-- finds a place that passes the test, wherever there is one.
use opentrace.Base.{
  ℕ, zero, suc, ◌+◌, ◌-◌, ◌≤◌, ◌<◌, ◌≡◌, refl, sym, ap, ◌∙◌, ◌↔◌, [], ◌∷◌, arith, Bytes, Bool, true,
  false, length, drop, get_or, Option, none, some, Option-cases, Bool-cases, inl, inr, le-or-lt,
  length-drop,
}
use opentrace.Guardrail.Text.{has_prefix, index_of, is_ident_byte}
use opentrace.Guardrail.Search.{search_from, search, free_left}

abbrev pub stands_at : Bytes → Bytes → ℕ → Bool
stands_at s w i = has_prefix (drop i s) w

drop_nil : (i : ℕ) → drop {A = ℕ} i [] ≡ []
drop_nil zero = refl
drop_nil (suc i) = refl

pub drop-drop : (i j : ℕ) (s : Bytes) → drop i (drop j s) ≡ drop (j + i) s
drop-drop i zero s = let e : 0 + i ≡ i = omega arith in rw e refl
drop-drop i (suc j) [] = drop_nil i ∙ sym (drop_nil (suc j + i))
drop-drop i (suc j) (b ∷ s) =
    let e : suc j + i ≡ suc (j + i) = omega arith in rw e (drop-drop i j s)

pub get_or-drop : (i j : ℕ) (s : Bytes) → get_or (drop j s) i 0 ≡ get_or s (j + i) 0
get_or-drop i zero s = let e : 0 + i ≡ i = omega arith in rw e refl
get_or-drop i (suc j) [] = refl
get_or-drop i (suc j) (b ∷ s) =
    let e : suc j + i ≡ suc (j + i) = omega arith in rw e (get_or-drop i j s)

-- strings.Index gives a place where the word stands, and no earlier one does.
index_of-first :
    (s w : Bytes) (j : ℕ)
    → stands_at s w j ≡ true
    → (k : ℕ) × (index_of s w ≡ some k) × (k ≤ j) × (stands_at s w k ≡ true)
unfolding index_of
index_of-first [] w zero h = (0, rw h refl, omega arith, h)
index_of-first [] w (suc j) h = (0, rw h refl, omega arith, h)
index_of-first (b ∷ bs) w zero h = (0, rw h refl, omega arith, h)
index_of-first (b ∷ bs) w (suc j) h = elim (Bool-cases (has_prefix (b ∷ bs) w)) [
  | inl now ↦ (0, rw now refl, omega arith, now)
  | inr later ↦
      let (k, found, le, stands) = index_of-first bs w j h in
      (suc k, rw (later, found) refl, omega arith, stands)
]

index_of-stands : (s w : Bytes) (k : ℕ) → index_of s w ≡ some k → stands_at s w k ≡ true
unfolding index_of
index_of-stands [] w k h = elim (Bool-cases (has_prefix [] w)) [
  | inl now ↦ let e : k ≡ 0 = first_is now h in rw e now
  | inr never ↦ absurd (none_is never h)
]
  where
    first_is : has_prefix [] w ≡ true → index_of [] w ≡ some k → k ≡ 0
    first_is now h = ground arith

    none_is : has_prefix [] w ≡ false → index_of [] w ≡ some k → ⊥
    none_is never h = ground arith
index_of-stands (b ∷ bs) w k h = elim (Bool-cases (has_prefix (b ∷ bs) w)) [
  | inl now ↦ let e : k ≡ 0 = ground arith in rw e now
  | inr later ↦ elim (Option-cases (index_of bs w)) [
    | inl e ↦ absurd (ground arith)
    | inr (i, e) ↦ let f : k ≡ suc i = ground arith in rw f (index_of-stands bs w i e)
  ]
]

has_prefix-get_or :
    (s w : Bytes) (i : ℕ) → has_prefix s w ≡ true → i < length w → get_or s i 0 ≡ get_or w i 0
unfolding has_prefix
has_prefix-get_or s [] i h k = absurd (omega arith)
has_prefix-get_or [] (w ∷ ws) i h k = absurd cc
has_prefix-get_or (b ∷ bs) (w ∷ ws) zero h k = ground arith
has_prefix-get_or (b ∷ bs) (w ∷ ws) (suc i) h k = ground (arith, has_prefix-get_or bs ws i)

has_prefix-length : (s w : Bytes) → has_prefix s w ≡ true → length w ≤ length s
unfolding has_prefix
has_prefix-length s [] h = omega arith
has_prefix-length [] (w ∷ ws) h = absurd cc
has_prefix-length (b ∷ bs) (w ∷ ws) h = ground (arith, has_prefix-length bs ws)

-- A word that is searched for: identifier bytes, and one at least.
pub record IsWordBytes (w : Bytes) : Type 0 where
  pub nonempty : 0 < length w
  pub ident : (i : ℕ) → i < length w → is_ident_byte (get_or w i 0) ≡ true

module _ (s w : Bytes) (word : IsWordBytes w) where
  pub stands_at-lt : (p : ℕ) → stands_at s w p ≡ true → p < length s
  stands_at-lt p h = omega (arith, has_prefix-length (drop p s) w h, length-drop p s, word.nonempty)

  -- Within the word every byte is one of an identifier, so no other place there is free on the left.
  not_within : (q p : ℕ) → stands_at s w q ≡ true → free_left s p ≡ true → q < p → q + length w ≤ p
  unfolding free_left
  not_within q p h free lt = elim (le-or-lt (q + length w) p) [
    | inl ge ↦ ge
    | inr inside ↦
        let i = p - 1 - q in
        let at : q + i ≡ p - 1 = omega arith in
        let byte : is_ident_byte (get_or s (q + i) 0) ≡ true =
          rw (← get_or-drop i q s, has_prefix-get_or (drop q s) w i h (omega arith))
            (word.ident i (omega arith)) in
        absurd (ground (arith, at, byte))
  ]

-- A place where the word stands and the test holds.
abbrev pub WordPlace : (ℕ → Bool) → Bytes → Bytes → Type 0
WordPlace test s w = (p : ℕ) × (stands_at s w p ≡ true) × (test p ≡ true)

module _ (test : ℕ → Bool) (s w : Bytes) (word : IsWordBytes w)
    (left : (p : ℕ) → test p ≡ true → free_left s p ≡ true) where
  search_from-finds :
      (fuel from p : ℕ)
      → from ≤ p
      → p < from + fuel
      → stands_at s w p ≡ true
      → test p ≡ true
      → search_from test s w fuel from ≡ true
  unfolding search_from
  search_from-finds zero from p le lt h t = absurd (omega arith)
  search_from-finds (suc fuel) from p le lt h t =
      let at : from + (p - from) ≡ p = omega arith in
      let here : stands_at (drop from s) w (p - from) ≡ true =
        rw (drop-drop (p - from) from s, at) h in
      let (k, found, before, stands) = index_of-first (drop from s) w (p - from) here in
      let there : stands_at s w (from + k) ≡ true = rw (← drop-drop k from s) stands in
      elim (Bool-cases (test (from + k))) [
        | inl passes ↦ rw (search_from, found, passes) refl
        | inr refused ↦
            let apart : from + k < p = elim (le-or-lt p (from + k)) [
              | inl ge ↦
                  let same : from + k ≡ p = omega arith in absurd (differs (from + k) same refused)
              | inr lt' ↦ lt'
            ] in
            let past = not_within s w word (from + k) p there (left p t) apart in
            rw (search_from, found, refused)
              (search_from-finds fuel (from + k + length w) p past (omega (arith, word.nonempty)) h
                t)
      ]
    where
      differs : (q : ℕ) → q ≡ p → test q ≡ false → ⊥
      differs q e r = cc (ap test e)

  search_from_sound : (fuel from : ℕ) → search_from test s w fuel from ≡ true → WordPlace test s w
  unfolding search_from
  search_from_sound zero from h = absurd cc
  search_from_sound (suc fuel) from h =
      found (index_of (drop from s) w) refl (λ g. search_from_sound fuel g)
    where
      found :
          (o : Option ℕ)
          → index_of (drop from s) w ≡ o
          → ((g : ℕ) → search_from test s w fuel g ≡ true → WordPlace test s w)
          → WordPlace test s w
      found none e ih = absurd (ground (arith, h, e))
      found (some k) e ih =
          let there : stands_at s w (from + k) ≡ true =
            rw (← drop-drop k from s) (index_of-stands (drop from s) w k e) in
          elim (Bool-cases (test (from + k))) [
            | inl passes ↦ (from + k, there, passes)
            | inr refused ↦ ih (from + k + length w) (rw (search_from, e, refused) at h)
          ]

  -- The search finds the word exactly if it stands somewhere where the test holds.
  pub search-iff-WordPlace : (search test s w ≡ true) ↔ WordPlace test s w
  unfolding search
  search-iff-WordPlace = (
    λ h. search_from_sound (suc (length s)) 0 h,
    λ (p, h, t).
        search_from-finds (suc (length s)) 0 p (omega arith)
          (omega (arith, stands_at-lt s w word p h)) h t,
  )
