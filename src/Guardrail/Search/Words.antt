-- ===== src/Guardrail/Search/Words.antt =====
-- What the searches of internal/guardrail decide, without their loops.
use opentrace.Base.{
  ℕ, zero, suc, ◌+◌, ◌<◌, ◌≡◌, ◌↔◌, [], ◌∷◌, arith, Bytes, Bool, true, false, ◌&&◌, length, get_or,
  Bool-cases, inl, inr, ltb,
}
use opentrace.Guardrail.Text.{is_ident_byte}
use opentrace.Guardrail.Search.{
  free_left, free_right, contains_word, call_behind, has_function_call,
}
use opentrace.Guardrail.Search.Places.{stands_at, IsWordBytes, search-iff-WordPlace}

and-left : (a b : Bool) → (a && b) ≡ true → a ≡ true
and-left a b h = ground arith

module _ (s w : Bytes) (word : IsWordBytes w) where
  -- For a word of identifier bytes, containsWord, which resumes behind each match, says yes exactly
  -- if the word stands somewhere in the text with no identifier byte on either side.
  pub contains_word_lem : (contains_word s w ≡ true) ↔ (
      (p : ℕ) × (stands_at s w p ≡ true)
      × (free_left s p ≡ true)
      × (free_right s (p + length w) ≡ true))
  unfolding contains_word
  contains_word_lem =
      let found =
        search-iff-WordPlace (λ pos. free_left s pos && free_right s (pos + length w)) s w word
          (λ p. and-left (free_left s p) (free_right s (p + length w))) in
      (
        λ h. let (p, at, both) = found.0 h in (p, at, ground arith, ground arith),
        λ (p, at, l, r). found.1 (p, at, ground arith),
      )

  -- The same search, with the test for a call behind the name.
  pub has_function_call-WordPlace :
      (prefix : Bool)
      → (has_function_call s w prefix ≡ true) ↔ (
          (p : ℕ) × (stands_at s w p ≡ true)
          × (free_left s p ≡ true)
          × (call_behind s (p + length w) prefix ≡ true))
  unfolding has_function_call
  has_function_call-WordPlace prefix =
      let found =
        search-iff-WordPlace (λ pos. free_left s pos && call_behind s (pos + length w) prefix) s w
          word (λ p. and-left (free_left s p) (call_behind s (p + length w) prefix)) in
      (
        λ h. let (p, at, both) = found.0 h in (p, at, ground arith, ground arith),
        λ (p, at, l, r). found.1 (p, at, ground arith),
      )

  -- Where it says no, every place of the word fails one of the tests.
  pub contains_word_none :
      contains_word s w ≡ false
      → (p : ℕ) → stands_at s w p ≡ true
      → free_left s p ≡ true
      → free_right s (p + length w) ≡ false
  contains_word_none absent p at l = elim (Bool-cases (free_right s (p + length w))) [
    | inl r ↦ absurd (clash (contains_word s w) (contains_word_lem.1 (p, at, l, r)) absent)
    | inr r ↦ r
  ]
    where
      clash : (b : Bool) → b ≡ true → b ≡ false → ⊥
      clash b h k = cc

  pub has_function_call_none :
      (prefix : Bool)
      → has_function_call s w prefix ≡ false
      → (p : ℕ) → stands_at s w p ≡ true
      → free_left s p ≡ true
      → call_behind s (p + length w) prefix ≡ false
  has_function_call_none prefix absent p at l =
      elim (Bool-cases (call_behind s (p + length w) prefix)) [
        | inl r ↦ absurd (
            clash (has_function_call s w prefix)
              ((has_function_call-WordPlace prefix).1 (p, at, l, r)) absent)
        | inr r ↦ r
      ]
    where
      clash : (b : Bool) → b ≡ true → b ≡ false → ⊥
      clash b h k = cc

all_ident : Bytes → Bool
all_ident [] = true
all_ident (b ∷ bs) = is_ident_byte b && all_ident bs

all_ident-at :
    (w : Bytes) (i : ℕ) → all_ident w ≡ true → i < length w → is_ident_byte (get_or w i 0) ≡ true
unfolding all_ident
all_ident-at [] i h k = absurd (omega arith)
all_ident-at (b ∷ bs) zero h k = ground arith
all_ident-at (b ∷ bs) (suc i) h k = ground (arith, all_ident-at bs i)

-- A word in a list is checked by evaluation.
unfoldable pub is_word_bytes : Bytes → Bool
unfolding all_ident
is_word_bytes w = ltb 0 (length w) && all_ident w

pub is_word_bytes-IsWordBytes : (w : Bytes) → is_word_bytes w ≡ true → IsWordBytes w
unfolding is_word_bytes
is_word_bytes-IsWordBytes w h = record {
  nonempty = ground arith;
  ident = λ i k. all_ident-at w i (ground arith) k;
}
