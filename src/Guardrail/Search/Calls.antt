-- ===== src/Guardrail/Search/Calls.antt =====
-- What hasFunctionCall decides, as the shape of the text (guardrail/sql_generic.go).
use opentrace.Base.{
  ℕ, ◌+◌, ◌≡◌, ◌⊎◌, ◌↔◌, refl, sym, ap, ◌∙◌, [], ◌∷◌, ◌++◌, arith, Bytes, All, Bool, true, false,
  ◌==◌, length, take, drop, get_or, Bool-cases, inl, inr, take-append-drop, length-take,
  drop-append,
}
use opentrace.Guardrail.Text.{has_prefix, is_ident_byte, is_space_byte}
use opentrace.Guardrail.Search.{
  free_left, free_right, call_follows, skip_ident, call_behind, has_function_call,
}
use opentrace.Guardrail.Search.Places.{stands_at, IsWordBytes, stands_at-lt, drop-drop, get_or-drop}
use opentrace.Guardrail.Search.Words.{has_function_call-WordPlace}

abbrev pub AllIdent : Bytes → Type 0
AllIdent s = All (λ b. is_ident_byte b ≡ true) s

abbrev pub AllSpace : Bytes → Type 0
AllSpace s = All (λ b. is_space_byte b ≡ true) s

space-ident : (b : ℕ) → is_space_byte b ≡ true → is_ident_byte b ≡ false
unfolding is_space_byte is_ident_byte
space-ident b h = ground arith

follows_gap :
    (s : Bytes)
    → call_follows is_space_byte s ≡ true
    → (gap : Bytes) × (back : Bytes) × (s ≡ gap ++ (b'(' ∷ back)) × AllSpace gap
unfolding call_follows
follows_gap [] h = absurd cc
follows_gap (b ∷ s) h = elim (Bool-cases (is_space_byte b)) [
  | inl space ↦
      let later : call_follows is_space_byte s ≡ true = rw space at h in
      let (gap, back, e, spaces) = follows_gap s later in
      (b ∷ gap, back, ap (λ t. b ∷ t) e, (space, spaces))
  | inr other ↦
      let opens : (b == b'(') ≡ true = rw other at h in
      let same : b ≡ b'(' = ground arith in ([], s, ap (λ c. c ∷ s) same, tt)
]

gap-follows :
    (gap back : Bytes) → AllSpace gap → call_follows is_space_byte (gap ++ (b'(' ∷ back)) ≡ true
unfolding call_follows is_space_byte
gap-follows [] back h = refl
gap-follows (g ∷ gap) back (space, h) = rw (gap-follows gap back h) (ground arith)

skip_ident-more : (s : Bytes) → (more : Bytes) × (s ≡ more ++ skip_ident s) × AllIdent more
unfolding skip_ident
skip_ident-more [] = ([], refl, tt)
skip_ident-more (b ∷ s) = elim (Bool-cases (is_ident_byte b)) [
  | inl ident ↦
      let (more, e, all) = skip_ident-more s in
      (b ∷ more, rw ident (ap (λ t. b ∷ t) e), (ident, all))
  | inr other ↦ ([], rw other refl, tt)
]

-- The first byte of the spaces and the parenthesis is none of an identifier.
gap-head :
    (gap back : Bytes) → AllSpace gap → is_ident_byte (get_or (gap ++ (b'(' ∷ back)) 0 0) ≡ false
unfolding is_ident_byte
gap-head [] back h = refl
gap-head (g ∷ gap) back (space, h) = space-ident g space

skip_ident-stops : (t : Bytes) → is_ident_byte (get_or t 0 0) ≡ false → skip_ident t ≡ t
unfolding skip_ident
skip_ident-stops [] h = refl
skip_ident-stops (b ∷ t) h = rw h refl

skip_ident-past :
    (more t : Bytes)
    → AllIdent more
    → is_ident_byte (get_or t 0 0) ≡ false
    → skip_ident (more ++ t) ≡ t
unfolding skip_ident
skip_ident-past [] t all h = skip_ident-stops t h
skip_ident-past (m ∷ more) t (ident, all) h = rw ident (skip_ident-past more t all h)

prefix-rest : (s w : Bytes) → has_prefix s w ≡ true → s ≡ w ++ drop (length w) s
unfolding has_prefix
prefix-rest s [] h = refl
prefix-rest [] (w ∷ ws) h = absurd cc
prefix-rest (b ∷ s) (w ∷ ws) h =
    let same : b ≡ w = ground arith in
    let rest : has_prefix s ws ≡ true = ground arith in
    rw same (ap (λ t. w ∷ t) (prefix-rest s ws rest))

has_prefix-append : (w t : Bytes) → has_prefix (w ++ t) w ≡ true
unfolding has_prefix
has_prefix-append [] t = refl
has_prefix-append (w ∷ ws) t = rw (has_prefix-append ws t) (ground arith)

-- What stands behind the name: of a prefix the rest of an identifier, spaces, and a parenthesis.
abbrev pub CallBehind : Bool → Bytes → Type 0
CallBehind prefix t =
    (more : Bytes) × (gap : Bytes) × (back : Bytes) × (t ≡ more ++ (gap ++ (b'(' ∷ back)))
    × AllIdent more
    × AllSpace gap
    × ((prefix ≡ true) ⊎ (more ≡ []))

call_behind-CallBehind :
    (prefix : Bool) (s : Bytes) (j : ℕ)
    → call_behind s j prefix ≡ true
    → CallBehind prefix (drop j s)
unfolding call_behind
call_behind-CallBehind true s j h =
    let (more, e, ident) = skip_ident-more (drop j s) in
    let (gap, back, e', space) = follows_gap (skip_ident (drop j s)) h in
    (more, gap, back, e ∙ ap (λ t. more ++ t) e', ident, space, inl refl)
call_behind-CallBehind false s j h =
    let (gap, back, e, space) = follows_gap (drop j s) (ground arith) in
    ([], gap, back, e, tt, space, inr refl)

free_right-head :
    (s : Bytes) (j : ℕ) → is_ident_byte (get_or (drop j s) 0 0) ≡ false → free_right s j ≡ true
unfolding free_right
free_right-head s j h =
    let at : j + 0 ≡ j = omega arith in
    let byte : is_ident_byte (get_or s j 0) ≡ false = rw (get_or-drop 0 j s, at) at h in
    rw byte (ground arith)

CallBehind-call_behind :
    (prefix : Bool) (s : Bytes) (j : ℕ)
    → CallBehind prefix (drop j s)
    → call_behind s j prefix ≡ true
unfolding call_behind
CallBehind-call_behind true s j (more, gap, back, e, ident, space, only) =
    let head = gap-head gap back space in
    rw (e, skip_ident-past more (gap ++ (b'(' ∷ back)) ident head) (gap-follows gap back space)
CallBehind-call_behind false s j (more, gap, back, e, ident, space, inl bad) = absurd cc
CallBehind-call_behind false s j (more, gap, back, e, ident, space, inr none_more) =
    let text : drop j s ≡ gap ++ (b'(' ∷ back) = rw none_more at e in
    let free : free_right s j ≡ true = free_right-head s j (rw text (gap-head gap back space)) in
    rw (free, text) (gap-follows gap back space)

-- For a name of identifier bytes, hasFunctionCall says yes exactly if the text is: anything,
-- without an identifier byte at its end; the name; where the name is a prefix, any identifier
-- bytes; spaces; an opening parenthesis; and anything.
pub has_function_call_lem :
    (s w : Bytes) (prefix : Bool)
    → IsWordBytes w
    → (has_function_call s w prefix ≡ true) ↔ (
        (front : Bytes) × (more : Bytes) × (gap : Bytes) × (back : Bytes) × (s
          ≡ front ++ (w ++ (more ++ (gap ++ (b'(' ∷ back)))))
        × (free_left s (length front) ≡ true)
        × AllIdent more
        × AllSpace gap
        × ((prefix ≡ true) ⊎ (more ≡ [])))
has_function_call_lem s w prefix word = (
  λ h.
      let (p, at, free, call) = (has_function_call-WordPlace s w word prefix).0 h in
      let (more, gap, back, e, ident, space, only) =
        call_behind-CallBehind prefix s (p + length w) call in
      let word_there : drop p s ≡ w ++ drop (length w) (drop p s) = prefix-rest (drop p s) w at in
      let whole : s ≡ take p s ++ (w ++ (more ++ (gap ++ (b'(' ∷ back)))) =
        sym (take-append-drop p s)
        ∙ ap (λ t. take p s ++ t) (word_there ∙ ap (λ t. w ++ t) (drop-drop (length w) p s ∙ e)) in
      let at_p : length (take p s) ≡ p =
        omega (arith, length-take p s, stands_at-lt s w word p at) in
      (take p s, more, gap, back, whole, rw at_p free, ident, space, only),
  λ (front, more, gap, back, e, free, ident, space, only).
      let rest : Bytes = more ++ (gap ++ (b'(' ∷ back)) in
      let there : drop (length front) s ≡ w ++ rest = rw e (drop-append front (w ++ rest)) in
      let at : stands_at s w (length front) ≡ true = rw there (has_prefix-append w rest) in
      let behind : drop (length front + length w) s ≡ rest =
        sym (drop-drop (length w) (length front) s)
        ∙ ap (λ t. drop (length w) t) there
        ∙ drop-append w rest in
      (has_function_call-WordPlace s w word prefix).1 (
        length front,
        at,
        free,
        CallBehind-call_behind prefix s (length front + length w)
            (more, gap, back, behind, ident, space, only),
      ),
)
