-- ===== src/TextIndex/Tokenizer.antt =====
-- index/tokenizer.go. strings.ToLower and the tables of Unicode are parameters.
use opentrace.Base.{
  ℕ, zero, suc, List, [], ◌∷◌, ◌++◌, Bytes, Bool, true, false, not, ◌&&◌, ◌||◌, length, take, drop,
  leb, ◌==◌, if◌then◌else◌, bytes_eq,
}
use opentrace.Guardrail.Unicode.{decode_rune}

pub record Letters : Type 0 where
  -- strings.ToLower
  pub to_lower : Bytes → Bytes
  -- unicode.IsLetter
  pub is_letter : ℕ → Bool
  -- unicode.IsDigit
  pub is_digit : ℕ → Bool

abbrev field_if_any : Bytes → List Bytes
field_if_any [] = []
field_if_any (b ∷ bs) = (b ∷ bs) ∷ []

-- strings.FieldsFunc: the runs of runes that the test refuses. A rune takes a byte at least, so the
-- length is fuel enough.
fields_loop : (ℕ → Bool) → ℕ → Bytes → Bytes → List Bytes
fields_loop splits zero field s = field_if_any field
fields_loop splits (suc fuel) field [] = field_if_any field
fields_loop splits (suc fuel) field (b ∷ bs) =
    let (r, size) = decode_rune (b ∷ bs) in
    let rest = drop size (b ∷ bs) in
    elim (splits r) [
      | true ↦ field_if_any field ++ fields_loop splits fuel [] rest
      | false ↦ fields_loop splits fuel (field ++ take size (b ∷ bs)) rest
    ]

unfoldable pub fields_func : (ℕ → Bool) → Bytes → List Bytes
unfolding fields_loop
fields_func splits s = fields_loop splits (length s) [] s

unfoldable pub long_enough : List Bytes → List Bytes
long_enough [] = []
long_enough (t ∷ ts) = let rest = long_enough ts in if leb 2 (length t) then t ∷ rest else rest

unfoldable pub is_seen : List Bytes → Bytes → Bool
is_seen [] t = false
is_seen (s ∷ ss) t = bytes_eq s t || is_seen ss t

unfoldable pub unique : List Bytes → List Bytes → List Bytes
unfolding is_seen
unique seen [] = []
unique seen (t ∷ ts) = elim (is_seen seen t) [
  | true ↦ unique seen ts
  | false ↦ t ∷ unique (t ∷ seen) ts
]

module _ (l : Letters) where
  abbrev splits_tokens : ℕ → Bool
  splits_tokens r =
      not (l.is_letter r) && (not (l.is_digit r) && (not (r == b'_') && not (r == b'-')))

  unfoldable pub tokenize : Bytes → List Bytes
  tokenize s = long_enough (fields_func splits_tokens (l.to_lower s))

  unfoldable pub tokenize_unique : Bytes → List Bytes
  unfolding tokenize unique
  tokenize_unique s = unique [] (tokenize s)
