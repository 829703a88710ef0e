-- ===== src/Guardrail/Text.antt =====
-- What internal/guardrail uses of Go's strings package, on lists of bytes.
use opentrace.Base.{
  ℕ, suc, [], ◌∷◌, Bytes, Bool, true, false, ◌&&◌, ◌||◌, leb, ◌==◌, if◌then◌else◌, Option, none,
  some,
}

-- strings.HasPrefix
unfoldable pub has_prefix : Bytes → Bytes → Bool
has_prefix s [] = true
has_prefix [] (w ∷ ws) = false
has_prefix (b ∷ bs) (w ∷ ws) = b == w && has_prefix bs ws

abbrev pub one_further : Option ℕ → Option ℕ
one_further none = none
one_further (some i) = some (suc i)

-- strings.Index
unfoldable pub index_of : Bytes → Bytes → Option ℕ
index_of [] w = if has_prefix [] w then some 0 else none
index_of (b ∷ bs) w =
    let rest = index_of bs w in if has_prefix (b ∷ bs) w then some 0 else one_further rest

-- `strings.Contains(s, c)` for one byte
unfoldable pub contains_byte : Bytes → ℕ → Bool
contains_byte [] c = false
contains_byte (b ∷ bs) c = b == c || contains_byte bs c

abbrev pub all_in : Bytes → Bytes → Bool
all_in set [] = true
all_in set (b ∷ bs) = contains_byte set b && all_in set bs

-- strings.TrimRight with a set of bytes
unfoldable pub trim_right : Bytes → Bytes → Bytes
trim_right [] set = []
trim_right (b ∷ bs) set =
    let rest = trim_right bs set in if all_in set (b ∷ bs) then [] else b ∷ rest

-- strings.ReplaceAll of a doubled byte by a single one
unfoldable pub undouble : ℕ → Bytes → Bytes
undouble c [] = []
undouble c (b ∷ []) = b ∷ []
undouble c (b ∷ b' ∷ bs) = elim (b == c && b' == c) [
  | true ↦ c ∷ undouble c bs
  | false ↦ b ∷ undouble c (b' ∷ bs)
]

-- `isIdentByte` of guardrail/sql_generic.go
unfoldable pub is_ident_byte : ℕ → Bool
is_ident_byte b =
    b == b'_'
    || (leb b'A' b && leb b b'Z' || (leb b'a' b && leb b b'z' || leb b'0' b && leb b b'9'))

-- `isSpaceByte`
unfoldable pub is_space_byte : ℕ → Bool
is_space_byte b = b == b' ' || (b == 9 || (b == 10 || b == 13))

-- `collapseSpaces` of guardrail/sql_normalize.go, after a space or not
unfoldable pub collapse_after : Bool → Bytes → Bytes
collapse_after prev_space [] = []
collapse_after prev_space (b ∷ bs) =
    let in_run = collapse_after true bs in
    let outside = collapse_after false bs in
    if b == b' ' then (if prev_space then in_run else b ∷ in_run) else b ∷ outside

unfoldable pub collapse_spaces : Bytes → Bytes
unfolding collapse_after
collapse_spaces s = collapse_after false s
