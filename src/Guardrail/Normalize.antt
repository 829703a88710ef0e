-- ===== src/Guardrail/Normalize.antt =====
-- guardrail/sql_normalize.go: a statement in a form that keywords can be looked for in. An index into
-- the statement is the list of the bytes from there on.
pub mod Fuel
pub mod Literals
use opentrace.Base.{
  ℕ, zero, suc, ◌+◌, List, [], ◌∷◌, ◌++◌, Bytes, Bool, true, false, not, ◌&&◌, ◌||◌, length, take,
  drop, leb, ◌==◌, if◌then◌else◌, Option, none, some, Result, ok, err, ◌>>=◌, codes,
}
use opentrace.Guardrail.Text.{has_prefix, index_of, is_ident_byte, undouble, collapse_spaces}
use opentrace.Guardrail.Unicode.{decode_rune, is_space, trim_space}

pub data SqlError : Type 0 where
  unterminated_quote unterminated_comment : SqlError

abbrev pub masked_literal : Bytes
masked_literal = codes "''"

abbrev pub head_is : Bytes → ℕ → Bool
head_is [] c = false
head_is (b ∷ bs) c = b == c

abbrev with_byte : ℕ → Option (Bytes × Bytes) → Option (Bytes × Bytes)
with_byte b none = none
with_byte b (some (body, rest)) = some (b ∷ body, rest)

-- The quoted run behind an opening quote, and what follows the closing one; `none` if there is none.
unfoldable pub scan_quoted : ℕ → Bool → Bytes → Option (Bytes × Bytes)
scan_quoted quote escapes [] = none
scan_quoted quote escapes (b ∷ []) =
    if escapes && b == 92 then none else if b == quote then some ([], []) else none
scan_quoted quote escapes (b ∷ b' ∷ bs) = elim (escapes && b == 92) [
  | true ↦ with_byte b (with_byte b' (scan_quoted quote escapes bs))
  | false ↦ elim (b == quote) [
    | false ↦ with_byte b (scan_quoted quote escapes (b' ∷ bs))
    | true ↦ elim (b' == quote) [
      | true ↦ with_byte b (with_byte b' (scan_quoted quote escapes bs))
      | false ↦ some ([], b' ∷ bs)
    ]
  ]
]

abbrev is_digit : ℕ → Bool
is_digit b = leb b'0' b && leb b b'9'

-- The identifier bytes of a tag, and what follows; the first is not a digit.
unfoldable pub scan_tag : Bool → Bytes → Bytes × Bytes
scan_tag first [] = ([], [])
scan_tag first (b ∷ bs) =
    let (name, rest) = scan_tag false bs in
    if is_ident_byte b && not (first && is_digit b) then (b ∷ name, rest) else ([], b ∷ bs)

abbrev behind_tag : Bytes → Bytes → Option ℕ → Option Bytes
behind_tag tag body none = none
behind_tag tag body (some end) = some (drop (end + length tag) body)

abbrev dollar_quoted : Bytes × Bytes → Option Bytes
dollar_quoted (name, []) = none
dollar_quoted (name, b ∷ bs) =
    let tag = b'$' ∷ (name ++ (b'$' ∷ [])) in
    if b == b'$' then behind_tag tag bs (index_of bs tag) else none

-- What follows the dollar-quoted string whose first dollar stands in front.
unfoldable pub scan_dollar_quote : Bytes → Option Bytes
unfolding scan_tag
scan_dollar_quote s = dollar_quoted (scan_tag true s)

unfoldable pub skip_digits : Bytes → Bytes
skip_digits [] = []
skip_digits (b ∷ bs) = let rest = skip_digits bs in if is_digit b then rest else b ∷ bs

-- The text that is executed of a comment's body.
abbrev executed : Bytes → Bytes
executed [] = []
executed (b ∷ bs) = if b == b'!' then skip_digits bs else []

abbrev comment_up_to : Bytes → Option ℕ → Result SqlError (Bytes × Bytes)
comment_up_to s none = err unterminated_comment
comment_up_to s (some end) = ok (executed (take end s), drop (end + 2) s)

-- On what follows the opening of the comment.
unfoldable pub scan_block_comment : Bytes → Result SqlError (Bytes × Bytes)
unfolding skip_digits
scan_block_comment s = comment_up_to s (index_of s (codes "*/"))

unfoldable pub starts_line_comment : Bytes → Bool
starts_line_comment [] = true
starts_line_comment (b ∷ bs) = is_space (decode_rune (b ∷ bs)).0

unfoldable pub skip_to_line_end : Bytes → Bytes
skip_to_line_end [] = []
skip_to_line_end (b ∷ bs) = let rest = skip_to_line_end bs in if b == 10 then b ∷ bs else rest

abbrev masked : Option (Bytes × Bytes) → Result SqlError (Bytes × Bytes)
masked none = err unterminated_quote
masked (some (body, rest)) = ok (masked_literal, rest)

abbrev spaced : Bytes → Bytes
spaced text = b' ' ∷ (text ++ (b' ' ∷ []))

abbrev unquoted : ℕ → Option (Bytes × Bytes) → Result SqlError (Bytes × Bytes)
unquoted quote none = err unterminated_quote
unquoted quote (some (body, rest)) = ok (spaced (undouble quote body), rest)

abbrev dollar_masked : Bytes → Option Bytes → Result SqlError (Bytes × Bytes)
dollar_masked s none = ok (b'$' ∷ [], s)
dollar_masked s (some rest) = ok (masked_literal, rest)

abbrev comment_spaced : Result SqlError (Bytes × Bytes) → Result SqlError (Bytes × Bytes)
comment_spaced r = do (body, rest) ← r; ok (spaced body, rest)

abbrev one_rune : Bytes → Bytes × Bytes
one_rune s =
    let (r, size) = decode_rune s in (if is_space r then b' ' ∷ [] else take size s, drop size s)

-- One round of the loop of normalizeSQL: what it writes, and the rest of the statement.
unfoldable pub next_piece : ℕ → Bytes → Result SqlError (Bytes × Bytes)
next_piece c s =
    if c == 39
    then masked (scan_quoted 39 true s)
    else if c == 34 || c == 96
    then unquoted c (scan_quoted c false s)
    else if c == b'$'
    then dollar_masked s (scan_dollar_quote s)
    else if c == b'/' && head_is s b'*'
    then comment_spaced (scan_block_comment (drop 1 s))
    else if c == b'-' && (head_is s b'-' && starts_line_comment (drop 1 s))
    then ok (b' ' ∷ [], skip_to_line_end (c ∷ s))
    else ok (one_rune (c ∷ s))

-- The loop, on fuel; what it has not come to is left as it stands.
unfoldable pub normalize_loop : ℕ → Bytes → Result SqlError Bytes
normalize_loop zero s = ok s
normalize_loop (suc fuel) [] = ok []
normalize_loop (suc fuel) (c ∷ s) = do
  (piece, rest) ← next_piece c s
  more ← normalize_loop fuel rest
  ok (piece ++ more)

-- Every round takes a byte, so the length is fuel enough.
unfoldable pub normalize_sql : Bytes → Result SqlError Bytes
unfolding normalize_loop
normalize_sql query = do
  b ← normalize_loop (length query) query
  ok (trim_space (collapse_spaces b))
