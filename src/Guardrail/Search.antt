-- ===== src/Guardrail/Search.antt =====
-- The searches of internal/guardrail for a word, for a word that is no call, and for a call. The three
-- loops differ only in what they ask of a place where the word stands, so they share one here.
pub mod Places
pub mod Words
pub mod Calls
use opentrace.Base.{
  ℕ, zero, suc, ◌+◌, ◌-◌, List, [], ◌∷◌, Bytes, Bool, true, false, not, ◌&&◌, ◌||◌, length, drop,
  get_or, ltb, ◌==◌, if◌then◌else◌, Option, none, some,
}
use opentrace.Guardrail.Text.{has_prefix, index_of, is_ident_byte, is_space_byte}

-- `upper[from:]` is searched on from behind each place that the test refuses.
unfoldable pub search_from : (ℕ → Bool) → Bytes → Bytes → ℕ → ℕ → Bool
search_from test upper word zero from = false
search_from test upper word (suc fuel) from = elim (index_of (drop from upper) word) [
  | none ↦ false
  | some i ↦
      let rest = search_from test upper word fuel (from + i + length word) in
      if test (from + i) then true else rest
]

-- Each round passes the word, which is not empty, so the length is fuel enough.
unfoldable pub search : (ℕ → Bool) → Bytes → Bytes → Bool
unfolding search_from
search test upper word = search_from test upper word (suc (length upper)) 0

-- `pos > 0 && isIdentByte(upper[pos-1])` is false.
unfoldable pub free_left : Bytes → ℕ → Bool
free_left upper pos = not (ltb 0 pos && is_ident_byte (get_or upper (pos - 1) 0))

-- `pos < len(upper) && isIdentByte(upper[pos])` is false.
unfoldable pub free_right : Bytes → ℕ → Bool
free_right upper pos = not (ltb pos (length upper) && is_ident_byte (get_or upper pos 0))

unfoldable pub contains_word : Bytes → Bytes → Bool
unfolding search free_left free_right
contains_word upper word =
    search (λ pos. free_left upper pos && free_right upper (pos + length word)) upper word

-- Whether `(` follows, after any bytes that the test skips.
unfoldable pub call_follows : (ℕ → Bool) → Bytes → Bool
call_follows skips [] = false
call_follows skips (b ∷ bs) =
    let rest = call_follows skips bs in if skips b then rest else b == b'('

unfoldable pub contains_word_not_call : Bytes → Bytes → Bool
unfolding search free_left free_right call_follows
contains_word_not_call upper word =
    search
      (λ pos.
        free_left upper pos
        && (free_right upper (pos + length word)
            && not (call_follows (λ b. b == b' ') (drop (pos + length word) upper))))
      upper word

unfoldable pub skip_ident : Bytes → Bytes
skip_ident [] = []
skip_ident (b ∷ bs) = let rest = skip_ident bs in if is_ident_byte b then rest else b ∷ bs

-- What the test asks behind the name: of a prefix, the rest of the identifier is passed.
unfoldable pub call_behind : Bytes → ℕ → Bool → Bool
unfolding skip_ident call_follows free_right
call_behind upper j true = call_follows is_space_byte (skip_ident (drop j upper))
call_behind upper j false = free_right upper j && call_follows is_space_byte (drop j upper)

unfoldable pub has_function_call : Bytes → Bytes → Bool → Bool
unfolding search free_left call_behind
has_function_call upper name prefix =
    search (λ pos. free_left upper pos && call_behind upper (pos + length name) prefix) upper name
