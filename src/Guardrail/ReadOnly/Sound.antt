-- ===== src/Guardrail/ReadOnly/Sound.antt =====
-- What a statement that ValidateReadOnlyGeneric (guardrail/sql_generic.go) accepts cannot do.
use opentrace.Base.{
  ℕ, ◌+◌, ◌≡◌, List, [], ◌∷◌, Bytes, All, Bool, true, false, ◌&&◌, ◌||◌, length, codes, ◌>>=◌,
}
use opentrace.Guardrail.Text.{has_prefix}
use opentrace.Guardrail.Search.{
  free_left, free_right, contains_word, call_behind, has_function_call,
}
use opentrace.Guardrail.Search.Places.{stands_at}
use opentrace.Guardrail.Search.Words.{is_word_bytes}
use opentrace.Guardrail.ReadOnly.{
  write_keywords, denied_exact_funcs, denied_func_prefixes, strip_explain_prefix,
  is_read_only_keyword,
}

-- No write keyword stands alone in the text, and no denied function is called, by name or by prefix.
pub record IsQuiet (upper : Bytes) : Type 0 where
  pub no_keyword :
      All
        (λ kw.
          (p : ℕ)
          → stands_at upper kw p ≡ true
          → free_left upper p ≡ true
          → free_right upper (p + length kw) ≡ false)
        write_keywords
  pub no_call :
      All
        (λ fn.
          (p : ℕ)
          → stands_at upper fn p ≡ true
          → free_left upper p ≡ true
          → call_behind upper (p + length fn) false ≡ false)
        denied_exact_funcs
  pub no_family_call :
      All
        (λ fn.
          (p : ℕ)
          → stands_at upper fn p ≡ true
          → free_left upper p ≡ true
          → call_behind upper (p + length fn) true ≡ false)
        denied_func_prefixes

abbrev all_words : List Bytes → Bool
all_words [] = true
all_words (w ∷ ws) = is_word_bytes w && all_words ws

module _ (upper : Bytes) where
  abbrev has_word : Bytes → Bool
  has_word kw = contains_word upper kw

  abbrev calls : Bool → Bytes → Bool
  calls prefix fn = has_function_call upper fn prefix

abbrev pub starts_query : Bytes → Bool
starts_query upper = has_prefix upper (codes "SELECT") || has_prefix upper (codes "WITH")

-- What the text that is checked is free of, by the keyword in front.
pub record IsReadOnly (upper : Bytes) : Type 0 where
  pub known : (is_read_only_keyword upper || has_prefix upper (codes "EXPLAIN")) ≡ true
  pub query : starts_query upper ≡ true → IsQuiet upper
  pub explained :
      starts_query upper ≡ false
      → has_prefix upper (codes "EXPLAIN") ≡ true
      → (contains_word upper (codes "ANALYZE") ≡ false)
        × (is_read_only_keyword (strip_explain_prefix upper) ≡ true)
        × IsQuiet (strip_explain_prefix upper)
