-- ===== src/Guardrail/Tests.antt =====
-- The guardrail of internal/guardrail on concrete statements, with strings.ToUpper on ASCII.
use opentrace.Base.{
  length, ◌∷◌, [], ◌⊎◌, ◌++◌, ℕ, ◌+◌, ◌-◌, ◌≡◌, ◌↔◌, refl, Bytes, true, codes, leb, ◌&&◌,
  if◌then◌else◌, map, arith, ok, err,
}
use opentrace.Guardrail.Text.{is_ident_byte}
use opentrace.Guardrail.Normalize.{normalize_loop, normalize_sql, unterminated_quote}
use opentrace.Guardrail.Normalize.Fuel.{normalize_loop-fuel}
use opentrace.Guardrail.Normalize.Literals.{normalize_sql_lem}
use opentrace.Guardrail.Search.{free_left, free_right, contains_word, has_function_call}
use opentrace.Guardrail.Search.Places.{stands_at}
use opentrace.Guardrail.Search.Calls.{AllIdent, AllSpace, has_function_call_lem}
use opentrace.Guardrail.Search.Words.{contains_word_lem, is_word_bytes, is_word_bytes-IsWordBytes}
use opentrace.Guardrail.ReadOnly.{
  validate_read_only_generic, write_keyword, side_effect, multiple_statements, malformed,
}

abbrev upper_byte : ℕ → ℕ
upper_byte b = if leb b'a' b && leb b b'z' then b - 32 else b

abbrev to_upper : Bytes → Bytes
to_upper s = map upper_byte s

abbrev literal_query : Bytes
literal_query = codes "select id from t where a = 'x'"

abbrev ValidateLines : Type 0
ValidateLines =
    (validate_read_only_generic to_upper literal_query ≡ ok tt)
    × (validate_read_only_generic to_upper (codes "SELECT pg_terminate_backend/**/(1)")
        ≡ err (side_effect (codes "PG_TERMINATE_BACKEND")))
    × (validate_read_only_generic to_upper (codes "WITH x AS (SELECT 1) DELETE FROM t")
        ≡ err (write_keyword (codes "DELETE")))
    × (validate_read_only_generic to_upper (codes "SELECT replace(a, 'b', 'c') FROM t") ≡ ok tt)
    × (validate_read_only_generic to_upper (codes "SELECT 1; SELECT 2") ≡ err multiple_statements)
    × (validate_read_only_generic to_upper (codes "SELECT 'abc")
        ≡ err (malformed unterminated_quote))
    × (validate_read_only_generic to_upper (codes "PRAGMA main.user_version") ≡ ok tt)
    × (validate_read_only_generic to_upper (codes "EXPLAIN (FORMAT JSON) SELECT $$;$$ -- x")
        ≡ ok tt)
    -- A line comment of MySQL, which starts with a hash, is kept.
    × (validate_read_only_generic to_upper (codes "SELECT LOAD_FILE#\n('/f')") ≡ ok tt)
    -- The text of a versioned comment is not normalised in its turn.
    × (validate_read_only_generic to_upper (codes "SELECT 1 /*!, LOAD_FILE/**/('/f') */") ≡ ok tt)

abbrev cte_delete : Bytes
cte_delete = codes "WITH X AS (SELECT 1) DELETE FROM T"

contains_word_lem_example : (contains_word cte_delete (codes "DELETE") ≡ true) ↔ (
    (p : ℕ) × (stands_at cte_delete (codes "DELETE") p ≡ true)
    × (free_left cte_delete p ≡ true)
    × (free_right cte_delete (p + 6) ≡ true))
unfolding is_word_bytes is_ident_byte
contains_word_lem_example =
    contains_word_lem cte_delete (codes "DELETE") (is_word_bytes-IsWordBytes (codes "DELETE") refl)

abbrev export_call : Bytes
export_call = codes "SELECT LO_EXPORT (1)"

has_function_call_lem_example : (has_function_call export_call (codes "LO_") true ≡ true) ↔ (
    (front : Bytes) × (more : Bytes) × (gap : Bytes) × (back : Bytes) × (export_call
      ≡ front ++ (codes "LO_" ++ (more ++ (gap ++ (b'(' ∷ back)))))
    × (free_left export_call (length front) ≡ true)
    × AllIdent more
    × AllSpace gap
    × ((true ≡ true) ⊎ (more ≡ [])))
unfolding is_word_bytes is_ident_byte
has_function_call_lem_example =
    has_function_call_lem export_call (codes "LO_") true
      (is_word_bytes-IsWordBytes (codes "LO_") refl)

normalize_loop-fuel_example : normalize_loop 31 literal_query ≡ normalize_loop 1000 literal_query
normalize_loop-fuel_example = normalize_loop-fuel 31 1000 literal_query (omega arith) (omega arith)

normalize_sql_lem_example :
    normalize_sql (codes "a = 'x' OR b") ≡ normalize_sql (codes "a = '; DROP' OR b")
normalize_sql_lem_example =
    normalize_sql_lem (codes "a = ") (codes "x") (codes "; DROP") (codes " OR b")
      (refl, (refl, (refl, (refl, tt)))) (refl, tt)
      (refl, (refl, (refl, (refl, (refl, (refl, tt)))))) refl
