-- ===== src/Guardrail/ReadOnly.antt =====
-- guardrail/sql_generic.go: ValidateReadOnlyGeneric. strings.ToUpper is a parameter, since it stands on
-- the tables of Unicode.
pub mod Sound
use opentrace.Base.{
  ℕ, zero, suc, List, [], ◌∷◌, Bytes, Bool, true, false, not, ◌&&◌, ◌||◌, length, drop, codes,
  bytes_eq, if◌then◌else◌, Option, none, some, Result, ok, err, ◌>>=◌, ◌>>◌, guard, map_err,
}
use opentrace.Guardrail.Text.{has_prefix, index_of, contains_byte, trim_right, is_ident_byte}
use opentrace.Guardrail.Unicode.{trim_space}
use opentrace.Guardrail.Normalize.{SqlError, normalize_sql, head_is}
use opentrace.Guardrail.Search.{contains_word, contains_word_not_call, has_function_call}

pub data GuardError : Type 0 where
  empty_query no_statement multiple_statements explain_analyze empty_explain : GuardError
  explain_not_select only_select pragma_name pragma_form pragma_not_allowed : GuardError
  malformed : SqlError → GuardError
  write_keyword side_effect : Bytes → GuardError

abbrev pub write_keywords : List Bytes
write_keywords =
    codes "DELETE"
    ∷ codes "UPDATE"
    ∷ codes "DROP"
    ∷ codes "ALTER"
    ∷ codes "CREATE"
    ∷ codes "MERGE"
    ∷ codes "UPSERT"
    ∷ codes "GRANT"
    ∷ codes "REVOKE"
    ∷ codes "ATTACH"
    ∷ codes "DETACH"
    ∷ codes "VACUUM"
    ∷ codes "REINDEX"
    ∷ codes "ANALYZE"
    ∷ codes "CALL"
    ∷ codes "EXEC"
    ∷ codes "EXECUTE"
    ∷ codes "PREPARE"
    ∷ codes "DEALLOCATE"
    ∷ codes "LOCK"
    ∷ codes "UNLOCK"
    ∷ codes "COPY"
    ∷ codes "RENAME"
    ∷ codes "LOAD"
    ∷ codes "IMPORT"
    ∷ codes "RESET"
    ∷ codes "CLUSTER"
    ∷ codes "REFRESH"
    ∷ codes "INTO"
    ∷ codes "OUTFILE"
    ∷ codes "DUMPFILE"
    ∷ []

abbrev pub function_like_write_keywords : List Bytes
function_like_write_keywords = codes "INSERT" ∷ codes "REPLACE" ∷ codes "TRUNCATE" ∷ []

abbrev pub denied_exact_funcs : List Bytes
denied_exact_funcs =
    codes "PG_TERMINATE_BACKEND"
    ∷ codes "PG_CANCEL_BACKEND"
    ∷ codes "PG_RELOAD_CONF"
    ∷ codes "PG_ROTATE_LOGFILE"
    ∷ codes "PG_SWITCH_WAL"
    ∷ codes "PG_SWITCH_XLOG"
    ∷ codes "SETVAL"
    ∷ codes "NEXTVAL"
    ∷ codes "SET_CONFIG"
    ∷ codes "PG_PROMOTE"
    ∷ codes "PG_STAT_FILE"
    ∷ codes "PG_STOP_BACKUP"
    ∷ codes "PG_START_BACKUP"
    ∷ codes "LOAD_FILE"
    ∷ codes "READFILE"
    ∷ codes "WRITEFILE"
    ∷ codes "EDIT"
    ∷ codes "LOAD_EXTENSION"
    ∷ codes "FTS3_TOKENIZER"
    ∷ []

abbrev pub denied_func_prefixes : List Bytes
denied_func_prefixes =
    codes "PG_STAT_RESET"
    ∷ codes "PG_READ_FILE"
    ∷ codes "PG_READ_BINARY_FILE"
    ∷ codes "PG_LS_"
    ∷ codes "LO_"
    ∷ codes "DBLINK"
    ∷ codes "PG_ADVISORY_"
    ∷ codes "PG_CREATE_"
    ∷ codes "PG_DROP_"
    ∷ codes "PG_LOGICAL_"
    ∷ codes "PG_REPLICATION_"
    ∷ codes "PG_WAL"
    ∷ []

-- A loop that returns an error for the first word that the test holds of.
unfoldable pub refuse_any :
    (Bytes → Bool) → (Bytes → GuardError) → List Bytes → Result GuardError (Unit {0})
refuse_any test reason [] = ok tt
refuse_any test reason (w ∷ ws) =
    let rest = refuse_any test reason ws in if test w then err (reason w) else rest

unfoldable pub calls_side_effecting_function : Bytes → Result GuardError (Unit {0})
unfolding refuse_any
calls_side_effecting_function upper = do
  refuse_any (λ fn. has_function_call upper fn false) side_effect denied_exact_funcs
  refuse_any (λ fn. has_function_call upper fn true) side_effect denied_func_prefixes

unfoldable pub check_no_write_anywhere : Bytes → Result GuardError (Unit {0})
unfolding refuse_any
check_no_write_anywhere upper = do
  refuse_any (λ kw. contains_word upper kw) write_keyword write_keywords
  refuse_any (λ kw. contains_word_not_call upper kw) write_keyword function_like_write_keywords
  calls_side_effecting_function upper

-- strings.TrimPrefix
abbrev pub trim_prefix : Bytes → Bytes → Bytes
trim_prefix s p = if has_prefix s p then drop (length p) s else s

abbrev behind_options : Bytes → Option ℕ → Bytes
behind_options inner none = inner
behind_options inner (some close) = trim_space (drop (suc close) inner)

unfoldable pub strip_explain_prefix : Bytes → Bytes
strip_explain_prefix upper =
    let inner = trim_space (trim_prefix upper (codes "EXPLAIN")) in
    if has_prefix inner (codes "(")
    then behind_options inner (index_of inner (codes ")"))
    else inner

unfoldable pub is_read_only_keyword : Bytes → Bool
is_read_only_keyword upper =
    has_prefix upper (codes "SELECT")
    || (has_prefix upper (codes "WITH")
        || (has_prefix upper (codes "SHOW")
            || (has_prefix upper (codes "DESCRIBE")
                || (has_prefix upper (codes "DESC ") || has_prefix upper (codes "PRAGMA")))))

abbrev pub pragma_allows_arg : List Bytes
pragma_allows_arg =
    codes "TABLE_INFO"
    ∷ codes "TABLE_XINFO"
    ∷ codes "TABLE_LIST"
    ∷ codes "INDEX_LIST"
    ∷ codes "INDEX_INFO"
    ∷ codes "INDEX_XINFO"
    ∷ codes "FOREIGN_KEY_LIST"
    ∷ codes "FOREIGN_KEY_CHECK"
    ∷ []

abbrev pub pragma_read_only_scalar : List Bytes
pragma_read_only_scalar =
    codes "DATABASE_LIST"
    ∷ codes "COMPILE_OPTIONS"
    ∷ codes "COLLATION_LIST"
    ∷ codes "JOURNAL_MODE"
    ∷ codes "PAGE_COUNT"
    ∷ codes "PAGE_SIZE"
    ∷ codes "MAX_PAGE_COUNT"
    ∷ codes "FREELIST_COUNT"
    ∷ codes "ENCODING"
    ∷ codes "DATA_VERSION"
    ∷ codes "SCHEMA_VERSION"
    ∷ codes "USER_VERSION"
    ∷ codes "APPLICATION_ID"
    ∷ []

-- A map from names to true.
unfoldable pub is_listed : List Bytes → Bytes → Bool
is_listed [] name = false
is_listed (w ∷ ws) name = bytes_eq w name || is_listed ws name

-- The identifier bytes in front, and what follows them.
unfoldable pub take_ident : Bytes → Bytes × Bytes
take_ident [] = ([], [])
take_ident (b ∷ bs) =
    let (name, rest) = take_ident bs in if is_ident_byte b then (b ∷ name, rest) else ([], b ∷ bs)

-- Each qualifier takes a byte, so the length is fuel enough.
pragma_name_loop : ℕ → Bytes → Bytes × Bytes
pragma_name_loop zero s = take_ident s
pragma_name_loop (suc fuel) s =
    let (name, rest) = take_ident s in
    let qualified = pragma_name_loop fuel (drop 1 rest) in
    if head_is rest b'.' then qualified else (name, rest)

unfoldable pub scan_pragma_name : Bytes → Bytes × Bytes
unfolding pragma_name_loop
scan_pragma_name s = pragma_name_loop (length s) s

abbrev pub is_empty : Bytes → Bool
is_empty [] = true
is_empty (b ∷ bs) = false

unfoldable pub validate_read_only_pragma : Bytes → Result GuardError (Unit {0})
validate_read_only_pragma upper =
    let (name, behind) = scan_pragma_name (trim_space (trim_prefix upper (codes "PRAGMA"))) in
    let after = trim_space behind in
    if is_empty name
    then err pragma_name
    else if is_listed pragma_allows_arg name
    then (if is_empty after || has_prefix after (codes "(") then ok tt else err pragma_form)
    else if is_listed pragma_read_only_scalar name
    then (if is_empty after then ok tt else err pragma_form)
    else err pragma_not_allowed

unfoldable pub validate_explain : Bytes → Result GuardError (Unit {0})
unfolding strip_explain_prefix
validate_explain upper =
    let inner = strip_explain_prefix upper in
    if contains_word upper (codes "ANALYZE")
    then err explain_analyze
    else if is_empty inner
    then err empty_explain
    else if is_read_only_keyword inner
    then check_no_write_anywhere inner
    else err explain_not_select

-- The switch on the keyword in front.
unfoldable pub validate_upper : Bytes → Result GuardError (Unit {0})
validate_upper upper =
    if has_prefix upper (codes "SELECT") || has_prefix upper (codes "WITH")
    then check_no_write_anywhere upper
    else if has_prefix upper (codes "EXPLAIN")
    then validate_explain upper
    else if has_prefix upper (codes "SHOW")
    then ok tt
    else if has_prefix upper (codes "DESCRIBE") || has_prefix upper (codes "DESC ")
    then ok tt
    else if has_prefix upper (codes "PRAGMA")
    then validate_read_only_pragma upper
    else err only_select

module _ (to_upper : Bytes → Bytes) where
  unfoldable pub validate_read_only_generic : Bytes → Result GuardError (Unit {0})
  validate_read_only_generic query = do
    guard (not (is_empty (trim_space query))) empty_query
    normalized ← map_err malformed (normalize_sql query)
    let cleaned = trim_right normalized (codes "; ")
    guard (not (is_empty cleaned)) no_statement
    guard (not (contains_byte cleaned b';')) multiple_statements
    validate_upper (to_upper cleaned)

  abbrev limit_in : Result SqlError Bytes → Bool
  limit_in (err e) = false
  limit_in (ok normalized) = contains_word (to_upper normalized) (codes "LIMIT")

  unfoldable pub has_limit_generic : Bytes → Bool
  has_limit_generic query = limit_in (normalize_sql query)
