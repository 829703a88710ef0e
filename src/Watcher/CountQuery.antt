-- ===== src/Watcher/CountQuery.antt =====
-- watch_helpers.go: the `query` filter of a count condition.
pub mod Scope
use opentrace.Base.{
  ℕ, ◌≡◌, ◌≢◌, ◌⊎◌, inl, inr, refl, arith, List, [], ◌∷◌, ◌++◌, Bytes, codes, bytes_eq, All, Bool,
  true, false, not, ◌&&◌, ◌||◌, ◌==◌, Option, none, some, Result, err, ok, ◌>>=◌, if◌then◌else◌,
  Bool-cases,
}
use opentrace.Guardrail.Unicode.{is_space, trim_space}
use opentrace.TextIndex.Tokenizer.{fields_func}
use opentrace.Watcher.Store.{CountParams, Trouble, invalid_config}

-- What the code uses of package strings.
pub record Texts : Type 0 where
  pub to_lower : Bytes → Bytes
  pub equal_fold : Bytes → Bytes → Bool

pub record CountQueryFilter : Type 0 where
  pub level : Bytes
  pub service : Bytes

abbrev pub no_filter : CountQueryFilter
no_filter = record { level = []; service = [] }

abbrev pub watch_query_levels : List (Bytes × Bytes)
watch_query_levels =
    (codes "debug", codes "debug")
    ∷ (codes "info", codes "info")
    ∷ (codes "warn", codes "warn")
    ∷ (codes "warning", codes "warn")
    ∷ (codes "error", codes "error")
    ∷ (codes "fatal", codes "fatal")
    ∷ []

unfoldable pub level_lookup : List (Bytes × Bytes) → Bytes → Option Bytes
level_lookup [] level = none
level_lookup ((name, canonical) ∷ levels) level =
    if bytes_eq name level then some canonical else level_lookup levels level

-- strings.Cut at the first ':'.
abbrev pub before_cut : ℕ → Option (Bytes × Bytes) → Option (Bytes × Bytes)
before_cut b none = none
before_cut b (some (key, value)) = some (b ∷ key, value)

unfoldable pub cut_colon : Bytes → Option (Bytes × Bytes)
cut_colon [] = none
cut_colon (b ∷ bs) = if b == b':' then some ([], bs) else before_cut b (cut_colon bs)

abbrev pub non_empty : Bytes → Bool
non_empty [] = false
non_empty (b ∷ bs) = true

-- countQueryFilter.apply
unfoldable pub apply_filter : CountQueryFilter → CountParams → CountParams
apply_filter f p = record p {
  level = if non_empty f.level then f.level else p.level;
  service = if non_empty f.service then f.service else p.service;
}

module _ (t : Texts) where
  unfoldable pub normalize_query_level : Bytes → Option Bytes
  normalize_query_level level = level_lookup watch_query_levels (t.to_lower (trim_space level))

  abbrev pub set_level : CountQueryFilter → Option Bytes → Result Trouble CountQueryFilter
  set_level f none = err invalid_config
  set_level f (some canonical) = ok (record f { level = canonical })

  abbrev pub set_service : Bytes → CountQueryFilter → Bytes → Result Trouble CountQueryFilter
  set_service cond_service f value =
      if non_empty cond_service && not (t.equal_fold cond_service value)
      then err invalid_config
      else ok (record f { service = value })

  -- The `env` case of the switch and its default are the same error.
  unfoldable pub parse_field :
      Bytes → CountQueryFilter → Bytes → Bytes → Result Trouble CountQueryFilter
  parse_field cond_service f key value =
      if bytes_eq (t.to_lower key) (codes "level")
      then set_level f (normalize_query_level value)
      else if bytes_eq (t.to_lower key) (codes "service")
      then set_service cond_service f value
      else err invalid_config

  unfoldable pub parse_cut :
      Bytes → CountQueryFilter → Option (Bytes × Bytes) → Result Trouble CountQueryFilter
  parse_cut cond_service f none = err invalid_config
  parse_cut cond_service f (some (key, [])) = err invalid_config
  parse_cut cond_service f (some (key, b ∷ bs)) = parse_field cond_service f key (b ∷ bs)

  unfoldable pub parse_terms :
      Bytes → CountQueryFilter → List Bytes → Result Trouble CountQueryFilter
  parse_terms cond_service f [] = ok f
  parse_terms cond_service f (term ∷ terms) = do
    g ← parse_cut cond_service f (cut_colon term)
    parse_terms cond_service g terms

  unfoldable pub parse_count_query : Bytes → Bytes → Result Trouble CountQueryFilter
  parse_count_query query cond_service =
      parse_terms cond_service no_filter (fields_func is_space query)
