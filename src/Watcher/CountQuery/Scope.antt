-- ===== src/Watcher/CountQuery/Scope.antt =====
-- What an accepted query filter of a count condition can ask for (internal/watcher/watch_helpers.go).
use opentrace.Base.{
  ◌≡◌, ◌⊎◌, inl, inr, refl, sym, ap, arith, List, [], ◌∷◌, Bytes, codes, bytes_eq, bytes_eq-eq, All,
  Bool, true, false, not, ◌&&◌, Option, none, some, err, ok, bind-ok, Bool-cases,
}
use opentrace.Guardrail.Unicode.{is_space, trim_space}
use opentrace.TextIndex.Tokenizer.{fields_func, is_seen}
use opentrace.Watcher.Store.{CountParams, invalid_config}
use opentrace.Watcher.CountQuery.{
  Texts, CountQueryFilter, no_filter, watch_query_levels, level_lookup, cut_colon, non_empty,
  apply_filter, normalize_query_level, set_level, set_service, parse_field, parse_cut, parse_terms,
  parse_count_query,
}

-- The levels that the log store holds.
abbrev pub stored_levels : List Bytes
stored_levels = codes "debug" ∷ codes "info" ∷ codes "warn" ∷ codes "error" ∷ codes "fatal" ∷ []

level_lookup-stored :
    (levels : List (Bytes × Bytes)) (level canonical : Bytes)
    → All (λ p. is_seen stored_levels p.1 ≡ true) levels
    → level_lookup levels level ≡ some canonical
    → is_seen stored_levels canonical ≡ true
unfolding level_lookup
level_lookup-stored [] level canonical h e = absurd cc
level_lookup-stored ((name, c) ∷ levels) level canonical h e =
    elim (Bool-cases (bytes_eq name level)) [
      | inl same ↦
          let eq : some c ≡ some canonical = rw same at e in
          let eq' : c ≡ canonical = cc in rw (sym eq') (h.0)
      | inr other ↦ level_lookup-stored levels level canonical h.1 (rw other at e)
    ]

watch_query_levels-stored : All (λ p. is_seen stored_levels p.1 ≡ true) watch_query_levels
unfolding is_seen bytes_eq
watch_query_levels-stored = (refl, (refl, (refl, (refl, (refl, (refl, tt))))))

non_empty-false : (s : Bytes) → non_empty s ≡ false → s ≡ []
non_empty-false [] h = refl
non_empty-false (b ∷ bs) h = absurd cc

module _ (t : Texts) (cond_service : Bytes) where
  -- `field:value` with a value, where the field is `level` or `service`.
  abbrev pub Supported : Bytes → Type 0
  Supported term =
      (key : Bytes) × (value : Bytes) × (cut_colon term ≡ some (key, value))
      × (non_empty value ≡ true)
      × ((t.to_lower key ≡ codes "level") ⊎ (t.to_lower key ≡ codes "service"))

  -- A filter by a level that is stored, and by no other service than the condition's.
  abbrev pub InScope : CountQueryFilter → Type 0
  InScope g =
      ((g.level ≡ []) ⊎ (is_seen stored_levels g.level ≡ true))
      × ((cond_service ≡ []) ⊎ (g.service ≡ []) ⊎ (t.equal_fold cond_service g.service ≡ true))

  abbrev pub cut_names_level : Option (Bytes × Bytes) → Bool
  cut_names_level none = false
  cut_names_level (some (key, value)) = bytes_eq (t.to_lower key) (codes "level")

  abbrev pub has_stored_level : CountQueryFilter → Bool
  has_stored_level g = is_seen stored_levels g.level

  -- What one term does to the filter.
  abbrev Kept : CountQueryFilter → CountQueryFilter → Bool → Type 0
  Kept f g by_level =
      InScope g
      × ((has_stored_level f && not (has_stored_level g)) ≡ false)
      × ((by_level && not (has_stored_level g)) ≡ false)

  set_level-Kept :
      (f g : CountQueryFilter) (found : Option Bytes) (by_level : Bool)
      → ((c : Bytes) → found ≡ some c → is_seen stored_levels c ≡ true)
      → InScope f
      → set_level t f found ≡ ok g
      → Kept f g by_level
  set_level-Kept f g none by_level stored h e = absurd cc
  set_level-Kept f g (some c) by_level stored h e =
      let same : record f { level = c } ≡ g = cc in
      let same_level : c ≡ g.level = ap (λ (x : CountQueryFilter). x.level) same in
      let same_service : f.service ≡ g.service = ap (λ (x : CountQueryFilter). x.service) same in
      let level : is_seen stored_levels g.level ≡ true = rw same_level at (stored c refl) in
      ((inr level, rw same_service at h.1), ground (arith, level), ground (arith, level))

  abbrev other_service : Bytes → Bool
  other_service value = non_empty cond_service && not (t.equal_fold cond_service value)

  service_free :
      (value : Bytes)
      → other_service value ≡ false
      → (cond_service ≡ []) ⊎ (value ≡ []) ⊎ (t.equal_fold cond_service value ≡ true)
  service_free value h = elim (Bool-cases (non_empty cond_service)) [
    | inl some_service ↦ inr (inr (ground arith))
    | inr no_service ↦ inl (non_empty-false cond_service no_service)
  ]

  set_service-Kept :
      (f g : CountQueryFilter) (value : Bytes)
      → InScope f
      → set_service t cond_service f value ≡ ok g
      → Kept f g false
  set_service-Kept f g value h e = elim (Bool-cases (other_service value)) [
    | inl other ↦ absurd (let bad : err invalid_config ≡ ok g = rw other at e in cc)
    | inr other ↦
        let same : record f { service = value } ≡ g = cc in
        let same_level : f.level ≡ g.level = ap (λ (x : CountQueryFilter). x.level) same in
        let same_service : value ≡ g.service = ap (λ (x : CountQueryFilter). x.service) same in
        (
          (rw same_level at h.0, rw same_service at (service_free value other)),
          rw (sym same_level) (ground arith),
          refl,
        )
  ]

  parse_field-Kept :
      (f g : CountQueryFilter) (key value : Bytes)
      → InScope f
      → parse_field t cond_service f key value ≡ ok g
      → Kept f g (bytes_eq (t.to_lower key) (codes "level"))
        × ((t.to_lower key ≡ codes "level") ⊎ (t.to_lower key ≡ codes "service"))
  unfolding parse_field normalize_query_level
  parse_field-Kept f g key value h e =
      elim (Bool-cases (bytes_eq (t.to_lower key) (codes "level"))) [
        | inl lev ↦ (
          set_level-Kept f g (normalize_query_level t value)
              (bytes_eq (t.to_lower key) (codes "level"))
              (λ c eq.
                level_lookup-stored watch_query_levels (t.to_lower (trim_space value)) c
                  watch_query_levels-stored eq)
              h (rw lev at e),
          inl (bytes_eq-eq (t.to_lower key) (codes "level") lev),
        )
        | inr lev ↦ elim (Bool-cases (bytes_eq (t.to_lower key) (codes "service"))) [
          | inl serv ↦ (
            rw lev (set_service-Kept f g value h (rw (lev, serv) at e)),
            inr (bytes_eq-eq (t.to_lower key) (codes "service") serv),
          )
          | inr serv ↦ absurd (let bad : err invalid_config ≡ ok g = rw (lev, serv) at e in cc)
        ]
      ]

  parse_cut-Kept :
      (f g : CountQueryFilter) (term : Bytes) (cut : Option (Bytes × Bytes))
      → cut_colon term ≡ cut
      → InScope f
      → parse_cut t cond_service f cut ≡ ok g
      → Kept f g (cut_names_level cut) × Supported term
  unfolding parse_cut
  parse_cut-Kept f g term none c h e = absurd cc
  parse_cut-Kept f g term (some (key, [])) c h e = absurd cc
  parse_cut-Kept f g term (some (key, b ∷ bs)) c h e =
      let (kept, named) = parse_field-Kept f g key (b ∷ bs) h e in
      (kept, (key, b ∷ bs, c, refl, named))

  -- Every term is supported, and one that names a level has set a level.
  abbrev pub AllSupported : CountQueryFilter → List Bytes → Type 0
  AllSupported g terms =
      All
        (λ term.
          Supported term × ((cut_names_level (cut_colon term) && not (has_stored_level g)) ≡ false))
        terms

  parse_terms-Parsed :
      (f g : CountQueryFilter) (terms : List Bytes)
      → InScope f
      → parse_terms t cond_service f terms ≡ ok g
      → InScope g
        × ((has_stored_level f && not (has_stored_level g)) ≡ false)
        × AllSupported g terms
  unfolding parse_terms
  parse_terms-Parsed f g [] h e =
      let same : f ≡ g = cc in (rw same at h, rw same (ground arith), tt)
  parse_terms-Parsed f g (term ∷ terms) h e =
      let (f', cut, rest) =
        bind-ok (parse_cut t cond_service f (cut_colon term))
          (λ f'. parse_terms t cond_service f' terms) e in
      let ((scoped, kept, named), supported) =
        parse_cut-Kept f f' term (cut_colon term) refl h cut in
      let (scoped', kept', all) = parse_terms-Parsed f' g terms scoped rest in
      (scoped', ground arith, ((supported, ground arith), all))

-- Where a count query is accepted: every term of it is level or service with a value; the level of
-- the filter is none or one that the store holds, and it is one if a term names a level; the
-- service is none, or equal but for case to that of the condition if it has one; and the filter
-- leaves the environment and the times of the parameters as they are.
pub parse_count_query-InScope :
    (t : Texts) (query cond_service : Bytes) (g : CountQueryFilter) (p : CountParams)
    → parse_count_query t query cond_service ≡ ok g
    → InScope t cond_service g
      × AllSupported t cond_service g (fields_func is_space query)
      × ((apply_filter g p).environment ≡ p.environment)
      × ((apply_filter g p).since ≡ p.since)
      × ((apply_filter g p).until ≡ p.until)
unfolding parse_count_query apply_filter
parse_count_query-InScope t query cond_service g p e =
    let (scoped, kept, all) =
      parse_terms-Parsed t cond_service no_filter g (fields_func is_space query)
        (inl refl, inr (inl refl)) e in
    (scoped, all, refl, refl, refl)
