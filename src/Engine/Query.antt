-- ===== src/Engine/Query.antt =====
-- engine/query.go: messageMatchesQuery, the test that rows outside a sealed segment are searched by.
use opentrace.Base.{
  ℕ, ◌≡◌, refl, ◌∙◌, List, [], ◌∷◌, Bytes, Bool, true, false, get_elem?, Option, none, some, ok,
  ◌>>=◌, sym, arith, if◌then◌else◌,
}
use opentrace.Encoding.Zstd.{Zstd, IsLossless}
use opentrace.TextIndex.Tokenizer.{Letters, is_seen, tokenize, tokenize_unique}
use opentrace.TextIndex.Builder.{new_builder, sort_terms, index_file}
use opentrace.TextIndex.Builder.Rows.{add_all}
use opentrace.TextIndex.Reader.{open_reader, search_index}
use opentrace.TextIndex.Reader.Intersect.{IsFrom, has_row}
use opentrace.TextIndex.Exact.{Fits, has_tokens, answers_query, search_index-index_file}

-- The loop over the query's tokens.
abbrev pub have_all : List Bytes → List Bytes → Bool
have_all have [] = true
have_all have (t ∷ ts) = if is_seen have t then have_all have ts else false

-- A query without tokens matches nothing.
abbrev pub have_tokens : List Bytes → List Bytes → Bool
have_tokens have [] = false
have_tokens have (t ∷ ts) = have_all have (t ∷ ts)

module _ (l : Letters) where
  unfoldable pub message_matches_query : Bytes → Bytes → Bool
  message_matches_query message query = have_tokens (tokenize l message) (tokenize_unique l query)

  -- The same for the message of a row that may not be there.
  abbrev pub row_matches_query : Option Bytes → Bytes → Bool
  row_matches_query none query = false
  row_matches_query (some m) query = message_matches_query m query

  have_all-has_tokens :
      (m : Bytes) (ts : List Bytes) → have_all (tokenize l m) ts ≡ has_tokens l ts (some m)
  have_all-has_tokens m [] = refl
  have_all-has_tokens m (t ∷ ts) = let rest = have_all-has_tokens m ts in ground arith

  answers_query-row_matches :
      (ts : List Bytes) (m : Option Bytes) (query : Bytes)
      → tokenize_unique l query ≡ ts
      → answers_query l ts m ≡ row_matches_query m query
  unfolding message_matches_query
  answers_query-row_matches [] none query h = refl
  answers_query-row_matches [] (some m) query h = rw h refl
  answers_query-row_matches (t ∷ ts) none query h = refl
  answers_query-row_matches (t ∷ ts) (some m) query h = rw h (sym (have_all-has_tokens m (t ∷ ts)))

  module _ (z : Zstd) (lossless : IsLossless z) where
    -- For a lossless zstd library and any tables of letters, messages and query, where the entry
    -- count and the terms of the index fit the fields of its format: opening the bytes that Write
    -- writes and searching them succeeds, and the rows found are ascending and are exactly those
    -- whose message the engine answers with messageMatchesQuery, by which it searches the rows
    -- outside a sealed segment.
    pub search_index-message_matches_query :
        (ms : List Bytes) (query : Bytes) (entry_count : ℕ)
        → Fits z entry_count (sort_terms (add_all l 0 ms new_builder).terms)
        → (rows : List ℕ) × ((do
          r ← open_reader (index_file z entry_count (add_all l 0 ms new_builder))
          search_index z l r query)
            ≡ ok rows)
          × IsFrom 0 rows
          × ((k : ℕ) → has_row rows k ≡ row_matches_query (get_elem? ms k) query)
    search_index-message_matches_query ms query entry_count f =
        let (rows, found, ascending, same) =
          search_index-index_file z lossless l ms query entry_count f in
        (
          rows,
          found,
          ascending,
          λ k.
              same k
              ∙ answers_query-row_matches (tokenize_unique l query) (get_elem? ms k) query refl,
        )
