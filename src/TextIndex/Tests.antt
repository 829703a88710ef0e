-- ===== src/TextIndex/Tests.antt =====
-- The index of internal/logstore/index on three messages, with ASCII letters.
use opentrace.Base.{
  ℕ, ◌+◌, ◌<◌, ◌≡◌, refl, List, [], ◌∷◌, ◌++◌, replicate, Bytes, ◌&&◌, ◌||◌, leb, map, codes,
  if◌then◌else◌, arith, bytes_eq, get_elem?, true, false, Option, some, none, ok, ◌>>=◌,
}
use opentrace.Encoding.Zstd.Plain.{plain, plain-IsLossless}
use opentrace.Guardrail.Unicode.{decode_rune}
use opentrace.TextIndex.Tokenizer.{
  Letters, tokenize, tokenize_unique, is_seen, fields_func, long_enough,
}
use opentrace.TextIndex.Reader.Postings.{IsPosting}
use opentrace.Encoding.Word.{le_bytes}
use opentrace.Encoding.Varint.{put_uvarint, uvarint_encoding, uvarint_bytes}
use opentrace.Encoding.Zstd.{compress}
use opentrace.TextIndex.Builder.{
  write_postings, posting_deltas, term_table, term_bytes, new_builder, add, sort_terms, index_file,
  text_lt,
}
use opentrace.TextIndex.Builder.Rows.{add_all}
use opentrace.TextIndex.Reader.{open_reader, search_index, intersection}
use opentrace.TextIndex.Reader.Intersect.{IsFrom, has_row, all_have, intersection_lem}
use opentrace.Lru.{new_cache}
use opentrace.TextIndex.Cache.{path_eq, open_all, open_each, open_all-open_each}
use opentrace.TextIndex.Exact.{Fits}
use opentrace.Engine.Query.{
  message_matches_query, row_matches_query, search_index-message_matches_query,
}

abbrev lower_byte : ℕ → ℕ
lower_byte b = if leb b'A' b && leb b b'Z' then b + 32 else b

abbrev ascii : Letters
ascii = record {
  to_lower = λ s. map lower_byte s;
  is_letter = λ r. leb b'a' r && leb r b'z' || leb b'A' r && leb r b'Z';
  is_digit = λ r. leb b'0' r && leb r b'9';
}

abbrev messages : List Bytes
messages = codes "Timeout in api-gateway" ∷ codes "retry: timeout timeout" ∷ codes "api ok" ∷ []

tokens_run :
    tokenize_unique ascii (codes "Retry: a timeout, retry_2!")
    ≡ codes "retry" ∷ codes "timeout" ∷ codes "retry_2" ∷ []
unfolding tokenize_unique long_enough fields_func decode_rune bytes_eq
tokens_run = refl

intersection_lem_example :
    IsFrom 0 (intersection ((0 ∷ 2 ∷ 5 ∷ []) ∷ (2 ∷ 3 ∷ 5 ∷ []) ∷ []))
    × ((k : ℕ)
        → has_row (intersection ((0 ∷ 2 ∷ 5 ∷ []) ∷ (2 ∷ 3 ∷ 5 ∷ []) ∷ [])) k
          ≡ all_have ((0 ∷ 2 ∷ 5 ∷ []) ∷ (2 ∷ 3 ∷ 5 ∷ []) ∷ []) k)
unfolding IsFrom
intersection_lem_example =
    intersection_lem (0 ∷ 2 ∷ 5 ∷ []) ((2 ∷ 3 ∷ 5 ∷ []) ∷ [])
      (omega arith, (omega arith, (omega arith, tt)))
      ((omega arith, (omega arith, (omega arith, tt))), tt)

abbrev message_terms : List (Bytes × List ℕ)
message_terms =
    (codes "api", 2 ∷ [])
    ∷ (codes "api-gateway", 0 ∷ [])
    ∷ (codes "in", 0 ∷ [])
    ∷ (codes "ok", 2 ∷ [])
    ∷ (codes "retry", 1 ∷ [])
    ∷ (codes "timeout", 0 ∷ 1 ∷ [])
    ∷ []

messages_run : sort_terms (add_all ascii 0 messages new_builder).terms ≡ message_terms
unfolding sort_terms add tokenize_unique long_enough fields_func decode_rune bytes_eq new_builder
    text_lt
messages_run = refl

small-IsPosting : (r : ℕ) → r < 3 → IsPosting (r ∷ [])
small-IsPosting r h = record { words = (omega arith, tt); few = omega arith }

message_terms-Fits : Fits plain 3 message_terms
unfolding write_postings posting_deltas put_uvarint uvarint_encoding uvarint_bytes term_table
    term_bytes le_bytes compress
message_terms-Fits = record {
  count = omega arith;
  few = omega arith;
  short =
      (omega arith, (omega arith, (omega arith, (omega arith, (omega arith, (omega arith, tt))))));
  postings = (
    small-IsPosting 2 (omega arith),
    (
      small-IsPosting 0 (omega arith),
      (
        small-IsPosting 0 (omega arith),
        (
          small-IsPosting 2 (omega arith),
          (
            small-IsPosting 1 (omega arith),
            (record { words = (omega arith, (omega arith, tt)); few = omega arith }, tt),
          ),
        ),
      ),
    ),
  );
  table = omega arith;
  total = omega arith;
}

messages-Fits : Fits plain 3 (sort_terms (add_all ascii 0 messages new_builder).terms)
messages-Fits = rw messages_run message_terms-Fits

search_index-message_matches_query_example :
    (rows : List ℕ) × ((do
      r ← open_reader (index_file plain 3 (add_all ascii 0 messages new_builder))
      search_index plain ascii r (codes "retry TIMEOUT"))
      ≡ ok rows)
    × IsFrom 0 rows
    × ((k : ℕ)
        → has_row rows k ≡ row_matches_query ascii (get_elem? messages k) (codes "retry TIMEOUT"))
search_index-message_matches_query_example =
    search_index-message_matches_query ascii plain plain-IsLossless messages (codes "retry TIMEOUT")
      3 messages-Fits

message_matches_query_run :
    map (λ m. message_matches_query ascii m (codes "retry TIMEOUT")) messages
    ≡ false ∷ true ∷ false ∷ []
unfolding message_matches_query tokenize tokenize_unique long_enough fields_func decode_rune
    bytes_eq is_seen
message_matches_query_run = refl

abbrev one_file : Bytes → Option Bytes
one_file path =
    if bytes_eq path (codes "empty.idx") then some (codes "OTIX" ++ replicate 12 0) else none

open_all-open_each_example :
    open_all one_file
      (λ path. some 16)
      (codes "empty.idx" ∷ codes "a.idx" ∷ codes "empty.idx" ∷ [])
      (new_cache 4096)
    ≡ open_each one_file
        (λ path. some 16)
        (codes "empty.idx" ∷ codes "a.idx" ∷ codes "empty.idx" ∷ [])
open_all-open_each_example =
    open_all-open_each one_file (λ path. some 16)
      (codes "empty.idx" ∷ codes "a.idx" ∷ codes "empty.idx" ∷ []) 4096
