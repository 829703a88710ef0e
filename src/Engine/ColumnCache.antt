-- ===== src/Engine/ColumnCache.antt =====
-- engine/colcache.go: the cache of decoded columns, its keys and the estimates of sizes. A nil
-- *columnCache is `none`.
use opentrace.Base.{
  ℕ, ◌+◌, ◌*◌, ◌/◌, ◌≡◌, ◌↔◌, refl, List, [], ◌∷◌, Bytes, Bool, true, ◌&&◌, Option, none, some,
  length, take, min, ltb, if◌then◌else◌, bytes_eq, bytes_eq_iff, bytes_eq_refl, arith,
}
use opentrace.Lru.{Eq, Cache, new_cache, get, put, stats}

pub record ColumnKey : Type 0 where
  pub chunk_path : Bytes
  pub column : Bytes

abbrev pub same_column : ColumnKey → ColumnKey → Bool
same_column a b = bytes_eq a.chunk_path b.chunk_path && bytes_eq a.column b.column

pub same_column_iff : (a b : ColumnKey) → (same_column a b ≡ true) ↔ (a ≡ b)
same_column_iff a b = (
  λ h.
      let path : a.chunk_path ≡ b.chunk_path =
        (bytes_eq_iff a.chunk_path b.chunk_path).0 (ground arith) in
      let name : a.column ≡ b.column = (bytes_eq_iff a.column b.column).0 (ground arith) in
      λ i. record { chunk_path = path i; column = name i },
  λ h. rw (h, bytes_eq_refl b.chunk_path, bytes_eq_refl b.column) refl,
)

instance abbrev pub column_key_eq : Eq ColumnKey
column_key_eq = record { same = same_column; same_iff = same_column_iff }

abbrev max_column_share_of_budget : ℕ
max_column_share_of_budget = 4

abbrev pub default_column_cache_bytes : ℕ
default_column_cache_bytes = 67108864

module _ {V : Type 0} where
  unfoldable pub new_column_cache : ℕ → Option (Cache ColumnKey V)
  new_column_cache budget = new_cache budget

  unfoldable pub get_column :
      ColumnKey → Option (Cache ColumnKey V) → Option V × Option (Cache ColumnKey V)
  get_column key none = (none, none)
  get_column key (some c) = let (v, c') = get key c in (v, some c')

  unfoldable pub put_column :
      ColumnKey → V → ℕ → Option (Cache ColumnKey V) → Option (Cache ColumnKey V)
  put_column key value size none = none
  put_column key value size (some c) = some (put max_column_share_of_budget key value size c)

  unfoldable pub column_stats : Option (Cache ColumnKey V) → ℕ × ℕ
  column_stats none = (0, 0)
  column_stats (some c) = stats c

abbrev slice_header_bytes : ℕ
slice_header_bytes = 24

abbrev pointer_bytes : ℕ
pointer_bytes = 8

abbrev int64_bytes : ℕ
int64_bytes = 8

abbrev per_entry_overhead : ℕ
per_entry_overhead = 48

abbrev string_sample_limit : ℕ
string_sample_limit = 512

abbrev total_length : List Bytes → ℕ
total_length [] = 0
total_length (s ∷ ss) = length s + total_length ss

-- `bytes` for each pointer that is not nil
abbrev present_bytes : {A : Type 0} → ℕ → List (Option A) → ℕ
present_bytes bytes [] = 0
present_bytes bytes (none ∷ ps) = present_bytes bytes ps
present_bytes bytes (some a ∷ ps) = bytes + present_bytes bytes ps

unfoldable pub size_of_int64s : List ℕ → ℕ
size_of_int64s v = length v * int64_bytes + per_entry_overhead

unfoldable pub size_of_strings : List Bytes → ℕ
size_of_strings v =
    let n = min (length v) string_sample_limit in
    length v * slice_header_bytes
    + (if ltb 0 n then total_length (take n v) / n * length v else 0)
    + per_entry_overhead

unfoldable pub size_of_opt_int64s : List (Option ℕ) → ℕ
size_of_opt_int64s v = length v * pointer_bytes + present_bytes int64_bytes v + per_entry_overhead

unfoldable pub size_of_blobs : List Bytes → ℕ
size_of_blobs v = length v * slice_header_bytes + total_length v + per_entry_overhead

unfoldable pub size_of_bools : List (Option Bool) → ℕ
size_of_bools v = length v * pointer_bytes + present_bytes 1 v + per_entry_overhead
