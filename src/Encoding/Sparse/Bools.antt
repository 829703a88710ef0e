-- ===== src/Encoding/Sparse/Bools.antt =====
-- encoding/sparse.go: SparseBool and UnsparseBool. A nil pointer is `none`.
pub mod Loops
use opentrace.Base.{
  ℕ, zero, suc, ◌+◌, ◌/◌, List, [], ◌∷◌, Bytes, Bool, replicate, if◌then◌else◌, Option, none, some,
  Result, ok, ◌>>=◌,
}
use opentrace.Encoding.Columns.{ColumnError}
use opentrace.Encoding.Sparse.{
  set_bit, build_bitmap, get_bit, marshal_sparse, unmarshal_sparse, is_some,
}

-- The loop that fills the second bitmap, `idx` values into it.
unfoldable pub set_values : ℕ → Bytes → List (Option Bool) → Bytes
set_values idx bitmap [] = bitmap
set_values idx bitmap (none ∷ vs) = set_values idx bitmap vs
set_values idx bitmap (some v ∷ vs) =
    set_values (idx + 1) (if v then set_bit bitmap idx else bitmap) vs

unfoldable pub sparse_bool : List (Option Bool) → Bytes
sparse_bool values =
    let (null_bitmap, non_null_count) = build_bitmap values is_some in
    marshal_sparse non_null_count null_bitmap
      (set_values 0 (replicate ((non_null_count + 7) / 8) 0) values)

-- The loop of UnsparseBool over `n` values from the place `i` on.
unfoldable pub read_bools : Bytes → Bytes → ℕ → ℕ → ℕ → List (Option Bool)
read_bools null_bitmap value_bitmap i idx zero = []
read_bools null_bitmap value_bitmap i idx (suc n) =
    let after_value = read_bools null_bitmap value_bitmap (i + 1) (idx + 1) n in
    let after_null = read_bools null_bitmap value_bitmap (i + 1) idx n in
    if get_bit null_bitmap i
    then some (get_bit value_bitmap idx) ∷ after_value
    else none ∷ after_null

unfoldable pub unsparse_bool : Bytes → ℕ → Result ColumnError (List (Option Bool))
unsparse_bool block count = do
  (non_null_count, null_bitmap, value_bitmap) ← unmarshal_sparse block
  ok (read_bools null_bitmap value_bitmap 0 0 count)
