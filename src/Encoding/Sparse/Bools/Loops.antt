-- ===== src/Encoding/Sparse/Bools/Loops.antt =====
-- The loop of UnsparseBool reads back what was packed (encoding/sparse.go).
use opentrace.Base.{
  ℕ, suc, ◌+◌, ◌/◌, ◌≡◌, refl, ap, List, [], ◌∷◌, Bytes, Bool, true, false, length, map, replicate,
  if◌then◌else◌, Option, none, some,
}
use opentrace.Encoding.Sparse.{set_bits, set_bit, count_present, build_bitmap, is_some}
use opentrace.Encoding.Sparse.Bools.{set_values, read_bools}
use opentrace.Encoding.Sparse.Marks.{Marks, Marks-head, Marks-tail, build_bitmap-Marks}

-- The values that are there.
abbrev pub present_bools : List (Option Bool) → List Bool
present_bools [] = []
present_bools (none ∷ vs) = present_bools vs
present_bools (some v ∷ vs) = v ∷ present_bools vs

set_values-set_bits :
    (idx : ℕ) (bitmap : Bytes) (vs : List (Option Bool))
    → set_values idx bitmap vs ≡ set_bits idx bitmap (present_bools vs)
unfolding set_values set_bits
set_values-set_bits idx bitmap [] = refl
set_values-set_bits idx bitmap (none ∷ vs) = set_values-set_bits idx bitmap vs
set_values-set_bits idx bitmap (some v ∷ vs) =
    set_values-set_bits (idx + 1) (if v then set_bit bitmap idx else bitmap) vs

count_present-present_bools :
    (vs : List (Option Bool)) → count_present (map is_some vs) ≡ length (present_bools vs)
count_present-present_bools [] = refl
count_present-present_bools (none ∷ vs) = count_present-present_bools vs
count_present-present_bools (some v ∷ vs) = ap suc (count_present-present_bools vs)

map_same : (ps : List Bool) → map (λ p. p) ps ≡ ps
map_same [] = refl
map_same (p ∷ ps) = ap (λ t. p ∷ t) (map_same ps)

-- The second bitmap is that of the values that are there.
pub set_values-Marks :
    (vs : List (Option Bool))
    → Marks
        (set_values 0 (replicate ((count_present (map is_some vs) + 7) / 8) 0) vs)
        0
        (present_bools vs)
set_values-Marks vs =
    rw
      (
        set_values-set_bits 0 (replicate ((count_present (map is_some vs) + 7) / 8) 0) vs,
        count_present-present_bools vs,
      )
      (unfold build_bitmap in
        rw (map_same (present_bools vs)) at (build_bitmap-Marks (present_bools vs) (λ p. p)))

-- The loop of UnsparseBool.
pub read_bools-present :
    (nulls values : Bytes) (i idx : ℕ) (vs : List (Option Bool))
    → Marks nulls i (map is_some vs)
    → Marks values idx (present_bools vs)
    → read_bools nulls values i idx (length vs) ≡ vs
unfolding read_bools
read_bools-present nulls values i idx [] m n = refl
read_bools-present nulls values i idx (none ∷ vs) m n =
    rw
      (
        Marks-head nulls i false (map is_some vs) m,
        read_bools-present nulls values (i + 1) idx vs (Marks-tail nulls i false (map is_some vs) m)
            n,
      )
      refl
read_bools-present nulls values i idx (some v ∷ vs) m n =
    rw
      (
        Marks-head nulls i true (map is_some vs) m,
        Marks-head values idx v (present_bools vs) n,
        read_bools-present nulls values (i + 1) (idx + 1) vs
            (Marks-tail nulls i true (map is_some vs) m)
            (Marks-tail values idx v (present_bools vs) n),
      )
      refl
