-- ===== src/Encoding/Sparse/Bitmap.antt =====
-- The bits of a bitmap are those of the values that are there (encoding/sparse.go).
use opentrace.Base.{
  ℕ, zero, suc, ◌+◌, ◌*◌, ◌/◌, ◌%◌, ◌^◌, ◌≤◌, ◌<◌, ◌≡◌, refl, sym, ap, ◌∙◌, ◌⊎◌, inl, inr, List, [],
  ◌∷◌, Bytes, Bool, true, false, ◌&&◌, length, map, replicate, get_or, set, bit_or, ltb, ◌==◌,
  if◌then◌else◌, length-set, length-replicate, length-map, arith,
}
use native.Mathlib.Nat.{zero-add}
use opentrace.Base.Bits.{
  bit_at, bit_at-lt, bit_at_zero, bit_at-bit_or, bit_at-two_pow, bit_and-two_pow, one-le-two_pow,
}
use opentrace.Encoding.Sparse.{set_bit, set_bits, build_bitmap, get_bit}

eq_or_ne : (m n : ℕ) → (m ≡ n) ⊎ ((m == n) ≡ false)
eq_or_ne m n = ground arith

get_or-set :
    (xs : Bytes) (i j v : ℕ)
    → i < length xs
    → get_or (set xs i v) j 0 ≡ (if i == j then v else get_or xs j 0)
get_or-set [] i j v h = absurd (omega arith)
get_or-set (x ∷ xs) zero zero v h = refl
get_or-set (x ∷ xs) zero (suc j) v h = ground arith
get_or-set (x ∷ xs) (suc i) zero v h = ground arith
get_or-set (x ∷ xs) (suc i) (suc j) v h = ground (arith, get_or-set xs i j v)

get_bit-bit_at :
    (bitmap : Bytes) (i : ℕ)
    → get_bit bitmap i
      ≡ (ltb (i / 8) (length bitmap) && (bit_at (i % 8) (get_or bitmap (i / 8) 0) == 1))
unfolding get_bit
get_bit-bit_at bitmap i =
    let w = get_or bitmap (i / 8) 0 in
    rw bit_and-two_pow (ground (arith, bit_at-lt (i % 8) w, one-le-two_pow (i % 8)))

length-set_bit : (bitmap : Bytes) (i : ℕ) → length (set_bit bitmap i) ≡ length bitmap
unfolding set_bit
length-set_bit bitmap i = length-set bitmap (i / 8) _

-- Setting a bit changes that bit alone.
get_bit-set_bit :
    (bitmap : Bytes) (i j : ℕ)
    → i / 8 < length bitmap
    → get_bit (set_bit bitmap i) j ≡ (if i == j then true else get_bit bitmap j)
get_bit-set_bit bitmap i j h =
    rw (get_bit-bit_at (set_bit bitmap i) j, get_bit-bit_at bitmap j, length-set_bit bitmap i)
      (unfold set_bit in
        rw (get_or-set bitmap (i / 8) (j / 8) (bit_or (get_or bitmap (i / 8) 0) (2 ^ (i % 8))) h)
          (elim (eq_or_ne (i / 8) (j / 8)) [
            | inl same ↦
                let e : i / 8 ≡ j / 8 = same in
                ground (
                  arith,
                  ap (λ (k : ℕ). get_or bitmap k 0) e,
                  bit_at-bit_or (j % 8) (get_or bitmap (i / 8) 0) (2 ^ (i % 8)),
                  bit_at-two_pow (j % 8) (i % 8),
                  bit_at-lt (j % 8) (get_or bitmap (j / 8) 0),
                )
            | inr other ↦ ground (arith, other)
          ]))

-- Whether the bit `j` is set for one of the values from the place `i` on.
abbrev marked : ℕ → List Bool → ℕ → Bool
marked i [] j = false
marked i (p ∷ ps) j =
    let rest = marked (i + 1) ps j in if i == j then (if p then true else rest) else rest

get_bit-set_bits :
    (ps : List Bool) (i : ℕ) (bitmap : Bytes) (j : ℕ)
    → i + length ps ≤ 8 * length bitmap
    → get_bit (set_bits i bitmap ps) j ≡ (if get_bit bitmap j then true else marked i ps j)
unfolding set_bits
get_bit-set_bits [] i bitmap j h = ground arith
get_bit-set_bits (true ∷ ps) i bitmap j h = ground (
  arith,
  get_bit-set_bits ps (i + 1) (set_bit bitmap i) j (omega (arith, length-set_bit bitmap i)),
  get_bit-set_bit bitmap i j (omega arith),
)
get_bit-set_bits (false ∷ ps) i bitmap j h =
    ground (arith, get_bit-set_bits ps (i + 1) bitmap j (omega arith))

marked_below : (ps : List Bool) (i j : ℕ) → j < i → marked i ps j ≡ false
marked_below [] i j h = refl
marked_below (p ∷ ps) i j h = ground (arith, marked_below ps (i + 1) j)

marked_at : (ps : List Bool) (i k : ℕ) → marked i ps (i + k) ≡ get_or ps k false
marked_at [] i k = refl
marked_at (p ∷ ps) i zero = ground (arith, marked_below ps (i + 1) i)
marked_at (p ∷ ps) i (suc k) =
    let e : i + suc k ≡ i + 1 + k = omega arith in rw e (ground (arith, marked_at ps (i + 1) k))

abbrev zeros : ℕ → Bytes
zeros n = replicate n 0

get_or-zeros : (n k : ℕ) → ◌≡◌ {A = ℕ} (get_or (zeros n) k 0) 0
get_or-zeros zero k = refl
get_or-zeros (suc n) zero = refl
get_or-zeros (suc n) (suc k) = get_or-zeros n k

get_bit-zeros : (n j : ℕ) → get_bit (zeros n) j ≡ false
get_bit-zeros n j =
    rw (get_bit-bit_at (zeros n) j, get_or-zeros n (j / 8), bit_at_zero (j % 8)) (ground arith)

-- For every list of values, the bit of each place in the bitmap that buildBitmap makes is set
-- exactly if the value at that place is there, and no bit past the values is.
pub get_bit-build_bitmap :
    {A : Type 0} (values : List A) (is_there : A → Bool) (j : ℕ)
    → get_bit (build_bitmap values is_there).0 j ≡ get_or (map is_there values) j false
unfolding build_bitmap
get_bit-build_bitmap values is_there j =
    let n = (length values + 7) / 8 in
    let ps = map is_there values in
    get_bit-set_bits ps 0 (zeros n) j
      (omega (arith, length-replicate {A = ℕ} n 0, length-map is_there values))
    ∙ rw (get_bit-zeros n j) (ap (λ (k : ℕ). marked 0 ps k) (sym (zero-add j)) ∙ marked_at ps 0 j)
