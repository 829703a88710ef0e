-- ===== src/Wal/Flags.antt =====
-- wal/binary.go: the flag word of a record. A flag constant `1 << k` is named by its position.
use opentrace.Base.{
  ℕ, ◌^◌, ◌<◌, ◌≡◌, List, [], ◌∷◌, arith, IsWord, All, Bool, true, false, not, bit_and, bit_or,
  ◌==◌, if◌then◌else◌,
}
use opentrace.Base.Bits.{
  bit_at, bit_at-lt, bit_at-two_pow, bit_at-bit_or, bit_and-two_pow, bit_or-lt, one-le-two_pow,
}

-- `flags&f != 0`
unfoldable pub has : ℕ → ℕ → Bool
has flags f = not (bit_and flags (2 ^ f) == 0)

-- Flags that are set by `flags |= f` where a condition holds, in order.
unfoldable pub set_flags : ℕ → List (ℕ × Bool) → ℕ
set_flags flags [] = flags
set_flags flags ((f, present) ∷ l) = set_flags (if present then bit_or flags (2 ^ f) else flags) l

-- FlagExtendedStrings and FlagRawBody.
abbrev pub flag_extended_strings : ℕ
flag_extended_strings = 63

abbrev pub flag_raw_body : ℕ
flag_raw_body = 62

abbrev pub flag_body : ℕ
flag_body = 40

-- Whether a list of conditions sets the flag `k`.
abbrev pub any_flag : ℕ → List (ℕ × Bool) → Bool
any_flag k [] = false
any_flag k ((f, present) ∷ l) =
    let rest = any_flag k l in if k == f then (if rest then true else present) else rest

has-bit_at : (flags k : ℕ) → has flags k ≡ (bit_at k flags == 1)
unfolding has
has-bit_at flags k = rw bit_and-two_pow (ground (arith, bit_at-lt k flags, one-le-two_pow k))

-- Setting one flag changes the test of that flag alone.
pub has-bit_or :
    (flags f k : ℕ) → has (bit_or flags (2 ^ f)) k ≡ (if k == f then true else has flags k)
has-bit_or flags f k = ground (
  arith,
  has-bit_at (bit_or flags (2 ^ f)) k,
  has-bit_at flags k,
  bit_at-bit_or k flags (2 ^ f),
  bit_at-two_pow k f,
  bit_at-lt k flags,
)

-- A flag is set exactly where it was before, or where one of its conditions holds.
pub has-set_flags :
    (flags k : ℕ) (l : List (ℕ × Bool))
    → has (set_flags flags l) k ≡ (if has flags k then true else any_flag k l)
unfolding set_flags
has-set_flags flags k [] = ground arith
has-set_flags flags k ((f, true) ∷ l) =
    ground (arith, has-set_flags (bit_or flags (2 ^ f)) k l, has-bit_or flags f k)
has-set_flags flags k ((f, false) ∷ l) = ground (arith, has-set_flags flags k l)

-- Flags below `w` keep the word below 2 ^ w.
pub set_flags-IsWord :
    (w flags : ℕ) (l : List (ℕ × Bool))
    → IsWord w flags
    → All (λ (p : ℕ × Bool). 2 ^ p.0 < 2 ^ w) l
    → IsWord w (set_flags flags l)
unfolding set_flags
set_flags-IsWord w flags [] h a = h
set_flags-IsWord w flags ((f, true) ∷ l) h a =
    set_flags-IsWord w (bit_or flags (2 ^ f)) l (bit_or-lt w flags (2 ^ f) h a.0) a.1
set_flags-IsWord w flags ((f, false) ∷ l) h a = set_flags-IsWord w flags l h a.1
