-- ===== src/Base/ByteTables.antt =====
-- Facts about one byte, checked by evaluation over the 256 values.
use Prim.Native.Nat.{ℕ, zero, suc, ◌+◌, ◌%◌, ◌^◌, ◌<◌, bit_and, bit_or}
use mathlib.Core.Path.{◌≡◌, refl}
use mathlib.Core.Bool.{Bool, true, ◌&&◌}
use mathlib.Core.List.{List}
use native.Mathlib.Omega.{arith}
use opentrace.Base.Tests.{◌==◌, ==_iff}
use opentrace.Base.Bits.{bit_and_mask}

-- A Go `[]byte` or `string`, as the list of its bytes.
abbrev pub Bytes : Type 0
Bytes = List ℕ

abbrev pub IsByte : ℕ → Type 0
IsByte b = b < 256

abbrev pub IsWord : ℕ → ℕ → Type 0
IsWord w n = n < 2 ^ w

-- A test of the numbers below a bound.
each_below : (ℕ → Bool) → ℕ → Bool
each_below test zero = true
each_below test (suc k) = each_below test k && test k

each_below-at : (test : ℕ → Bool) (k b : ℕ) → b < k → each_below test k ≡ true → test b ≡ true
unfolding each_below
each_below-at test zero b below checked = absurd (omega arith)
each_below-at test (suc k) b below checked = ground (arith, each_below-at test k b)

top_bit_table : each_below (λ b. bit_or b 0x80 == b % 128 + 128) 256 ≡ true
unfolding each_below
top_bit_table = refl

pub bit_or_top : (x : ℕ) → x < 256 → bit_or x 0x80 ≡ x % 128 + 128
bit_or_top x h = (==_iff _ _).0 (each_below-at _ 256 x h top_bit_table)

pub bit_and_seven_bits : (x : ℕ) → bit_and x 0x7f ≡ x % 128
bit_and_seven_bits x = bit_and_mask 7 x
