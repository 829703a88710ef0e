-- ===== src/Base/Bits.antt =====
-- `&`, `|` and `^` on unsigned words as arithmetic: one equation for the lowest digit, low masks,
-- disjoint fields, the complement, and tests of a single bit.
use Prim.Native.Nat.{ℕ, zero, suc, ◌+◌, ◌-◌, ◌*◌, ◌/◌, ◌%◌, ◌^◌, ◌≤◌, ◌<◌, min, max}
use Prim.Native.Nat.{bit_and, bit_or, bit_xor, digits, bitwise, differ}
use Prim.Native.Nat.{bit_and-bitwise, bit_or-bitwise, bit_xor-bitwise}
use mathlib.Core.Path.{◌≡◌, refl, ap}
use mathlib.Core.WellFounded
use native.Mathlib.Nat.{pow-suc, one-le-pow}
use native.Mathlib.Omega.{arith}
use opentrace.Base.Order.{lt_wf}
use opentrace.Base.Tests.{◌==◌, if◌then◌else◌}

-- The library's recursion on binary digits ends early, so more fuel than the number changes nothing.
module _ (last : ℕ → ℕ) (op : ℕ → ℕ → ℕ) where
  more_fuel : (x i j y : ℕ) → x ≤ i → x ≤ j → digits last op i x y ≡ digits last op j x y
  more_fuel zero zero zero y hi hj = refl
  more_fuel zero (suc i) zero y hi hj = refl
  more_fuel zero zero (suc j) y hi hj = refl
  more_fuel zero (suc i) (suc j) y hi hj = refl
  more_fuel (suc x) zero j y hi hj = absurd (omega arith)
  more_fuel (suc x) (suc i) zero y hi hj = absurd (omega arith)
  more_fuel (suc x) (suc i) (suc j) y hi hj =
      let half = suc x / 2 in rw (more_fuel half i j (y / 2) (omega arith) (omega arith))

  lowest_digit :
      (x y : ℕ)
      → bitwise last op (suc x) y ≡ bitwise last op (suc x / 2) (y / 2) * 2 + op (suc x % 2) (y % 2)
  lowest_digit x y =
      let half = suc x / 2 in
      omega (arith, more_fuel half x half (y / 2) (omega arith) (omega arith))

pub bit_and_step : (x y : ℕ) → bit_and x y ≡ bit_and (x / 2) (y / 2) * 2 + min (x % 2) (y % 2)
bit_and_step zero y = simp bit_and-bitwise (omega arith)
bit_and_step (suc x) y = simp bit_and-bitwise (lowest_digit (λ r. 0) min x y)

pub bit_or_step : (x y : ℕ) → bit_or x y ≡ bit_or (x / 2) (y / 2) * 2 + max (x % 2) (y % 2)
bit_or_step zero y = simp bit_or-bitwise (omega arith)
bit_or_step (suc x) y = simp bit_or-bitwise (lowest_digit (λ r. r) max x y)

zero-bit_xor : (b : ℕ) → bit_xor 0 b ≡ b
zero-bit_xor b = bit_xor-bitwise 0 b

pub bit_xor_step : (a b : ℕ) → bit_xor a b ≡ bit_xor (a / 2) (b / 2) * 2 + differ (a % 2) (b % 2)
bit_xor_step zero b = omega (arith, zero-bit_xor b, zero-bit_xor (b / 2))
bit_xor_step (suc a) b = simp bit_xor-bitwise (lowest_digit (λ r. r) differ a b)

pub zero-bit_or : (b : ℕ) → bit_or 0 b ≡ b
zero-bit_or b = bit_or-bitwise 0 b

-- Laws with a zero on the right go from `a / 2` to `a`, hence the strong induction.
pub bit_or-zero : (a : ℕ) → bit_or a 0 ≡ a
bit_or-zero a = WellFounded.induction lt_wf {C = λ n. bit_or n 0 ≡ n} a λ n ih. at_digit n ih
  where
    at_digit : (n : ℕ) → ((m : ℕ) → m < n → bit_or m 0 ≡ m) → bit_or n 0 ≡ n
    at_digit zero ih = refl
    at_digit (suc n) ih = omega (arith, bit_or_step (suc n) 0, ih (suc n / 2) (omega arith))

pub bit_and-zero : (a : ℕ) → bit_and a 0 ≡ 0
bit_and-zero a = WellFounded.induction lt_wf {C = λ n. bit_and n 0 ≡ 0} a λ n ih. at_digit n ih
  where
    at_digit : (n : ℕ) → ((m : ℕ) → m < n → bit_and m 0 ≡ 0) → bit_and n 0 ≡ 0
    at_digit zero ih = refl
    at_digit (suc n) ih = omega (arith, bit_and_step (suc n) 0, ih (suc n / 2) (omega arith))

differ_zero : (d : ℕ) → d < 2 → differ d 0 ≡ d
differ_zero zero h = refl
differ_zero (suc zero) h = refl
differ_zero (suc (suc d)) h = absurd (omega arith)

pub bit_xor-zero : (a : ℕ) → bit_xor a 0 ≡ a
bit_xor-zero a = WellFounded.induction lt_wf {C = λ n. bit_xor n 0 ≡ n} a λ n ih. at_digit n ih
  where
    at_digit : (n : ℕ) → ((m : ℕ) → m < n → bit_xor m 0 ≡ m) → bit_xor n 0 ≡ n
    at_digit zero ih = refl
    at_digit (suc n) ih = omega (
      arith,
      bit_xor_step (suc n) 0,
      ih (suc n / 2) (omega arith),
      differ_zero (suc n % 2) (omega arith),
    )

pub two_pow_suc : (k : ℕ) → 2 ^ suc k ≡ 2 * 2 ^ k
two_pow_suc k = omega (arith, pow-suc 2 k)

mul-two_pow_suc : (q k : ℕ) → q * 2 ^ suc k ≡ 2 * (q * 2 ^ k)
mul-two_pow_suc q k = omega (arith, ap (λ (t : ℕ). q * t) (pow-suc 2 k))

pub one-le-two_pow : (k : ℕ) → 1 ≤ 2 ^ k
one-le-two_pow k = one-le-pow k 2 (omega arith)

bit_and_fields : (k q r : ℕ) → r < 2 ^ k → bit_and (q * 2 ^ k + r) (2 ^ k - 1) ≡ r
bit_and_fields zero q r h = rw bit_and-zero (omega arith)
bit_and_fields (suc k) q r h = ground (
  arith,
  bit_and_step (q * 2 ^ suc k + r) (2 ^ suc k - 1),
  mul-two_pow_suc q k,
  two_pow_suc k,
  one-le-two_pow k,
  bit_and_fields k q (r / 2) (omega (arith, two_pow_suc k)),
)

-- A mask of `k` ones takes the remainder by `2 ^ k`.
pub bit_and_mask : (k a : ℕ) → bit_and a (2 ^ k - 1) ≡ a % 2 ^ k
bit_and_mask k a = ground (arith, one-le-two_pow k, bit_and_fields k (a / 2 ^ k) (a % 2 ^ k))

-- `|` of two numbers with no common bit is their sum.
pub bit_or_disjoint : (k q r : ℕ) → r < 2 ^ k → bit_or r (q * 2 ^ k) ≡ r + q * 2 ^ k
bit_or_disjoint zero q r h = let e : r ≡ 0 = omega arith in rw (e, zero-bit_or) (omega arith)
bit_or_disjoint (suc k) q r h = ground (
  arith,
  bit_or_step r (q * 2 ^ suc k),
  mul-two_pow_suc q k,
  bit_or_disjoint k q (r / 2) (omega (arith, two_pow_suc k)),
)

-- The same with the upper field first.
pub bit_or_fields : (k q r : ℕ) → r < 2 ^ k → bit_or (q * 2 ^ k) r ≡ q * 2 ^ k + r
bit_or_fields zero q r h = let e : r ≡ 0 = omega arith in rw (e, bit_or-zero) (omega arith)
bit_or_fields (suc k) q r h = ground (
  arith,
  bit_or_step (q * 2 ^ suc k) r,
  mul-two_pow_suc q k,
  bit_or_fields k q (r / 2) (omega (arith, two_pow_suc k)),
)

differ_one : (d : ℕ) → d < 2 → differ d 1 ≡ 1 - d
differ_one zero h = refl
differ_one (suc zero) h = refl
differ_one (suc (suc d)) h = absurd (omega arith)

-- `^` with all ones is the complement.
pub bit_xor_ones : (k a : ℕ) → a < 2 ^ k → bit_xor a (2 ^ k - 1) ≡ 2 ^ k - 1 - a
bit_xor_ones zero a h = let e : a ≡ 0 = omega arith in rw e (omega arith)
bit_xor_ones (suc k) a h = ground (
  arith,
  bit_xor_step a (2 ^ suc k - 1),
  two_pow_suc k,
  one-le-two_pow k,
  differ_one (a % 2) (omega arith),
  bit_xor_ones k (a / 2) (omega (arith, two_pow_suc k)),
)

-- Bit `k` of a word, 0 or 1.
abbrev pub bit_at : ℕ → ℕ → ℕ
bit_at zero n = n % 2
bit_at (suc k) n = bit_at k (n / 2)

pub bit_at-bit_or : (k a b : ℕ) → bit_at k (bit_or a b) ≡ max (bit_at k a) (bit_at k b)
bit_at-bit_or zero a b = omega (arith, bit_or_step a b)
bit_at-bit_or (suc k) a b =
    let e : bit_or a b / 2 ≡ bit_or (a / 2) (b / 2) = omega (arith, bit_or_step a b) in
    rw e (bit_at-bit_or k (a / 2) (b / 2))

pub bit_and-two_pow : (k n : ℕ) → bit_and n (2 ^ k) ≡ bit_at k n * 2 ^ k
bit_and-two_pow zero n = omega (arith, bit_and_step n 1, bit_and-zero (n / 2))
bit_and-two_pow (suc k) n = ground (
  arith,
  bit_and_step n (2 ^ suc k),
  two_pow_suc k,
  bit_and-two_pow k (n / 2),
  mul-two_pow_suc (bit_at k (n / 2)) k,
)

pub bit_or-lt : (k a b : ℕ) → a < 2 ^ k → b < 2 ^ k → bit_or a b < 2 ^ k
bit_or-lt zero a b h g = let e : a ≡ 0 = omega arith in rw (e, zero-bit_or) g
bit_or-lt (suc k) a b h g = omega (
  arith,
  bit_or_step a b,
  two_pow_suc k,
  bit_or-lt k (a / 2) (b / 2) (omega (arith, two_pow_suc k)) (omega (arith, two_pow_suc k)),
)

pub bit_at-lt : (k n : ℕ) → bit_at k n < 2
bit_at-lt zero n = omega arith
bit_at-lt (suc k) n = bit_at-lt k (n / 2)

pub bit_at_zero : (k : ℕ) → bit_at k 0 ≡ 0
bit_at_zero zero = refl
bit_at_zero (suc k) = bit_at_zero k

half_two_pow : (k : ℕ) → 2 ^ suc k / 2 ≡ 2 ^ k
half_two_pow k = omega (arith, two_pow_suc k)

pub bit_at-two_pow : (k f : ℕ) → bit_at k (2 ^ f) ≡ (if k == f then 1 else 0)
bit_at-two_pow zero zero = refl
bit_at-two_pow zero (suc f) = ground (arith, two_pow_suc f)
bit_at-two_pow (suc k) zero = ground (arith, bit_at_zero k)
bit_at-two_pow (suc k) (suc f) = rw half_two_pow (ground (arith, bit_at-two_pow k f))
