-- ===== src/Encoding/Varint/ZigZag.antt =====
-- The zigzag maps between int64 and uint64 words, as arithmetic.
use opentrace.Base.{ℕ, ◌-◌, ◌*◌, ◌/◌, ◌%◌, ◌^◌, ◌≡◌, arith, IsWord, ltb, if◌then◌else◌}
use opentrace.Base.Bits.{bit_xor-zero, bit_xor_ones, bit_and_mask}
use opentrace.Encoding.Varint.{zig_zag_encode, zig_zag_decode}

-- 0, -1, 1, -2, … go to 0, 1, 2, 3, …
abbrev pub zig_zag : ℕ → ℕ
zig_zag v = if ltb v (2 ^ 63) then 2 * v else 2 * (2 ^ 64 - v) - 1

pub zig_zag_encode_lem : (v : ℕ) → IsWord 64 v → zig_zag_encode v ≡ zig_zag v
unfolding zig_zag_encode
zig_zag_encode_lem v h =
    ground (arith, bit_xor-zero (v * 2 % 2 ^ 64), bit_xor_ones 64 (v * 2 % 2 ^ 64))

-- What is encoded is a uint64.
pub zig_zag_encode-IsWord : (v : ℕ) → IsWord 64 v → IsWord 64 (zig_zag_encode v)
zig_zag_encode-IsWord v h = ground (arith, zig_zag_encode_lem v h)

zig_zag_decode_even : (v : ℕ) → v % 2 ≡ 0 → zig_zag_decode v ≡ v / 2
unfolding zig_zag_decode
zig_zag_decode_even v h = ground (arith, bit_and_mask 1 v, bit_xor-zero (v / 2))

zig_zag_decode_odd : (v : ℕ) → IsWord 64 v → v % 2 ≡ 1 → zig_zag_decode v ≡ 2 ^ 64 - 1 - v / 2
unfolding zig_zag_decode
zig_zag_decode_odd v w h = ground (arith, bit_and_mask 1 v, bit_xor_ones 64 (v / 2))

-- ZigZagDecode undoes ZigZagEncode on every int64.
pub zig_zag_decode-zig_zag_encode : (v : ℕ) → IsWord 64 v → zig_zag_decode (zig_zag_encode v) ≡ v
zig_zag_decode-zig_zag_encode v h =
    rw (zig_zag_encode_lem v h)
      (ground (arith, zig_zag_decode_even (zig_zag v), zig_zag_decode_odd (zig_zag v)))
