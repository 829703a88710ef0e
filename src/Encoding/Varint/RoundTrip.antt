-- ===== src/Encoding/Varint/RoundTrip.antt =====
-- Varints are read back, whatever follows them.
use opentrace.Base.{
  ℕ, zero, suc, ◌+◌, ◌-◌, ◌*◌, ◌/◌, ◌%◌, ◌^◌, ◌≤◌, ◌<◌, ◌≡◌, ap, [], ◌∷◌, ◌++◌, arith, Bytes,
  IsByte, IsWord, All, length, ltb, if◌then◌else◌, some, bit_or_top, bit_and_seven_bits,
}
use opentrace.Base.Bits.{bit_or_disjoint, bit_and_mask}
use opentrace.Encoding.Varint.{
  uvarint_bytes, uvarint_encoding, put_uvarint, put_varint, uvarint_loop, uvarint, unzigzag, varint,
}
use native.Mathlib.Nat.{div-add-mod}
use native.Mathlib.Numerals.{towards_suc}

-- Shifting by one more group of seven bits, as products.
group_shift : (s q : ℕ) → q * 2 ^ (s + 7) ≡ q * 128 * 2 ^ s
group_shift s q =
    let e : 2 ^ (s + 7) ≡ 128 * 2 ^ s = simp towards_suc (omega arith) in rw e (grind arith)

low_and_high : (s w : ℕ) → w % 128 * 2 ^ s + w / 128 * 2 ^ (s + 7) ≡ w * 2 ^ s
low_and_high s w = rw group_shift (omega (arith, ap (λ (n : ℕ). n * 2 ^ s) (div-add-mod w 128)))

last_shift : (w s : ℕ) → s ≡ 63 → w * 2 ^ s ≡ w * 9223372036854775808
last_shift w s h = rw h (omega arith)

group_below : (g x s : ℕ) → g < 128 → x < 2 ^ s → x + g * 2 ^ s < 2 ^ (s + 7)
group_below g x s h k = grind (arith, group_shift s 1)

-- One round on a last byte `w`.
last_round :
    (w i x s : ℕ) (rest : Bytes)
    → i ≤ 9
    → s ≡ 7 * i
    → w < 128
    → x < 2 ^ s
    → x + w * 2 ^ s < 2 ^ 64
    → uvarint_loop (w ∷ rest) i x s ≡ some (x + w * 2 ^ s, rest)
unfolding uvarint_loop
last_round w i x s rest hi hs hw hx fits =
    ground (arith, bit_or_disjoint s w x hx, λ (e : s ≡ 63). last_shift w s e)

-- One round on a byte with the continuation bit over the group `g`.
inner_round :
    (g i x s : ℕ) (rest : Bytes)
    → i ≤ 9
    → g < 128
    → x < 2 ^ s
    → x + g * 2 ^ s < 2 ^ 64
    → uvarint_loop ((g + 128) ∷ rest) i x s ≡ uvarint_loop rest (i + 1) (x + g * 2 ^ s) (s + 7)
unfolding uvarint_loop
inner_round g i x s rest hi hg hx fits =
    ground (arith, bit_or_disjoint s g x hx, bit_and_seven_bits (g + 128))

uvarint_loop-uvarint_bytes :
    (room w i x s : ℕ) (rest : Bytes)
    → i + suc room ≡ 10
    → s ≡ 7 * i
    → x < 2 ^ s
    → x + w * 2 ^ s < 2 ^ 64
    → uvarint_loop (uvarint_bytes (suc room) w ++ rest) i x s ≡ some (x + w * 2 ^ s, rest)
unfolding uvarint_bytes
uvarint_loop-uvarint_bytes zero w i x s rest hi hs hx fits =
    let small : w < 128 = omega (arith, last_shift w s (omega arith)) in
    ground (arith, last_round w i x s rest)
uvarint_loop-uvarint_bytes (suc room) w i x s rest hi hs hx fits = ground (
  arith,
  last_round w i x s rest,
  low_and_high s w,
  bit_or_top (w % 256),
  group_below (w % 128) x s,
  inner_round (w % 128) i x s (uvarint_bytes (suc room) (w / 128) ++ rest),
  uvarint_loop-uvarint_bytes room (w / 128) (i + 1) (x + w % 128 * 2 ^ s) (s + 7) rest,
)

-- Uvarint reads back the uint64 that PutUvarint wrote, and leaves what follows.
pub uvarint-uvarint_encoding :
    (v : ℕ) (rest : Bytes) → IsWord 64 v → uvarint (uvarint_encoding v ++ rest) ≡ some (v, rest)
unfolding uvarint uvarint_encoding
uvarint-uvarint_encoding v rest h = ground (arith, uvarint_loop-uvarint_bytes 9 v 0 0 0 rest)

-- One to ten bytes.
length-uvarint_bytes :
    (room x : ℕ)
    → (1 ≤ length (uvarint_bytes (suc room) x)) × (length (uvarint_bytes (suc room) x) ≤ room + 1)
unfolding uvarint_bytes
length-uvarint_bytes zero x = ground arith
length-uvarint_bytes (suc room) x = ground (arith, length-uvarint_bytes room (x / 128))

pub length-uvarint_encoding :
    (v : ℕ) → (1 ≤ length (uvarint_encoding v)) × (length (uvarint_encoding v) ≤ 10)
unfolding uvarint_encoding
length-uvarint_encoding v = length-uvarint_bytes 9 v

uvarint_bytes-IsByte : (room x : ℕ) → All IsByte (uvarint_bytes room x)
unfolding uvarint_bytes
uvarint_bytes-IsByte zero x = tt
uvarint_bytes-IsByte (suc room) x =
    ground (arith, bit_or_top (x % 256), uvarint_bytes-IsByte room (x / 128))

pub uvarint_encoding-IsByte : (v : ℕ) → All IsByte (uvarint_encoding v)
unfolding uvarint_encoding
uvarint_encoding-IsByte v = uvarint_bytes-IsByte 10 v

-- The word that PutVarint writes.
abbrev pub signed_word : ℕ → ℕ
signed_word v = if ltb v (2 ^ 63) then v * 2 % 2 ^ 64 else 2 ^ 64 - 1 - v * 2 % 2 ^ 64

unzigzag-signed_word :
    (v : ℕ) (rest : Bytes) → IsWord 64 v → unzigzag (signed_word v, rest) ≡ (v, rest)
unzigzag-signed_word v rest h = ground (arith, bit_and_mask 1 (signed_word v))

-- Varint reads back every int64 that PutVarint wrote, and leaves what follows.
pub varint-put_varint :
    (v : ℕ) (rest : Bytes) → IsWord 64 v → varint (put_varint [] v ++ rest) ≡ some (v, rest)
unfolding varint put_varint put_uvarint
varint-put_varint v rest h =
    rw (uvarint-uvarint_encoding (signed_word v) rest (ground arith), varint)
      (ap some (unzigzag-signed_word v rest h))
