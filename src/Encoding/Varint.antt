-- ===== src/Encoding/Varint.antt =====
-- encoding/varint.go over binary.PutUvarint and binary.Uvarint of Go's library.
-- An int64 is its two's complement word, a number below 2 ^ 64.
pub mod ZigZag
pub mod RoundTrip
use opentrace.Base.{
  ℕ, zero, suc, ◌+◌, ◌-◌, ◌*◌, ◌/◌, ◌%◌, ◌^◌, ◌≤◌, ◌<◌, ◌≡◌, refl, ap, List, [], ◌∷◌, ◌++◌, arith,
  Bytes, IsByte, IsWord, All, length, bit_and, bit_or, bit_xor, ltb, leb, ◌==◌, if◌then◌else◌,
  Option, none, some, ◌&&◌, Bool,
}

-- The loop of binary.PutUvarint; the fuel is the room in its ten-byte buffer.
unfoldable pub uvarint_bytes : ℕ → ℕ → Bytes
uvarint_bytes zero x = []
uvarint_bytes (suc room) x =
    let rest = uvarint_bytes room (x / 128) in
    if ltb x 0x80 then x % 256 ∷ [] else bit_or (x % 256) 0x80 ∷ rest

-- The bytes of binary.PutUvarint.
unfoldable pub uvarint_encoding : ℕ → Bytes
unfolding uvarint_bytes
uvarint_encoding v = uvarint_bytes 10 v

unfoldable pub put_uvarint : Bytes → ℕ → Bytes
put_uvarint dst v = dst ++ uvarint_encoding v

-- `(v << 1) ^ (v >> 63)`: the arithmetic shift is all ones for a negative number.
unfoldable pub zig_zag_encode : ℕ → ℕ
zig_zag_encode v = bit_xor (v * 2 % 2 ^ 64) (if ltb v (2 ^ 63) then 0 else 2 ^ 64 - 1)

-- `int64(v>>1) ^ -int64(v&1)`: the negation is 0 or all ones.
unfoldable pub zig_zag_decode : ℕ → ℕ
zig_zag_decode v = bit_xor (v / 2) ((2 ^ 64 - bit_and v 1) % 2 ^ 64)

-- binary.PutVarint zigzags by `uint64(x) << 1`, complemented for a negative number.
unfoldable pub put_varint : Bytes → ℕ → Bytes
unfolding put_uvarint
put_varint dst v =
    put_uvarint dst (if ltb v (2 ^ 63) then v * 2 % 2 ^ 64 else 2 ^ 64 - 1 - v * 2 % 2 ^ 64)

-- binary.Uvarint on what is left of a slice: `i` bytes are read, `none` stands for n ≤ 0.
uvarint_loop : Bytes → ℕ → ℕ → ℕ → Option (ℕ × Bytes)
uvarint_loop [] i x s = none
uvarint_loop (b ∷ bs) i x s =
    let more = uvarint_loop bs (i + 1) (bit_or x (bit_and b 0x7f * 2 ^ s % 2 ^ 64)) (s + 7) in
    if i == 10
    then none
    else if ltb b 0x80
    then (if i == 9 && ltb 1 b then none else some (bit_or x (b * 2 ^ s % 2 ^ 64), bs))
    else more

unfoldable pub uvarint : Bytes → Option (ℕ × Bytes)
unfolding uvarint_loop
uvarint bs = uvarint_loop bs 0 0 0

-- binary.Varint undoes the zigzag: `x := int64(ux >> 1); if ux&1 != 0 { x = ^x }`.
abbrev unzigzag : ℕ × Bytes → ℕ × Bytes
unzigzag (ux, rest) = (if bit_and ux 1 == 0 then ux / 2 else 2 ^ 64 - 1 - ux / 2, rest)

unfoldable pub varint : Bytes → Option (ℕ × Bytes)
varint bs = elim (uvarint bs) [ none ↦ none | some p ↦ some (unzigzag p) ]
