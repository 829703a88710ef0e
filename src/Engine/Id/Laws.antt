-- ===== src/Engine/Id/Laws.antt =====
-- Laws of the numbers of entries (engine/id.go).
use opentrace.Base.{
  ℕ, ◌+◌, ◌*◌, ◌/◌, ◌%◌, ◌<◌, ◌≤◌, ◌≡◌, ◌⊎◌, refl, arith, true, leb→le, ltb, bit_and, bit_or,
  if◌then◌else◌,
}
use opentrace.Base.Bits.{bit_and_mask, bit_or_fields}
use opentrace.Engine.Id.{
  row_mask, chunk_mask, chunk_size, max_entries_per_segment, shift_right, encode_id, decode_id,
  id_for_position, segment_has_room,
}

-- The fields of a number are added, since they share no bit.
encode_id_lem :
    (h c r : ℕ)
    → encode_id h c r ≡ h * 0x80000000 % 0x10000000000000000 + c % 256 * 0x800000 + r % 0x800000
unfolding encode_id
encode_id_lem h c r =
    let chunk : bit_and c chunk_mask ≡ c % 256 = bit_and_mask 8 c in
    let row : bit_and r row_mask ≡ r % 0x800000 = bit_and_mask 23 r in
    let top = h % 0x200000000 in
    let upper : bit_or (top * 0x80000000) (c % 256 * 0x800000)
        ≡ top * 0x80000000 + c % 256 * 0x800000 =
      bit_or_fields 31 top (c % 256 * 0x800000) (omega arith) in
    let all : bit_or ((top * 256 + c % 256) * 0x800000) (r % 0x800000)
        ≡ (top * 256 + c % 256) * 0x800000 + r % 0x800000 =
      bit_or_fields 23 (top * 256 + c % 256) (r % 0x800000) (omega arith) in
    let high : h * 0x80000000 % 0x10000000000000000 ≡ top * 0x80000000 = omega arith in
    let low : c % 256 * 0x800000 % 0x10000000000000000 ≡ c % 256 * 0x800000 = omega arith in
    let joined : top * 0x80000000 + c % 256 * 0x800000 ≡ (top * 256 + c % 256) * 0x800000 =
      omega arith in
    rw (chunk, row, high, low, upper, joined, all) (omega arith)

-- An hour that fits into 32 bits with its sign, as the word of an int64.
abbrev pub IsHour : ℕ → Type 0
IsHour h = (h < 0x100000000) ⊎ ((0xffffffff00000000 ≤ h) × (h < 0x10000000000000000))

-- What the shifts make of a number of 33, 8 and 23 bits.
module _ (t m l : ℕ) (t_bits : t < 0x200000000) (m_bits : m < 256) (l_bits : l < 0x800000) where
  abbrev joined : ℕ
  joined = t * 0x80000000 + m * 0x800000 + l

  joined-hour :
      shift_right joined 0x80000000 ≡ (if ltb t 0x100000000 then t else 0xfffffffe00000000 + t)
  joined-hour = ground arith

  joined-chunk : bit_and (shift_right joined 0x800000) chunk_mask ≡ m
  joined-chunk = rw (bit_and_mask 8) (ground arith)

  joined-row : bit_and joined row_mask ≡ l
  joined-row = rw (bit_and_mask 23) (omega arith)

-- For a segment hour that fits into 32 bits with its sign, and any chunk and row, decoding the
-- number gives the hour, the chunk modulo 256 and the row modulo 2 to the 23.
pub decode_id-encode_id :
    (h c r : ℕ) → IsHour h → decode_id (encode_id h c r) ≡ (h, c % 256, r % 0x800000)
unfolding decode_id
decode_id-encode_id h c r hour =
    let t = h % 0x200000000 in
    let top : h * 0x80000000 % 0x10000000000000000 ≡ t * 0x80000000 = omega arith in
    let sign : (if ltb t 0x100000000 then t else 0xfffffffe00000000 + t) ≡ h = ground arith in
    rw
      (
        encode_id_lem h c r,
        top,
        joined-hour t (c % 256) (r % 0x800000) (omega arith) (omega arith) (omega arith),
        joined-chunk t (c % 256) (r % 0x800000) (omega arith) (omega arith) (omega arith),
        joined-row t (c % 256) (r % 0x800000) (omega arith) (omega arith) (omega arith),
        sign,
      )
      refl

-- Encoding the hour, the chunk and the row that an int64 decodes to gives the int64 again.
pub encode_id-decode_id :
    (id : ℕ)
    → id < 0x10000000000000000
    → encode_id (decode_id id).0 (decode_id id).1 (decode_id id).2 ≡ id
unfolding decode_id
encode_id-decode_id id h =
    let e =
      encode_id_lem (shift_right id 0x80000000) (bit_and (shift_right id 0x800000) chunk_mask)
        (bit_and id row_mask) in
    let row : bit_and id row_mask ≡ id % 0x800000 = bit_and_mask 23 id in
    let chunk : bit_and (shift_right id 0x800000) chunk_mask ≡ shift_right id 0x800000 % 256 =
      bit_and_mask 8 (shift_right id 0x800000) in
    let mid : shift_right id 0x800000 % 256 ≡ id / 0x800000 % 256 = ground arith in
    let top : shift_right id 0x80000000 * 0x80000000 % 0x10000000000000000
        ≡ id / 0x80000000 * 0x80000000 =
      ground arith in
    omega (arith, e, row, chunk, mid, top)

-- Numbers are ordered as entries are: for entries in segments that had room for them, the later
-- hour below 2 to the 32, an entry of an earlier hour, or an earlier entry of the same hour, has
-- the smaller number, so no two have the same.
pub id_for_position-lt :
    (h h' have have' n n' i j : ℕ)
    → h' < 0x100000000
    → segment_has_room have n ≡ true
    → i < have + n
    → segment_has_room have' n' ≡ true
    → j < have' + n'
    → (h < h') ⊎ ((h ≡ h') × (i < j))
    → id_for_position h i < id_for_position h' j
unfolding id_for_position segment_has_room
id_for_position-lt h h' have have' n n' i j small room le room' le' before =
    let within = leb→le (have + n) max_entries_per_segment room in
    let within' = leb→le (have' + n') max_entries_per_segment room' in
    let e = encode_id_lem h (i / chunk_size) (i % chunk_size) in
    let e' = encode_id_lem h' (j / chunk_size) (j % chunk_size) in omega (arith, e, e')
