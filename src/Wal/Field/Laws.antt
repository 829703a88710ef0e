-- ===== src/Wal/Field/Laws.antt =====
-- One field: what its reader returns on what its writer wrote, and how long that is.
use opentrace.Base.{
  ℕ, zero, suc, ◌+◌, ◌%◌, ◌≤◌, ◌≡◌, sym, ap, [], ◌∷◌, ◌++◌, arith, Bytes, Bool, true, false, length,
  take, if◌then◌else◌, Option, none, some, ok, length-take, length-append, le→leb, leb-false,
  le-or-lt, inl, inr, Bool-cases,
}
use opentrace.Encoding.Word.{le_bytes, length-le_bytes, le_word-le_bytes, drop-le_bytes}
use opentrace.Encoding.Varint.{put_uvarint}
use opentrace.Encoding.Varint.RoundTrip.{uvarint-uvarint_encoding, length-uvarint_encoding}
use opentrace.Encoding.Framing.{len_extended, append_len_string}
use opentrace.Encoding.Framing.RoundTrip.{read_string-append_len_string}
use opentrace.Encoding.Columns.{length-append_len_string_le}
use opentrace.Wal.Flags.{has}
use opentrace.Wal.Field.{
  max_field_bytes, rune_cut, truncate_field, append_string, is_present, is_positive, is_non_nil,
  write_str, write_uvar, write_uint16, write_bool, r_str, r_uvar, r_uint16, r_bool,
}

rune_cut-le : (s : Bytes) (cut : ℕ) → rune_cut s cut ≤ cut
unfolding rune_cut
rune_cut-le s zero = omega arith
rune_cut-le s (suc cut) = ground (arith, rune_cut-le s cut)

take_at_most : (s : Bytes) (n m : ℕ) → n ≤ m → length (take n s) ≤ m
take_at_most s n m h = omega (arith, length-take n s)

-- No field is longer than MaxFieldBytes.
pub length-truncate_field : (s : Bytes) → length (truncate_field s) ≤ max_field_bytes
unfolding truncate_field
length-truncate_field s = elim (le-or-lt (length s) max_field_bytes) [
  | inl h ↦ rw (le→leb _ _ h) h
  | inr h ↦
      rw (leb-false _ _ h)
        (take_at_most s (rune_cut s max_field_bytes) max_field_bytes (rune_cut-le s _))
]

-- A field within the limit is kept.
pub truncate_field_short : (s : Bytes) → length s ≤ max_field_bytes → truncate_field s ≡ s
unfolding truncate_field
truncate_field_short s h = rw (le→leb _ _ h)

pub read_string-append_string :
    (v rest : Bytes)
    → opentrace.Encoding.Framing.read_string len_extended (append_string [] v ++ rest)
      ≡ ok (truncate_field v, rest)
unfolding append_string
read_string-append_string v rest =
    read_string-append_len_string (truncate_field v) rest (omega (arith, length-truncate_field v))

-- What is stored for an int, a status and a pointer to a bool.
abbrev pub stored_int : ℕ → ℕ
stored_int v = if is_positive v then v else 0

abbrev pub stored_status : ℕ → ℕ
stored_status v = if is_positive v then v % 65536 else 0

module _ (flags f : ℕ) where
  pub r_str-write_str :
      (v rest : Bytes)
      → has flags f ≡ is_present v
      → r_str len_extended flags f (write_str flags f v ++ rest) ≡ ok (truncate_field v, rest)
  unfolding r_str write_str
  r_str-write_str [] rest h =
      rw h (ap (λ t. ok (t, rest)) (sym (truncate_field_short [] (omega arith))))
  r_str-write_str (b ∷ bs) rest h = rw (h, read_string-append_string (b ∷ bs) rest)

  pub r_uvar-write_uvar :
      (v : ℕ) (rest : Bytes)
      → has flags f ≡ is_positive v
      → r_uvar flags f (write_uvar flags f v ++ rest) ≡ ok (stored_int v, rest)
  unfolding r_uvar write_uvar put_uvarint
  r_uvar-write_uvar v rest h = elim (Bool-cases (is_positive v)) [
    | inl p ↦ rw (h, p, uvarint-uvarint_encoding v rest (ground arith), r_uvar)
    | inr n ↦ rw (h, n)
  ]

  pub r_uint16-write_uint16 :
      (v : ℕ) (rest : Bytes)
      → has flags f ≡ is_positive v
      → r_uint16 flags f (write_uint16 flags f v ++ rest) ≡ ok (stored_status v, rest)
  unfolding r_uint16 write_uint16
  r_uint16-write_uint16 v rest h = elim (Bool-cases (is_positive v)) [
    | inl p ↦
        let word : Bytes = le_bytes 2 (v % 65536) in
        rw (
          h,
          p,
          le→leb 2 (length (word ++ rest))
              (omega (arith, length-append word rest, length-le_bytes 2 (v % 65536))),
          le_word-le_bytes 2 (v % 65536) rest (omega arith),
          drop-le_bytes 2 (v % 65536) rest,
        )
    | inr n ↦ rw (h, n)
  ]

  pub r_bool-write_bool :
      (v : Option Bool) (rest : Bytes)
      → has flags f ≡ is_non_nil v
      → r_bool flags f (write_bool flags f v ++ rest) ≡ ok (v, rest)
  unfolding r_bool write_bool
  r_bool-write_bool none rest h = rw h
  r_bool-write_bool (some true) rest h = rw h
  r_bool-write_bool (some false) rest h = rw h

pub length-append_string : (v : Bytes) → length (append_string [] v) ≤ max_field_bytes + 6
unfolding append_string
length-append_string v =
    omega (arith, length-append_len_string_le (truncate_field v), length-truncate_field v)

module _ (flags f : ℕ) where
  pub length-write_str : (v : Bytes) → length (write_str flags f v) ≤ max_field_bytes + 6
  unfolding write_str
  length-write_str v = ground (arith, length-append_string v)

  pub length-write_uvar : (v : ℕ) → length (write_uvar flags f v) ≤ 10
  unfolding write_uvar put_uvarint
  length-write_uvar v = ground (arith, length-uvarint_encoding v)

  pub length-write_uint16 : (v : ℕ) → length (write_uint16 flags f v) ≤ 2
  unfolding write_uint16
  length-write_uint16 v = ground (arith, length-le_bytes 2 (v % 65536))

  pub length-write_bool : (v : Option Bool) → length (write_bool flags f v) ≤ 1
  unfolding write_bool
  length-write_bool v = ground arith
