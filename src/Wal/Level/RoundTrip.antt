-- ===== src/Wal/Level/RoundTrip.antt =====
-- A level is read back, with "warning" as "warn" and a custom level cut at MaxFieldBytes.
use opentrace.Base.{
  ℕ, ◌+◌, ◌≤◌, ◌≡◌, [], ◌++◌, arith, Bytes, true, length, get_or, if◌then◌else◌, Option, none, some,
  ok, codes, bytes_eq, bytes_eq_iff, inl, inr, Option-cases,
}
use opentrace.Encoding.Framing.{len_extended}
use opentrace.Wal.Flags.{has, flag_extended_strings}
use opentrace.Wal.Field.{truncate_field, max_field_bytes}
use opentrace.Wal.Field.Laws.{read_string-append_string, length-append_string}
use opentrace.Wal.Level.{level_to_enum, enum_to_level, level_enum, level_bytes, read_level}

abbrev level_of : Option ℕ → Bytes → Bytes
level_of none l = truncate_field l
level_of (some n) l = get_or enum_to_level n []

-- What a level is stored as.
unfoldable pub stored_level : Bytes → Bytes
stored_level l = level_of (level_to_enum l) l

level_to_enum-le : (l : Bytes) (n : ℕ) → level_to_enum l ≡ some n → n ≤ 5
unfolding level_to_enum
level_to_enum-le l n e = ground arith

-- In a record with the extended-strings flag, the level is read back from its enum byte and its
-- string as what it is stored as, and what follows is left.
pub read_level_lem :
    (flags : ℕ) (l rest : Bytes)
    → has flags flag_extended_strings ≡ true
    → read_level len_extended flags (level_enum l) (level_bytes l ++ rest)
      ≡ ok (stored_level l, rest)
unfolding read_level level_enum level_bytes stored_level
read_level_lem flags l rest h = elim (Option-cases (level_to_enum l)) [
  | inl e ↦ rw (e, h, read_string-append_string l rest)
  | inr (n, e) ↦ rw e (known n (level_to_enum-le l n e))
]
  where
    known :
        (n : ℕ)
        → n ≤ 5
        → read_level len_extended flags n rest ≡ ok (get_or enum_to_level n [], rest)
    known n k = ground arith

-- The level of the enum that a level is stored as is that level, except that "warning" is read back
-- as "warn".
pub stored_level_known :
    (l : Bytes) (n : ℕ)
    → level_to_enum l ≡ some n
    → stored_level l ≡ (if bytes_eq l (codes "warning") then codes "warn" else l)
unfolding stored_level level_to_enum
stored_level_known l n e = ground (
  arith,
  bytes_eq_iff l (codes "trace"),
  bytes_eq_iff l (codes "debug"),
  bytes_eq_iff l (codes "info"),
  bytes_eq_iff l (codes "warn"),
  bytes_eq_iff l (codes "warning"),
  bytes_eq_iff l (codes "error"),
  bytes_eq_iff l (codes "fatal"),
)

pub length-level_bytes : (l : Bytes) → length (level_bytes l) ≤ max_field_bytes + 6
unfolding level_bytes
length-level_bytes l = ground (arith, length-append_string l)
