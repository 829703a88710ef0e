-- ===== src/Wal/Level.antt =====
-- wal/binary.go: the level of a record, an enum byte with an escape to a literal string.
pub mod RoundTrip
use opentrace.Base.{
  ℕ, List, [], ◌∷◌, Bytes, Bool, ◌&&◌, length, get_or, ltb, ◌==◌, if◌then◌else◌, Option, none, some,
  Result, ok, map_err, String, codes, bytes_eq,
}
use opentrace.Encoding.Framing.{LenFormat, read_string}
use opentrace.Wal.Flags.{has, flag_extended_strings}
use opentrace.Wal.Field.{WalError, bad_level, append_string}

-- `levelToEnum`
unfoldable pub level_to_enum : Bytes → Option ℕ
level_to_enum l =
    if bytes_eq l (codes "trace")
    then some 0
    else if bytes_eq l (codes "debug")
    then some 1
    else if bytes_eq l (codes "info")
    then some 2
    else if bytes_eq l (codes "warn")
    then some 3
    else if bytes_eq l (codes "warning")
    then some 3
    else if bytes_eq l (codes "error")
    then some 4
    else if bytes_eq l (codes "fatal")
    then some 5
    else none

-- `enumToLevel`
abbrev pub enum_to_level : List Bytes
enum_to_level =
    codes "trace" ∷ codes "debug" ∷ codes "info" ∷ codes "warn" ∷ codes "error" ∷ codes "fatal" ∷ []

abbrev pub level_enum_info : ℕ
level_enum_info = 2

abbrev pub level_enum_custom : ℕ
level_enum_custom = 0xff

abbrev enum_or_custom : Option ℕ → ℕ
enum_or_custom none = level_enum_custom
enum_or_custom (some n) = n

-- The enum byte of a level.
unfoldable pub level_enum : Bytes → ℕ
level_enum l = enum_or_custom (level_to_enum l)

abbrev literal_level : Option ℕ → Bytes → Bytes
literal_level none l = append_string [] l
literal_level (some n) l = []

-- The level string, which is stored only outside the enum.
unfoldable pub level_bytes : Bytes → Bytes
level_bytes l = literal_level (level_to_enum l) l

unfoldable pub read_level : LenFormat → ℕ → ℕ → Bytes → Result WalError (Bytes × Bytes)
read_level fmt flags lvl bs =
    if lvl == level_enum_custom && has flags flag_extended_strings
    then map_err bad_level (read_string fmt bs)
    else if ltb lvl (length enum_to_level)
    then ok (get_or enum_to_level lvl [], bs)
    else ok (get_or enum_to_level level_enum_info [], bs)
