-- ===== src/Wal/Field.antt =====
-- wal/binary.go: what MarshalEntry appends for one field, and the reader of one field.
-- The readers take the bytes from the current offset on, and return those past what they read.
pub mod Laws
use opentrace.Base.{
  ℕ, zero, suc, ◌+◌, ◌-◌, ◌*◌, ◌^◌, ◌%◌, ◌≤◌, ◌<◌, List, [], ◌∷◌, ◌++◌, Bytes, Bool, true, false,
  not, ◌&&◌, bit_and, length, take, drop, get_or, ltb, leb, ◌==◌, if◌then◌else◌, Option, none, some,
  Result, ok, err, ◌>>=◌, ◌>>◌, guard, map_err,
}
use opentrace.Encoding.Word.{le_bytes, le_word}
use opentrace.Encoding.Varint.{put_uvarint, uvarint}
use opentrace.Encoding.Framing.{LenFormat, FramingError, append_len_string, read_string}
use opentrace.Encoding.Zstd.{ZstdError}
use opentrace.Wal.Flags.{has}

-- A failed read names the field by its flag.
pub data WalError : Type 0 where
  entry_too_short trailing_bytes : WalError
  bad_level bad_service bad_message : FramingError → WalError
  bad_string : ℕ → FramingError → WalError
  bad_uvarint truncated_field : ℕ → WalError
  bad_body : ZstdError → WalError

abbrev pub max_field_bytes : ℕ
max_field_bytes = 2 ^ 20

-- utf8.RuneStart: not a continuation byte.
rune_start : ℕ → Bool
rune_start b = not (bit_and b 0xc0 == 0x80)

-- `for cut > 0 && !utf8.RuneStart(s[cut]) { cut-- }`
pub rune_cut : Bytes → ℕ → ℕ
rune_cut s zero = 0
rune_cut s (suc cut) =
    let rest = rune_cut s cut in if rune_start (get_or s (suc cut) 0) then suc cut else rest

unfoldable pub truncate_field : Bytes → Bytes
truncate_field s = if leb (length s) max_field_bytes then s else take (rune_cut s max_field_bytes) s

unfoldable pub append_string : Bytes → Bytes → Bytes
append_string buf s = append_len_string buf (truncate_field s)

-- `v != ""`
abbrev pub is_present : Bytes → Bool
is_present [] = false
is_present (b ∷ bs) = true

-- `v > 0` on an int
abbrev pub is_positive : ℕ → Bool
is_positive v = ltb 0 v && ltb v (2 ^ 63)

abbrev pub is_non_nil : Option Bool → Bool
is_non_nil none = false
is_non_nil (some b) = true

-- The writers append to the record; these are the bytes that each call appends.
unfoldable pub write_str : ℕ → ℕ → Bytes → Bytes
write_str flags f v = if has flags f then append_string [] v else []

unfoldable pub write_uvar : ℕ → ℕ → ℕ → Bytes
write_uvar flags f v = if has flags f then put_uvarint [] v else []

-- `AppendUint16(buf, uint16(e.Status))`
unfoldable pub write_uint16 : ℕ → ℕ → ℕ → Bytes
write_uint16 flags f v = if has flags f then le_bytes 2 (v % 65536) else []

-- `n_plus_one`, a byte; the flag is set only for a pointer that is not nil.
abbrev bool_byte : Option Bool → Bytes
bool_byte none = []
bool_byte (some true) = 1 ∷ []
bool_byte (some false) = 0 ∷ []

unfoldable pub write_bool : ℕ → ℕ → Option Bool → Bytes
write_bool flags f v = if has flags f then bool_byte v else []

unfoldable pub r_str : LenFormat → ℕ → ℕ → Bytes → Result WalError (Bytes × Bytes)
r_str fmt flags f bs =
    if has flags f then map_err (bad_string f) (read_string fmt bs) else ok ([], bs)

abbrev uvarint_field : ℕ → Option (ℕ × Bytes) → Result WalError (ℕ × Bytes)
uvarint_field f none = err (bad_uvarint f)
uvarint_field f (some p) = ok p

unfoldable pub r_uvar : ℕ → ℕ → Bytes → Result WalError (ℕ × Bytes)
r_uvar flags f bs = if has flags f then uvarint_field f (uvarint bs) else ok (0, bs)

unfoldable pub r_uint16 : ℕ → ℕ → Bytes → Result WalError (ℕ × Bytes)
r_uint16 flags f bs =
    if has flags f
    then (do guard (leb 2 (length bs)) (truncated_field f); ok (le_word 2 bs, drop 2 bs))
    else ok (0, bs)

abbrev byte_field : ℕ → Bytes → Result WalError (Option Bool × Bytes)
byte_field f [] = err (truncated_field f)
byte_field f (b ∷ bs) = ok (some (not (b == 0)), bs)

unfoldable pub r_bool : ℕ → ℕ → Bytes → Result WalError (Option Bool × Bytes)
r_bool flags f bs = if has flags f then byte_field f bs else ok (none, bs)
