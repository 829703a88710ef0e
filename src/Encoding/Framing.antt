-- ===== src/Encoding/Framing.antt =====
-- encoding/strlen.go: length-prefixed values. A slice and an offset into it are one list, the
-- bytes from the offset on; `off+2 > len(data)` is then a test on that list's length.
pub mod RoundTrip
use opentrace.Base.{
  ℕ, ◌+◌, ◌^◌, ◌<◌, ◌≡◌, List, [], ◌∷◌, ◌++◌, Bytes, Bool, true, false, ◌&&◌, length, take, drop,
  ltb, leb, ◌==◌, if◌then◌else◌, Result, ok, err, ◌>>=◌, ◌>>◌, guard,
}
use opentrace.Encoding.Word.{le_bytes, le_word}

pub data LenFormat : Type 0 where
  len_uint16 len_extended : LenFormat

pub data FramingError : Type 0 where
  truncated_prefix truncated_extended_prefix out_of_range truncated_value : FramingError

-- `extendedLenMarker`, `maxUint16Len` and `MaxValueBytes`.
abbrev pub extended_len_marker : ℕ
extended_len_marker = 0xffff

abbrev pub max_uint16_len : ℕ
max_uint16_len = 0xfffe

abbrev pub max_value_bytes : ℕ
max_value_bytes = 2 ^ 30

unfoldable pub append_len : Bytes → ℕ → Bytes
append_len buf n =
    if leb n max_uint16_len
    then buf ++ le_bytes 2 n
    else (buf ++ le_bytes 2 extended_len_marker) ++ le_bytes 4 n

unfoldable pub append_len_string : Bytes → Bytes → Bytes
unfolding append_len
append_len_string buf s = append_len buf (length s) ++ s

unfoldable pub append_len_bytes : Bytes → Bytes → Bytes
unfolding append_len
append_len_bytes buf b = append_len buf (length b) ++ b

abbrev pub is_extended : LenFormat → Bool
is_extended len_extended = true
is_extended len_uint16 = false

-- The extended length, if the marker was read.
extended_len : LenFormat → ℕ → Bytes → Result FramingError (ℕ × Bytes)
extended_len f n bs =
    if is_extended f && n == extended_len_marker
    then (do guard (leb 4 (length bs)) truncated_extended_prefix; ok (le_word 4 bs, drop 4 bs))
    else ok (n, bs)

-- The length and the bytes that follow the prefix.
unfoldable pub read_len : LenFormat → Bytes → Result FramingError (ℕ × Bytes)
unfolding extended_len
read_len f bs = do
  guard (leb 2 (length bs)) truncated_prefix
  (n, rest) ← extended_len f (le_word 2 bs) (drop 2 bs)
  if ltb max_value_bytes n then err out_of_range else ok (n, rest)

-- The value and the bytes past it.
unfoldable pub read_value : LenFormat → Bytes → Result FramingError (Bytes × Bytes)
unfolding read_len
read_value f bs = do
  (n, rest) ← read_len f bs
  guard (leb n (length rest)) truncated_value
  ok (take n rest, drop n rest)

-- The copy into a string changes no byte.
unfoldable pub read_string : LenFormat → Bytes → Result FramingError (Bytes × Bytes)
unfolding read_value
read_string f bs = read_value f bs
