-- ===== src/Encoding/Framing/RoundTrip.antt =====
-- Framed values are read back, and what a reader returns is part of its input.
use opentrace.Base.{
  ℕ, ◌^◌, ◌≤◌, ◌<◌, ◌≡◌, [], ◌++◌, arith, Bytes, length, ltb, if◌then◌else◌, Result, ok, err, ◌>>=◌,
  append_assoc, length-append, take-append, drop-append, le-or-lt, inl, inr, le→leb, leb-false,
  ltb-false, ◌∙◌,
}
use opentrace.Encoding.Word.{le_bytes, length-le_bytes, le_word-le_bytes, drop-le_bytes}
use opentrace.Encoding.Framing.{
  LenFormat, len_extended, max_value_bytes, max_uint16_len, append_len, append_len_string,
  extended_len, read_len, read_string, FramingError, out_of_range,
}

-- Appending to a buffer keeps the buffer.
pub append_len_string-append :
    (buf s : Bytes) → append_len_string buf s ≡ buf ++ append_len_string [] s
unfolding append_len_string
append_len_string-append buf s = elim (le-or-lt (length s) max_uint16_len) [
  | inl h ↦ rw (le→leb _ _ h) (simp append_assoc)
  | inr h ↦ rw (leb-false _ _ h) (simp append_assoc)
]

-- The range check that ends ReadLen.
abbrev in_range : ℕ × Bytes → Result FramingError (ℕ × Bytes)
in_range (n, rest) = if ltb max_value_bytes n then err out_of_range else ok (n, rest)

read_len-le_bytes :
    (f : LenFormat) (n : ℕ) (rest : Bytes)
    → n < 65536
    → read_len f (le_bytes 2 n ++ rest) ≡ (extended_len f n rest >>= in_range)
unfolding read_len
read_len-le_bytes f n rest h = rw (
  le→leb 2 (length (le_bytes 2 n ++ rest))
      (omega (arith, length-append (le_bytes 2 n) rest, length-le_bytes 2 n)),
  le_word-le_bytes 2 n rest h,
  drop-le_bytes 2 n rest,
)

extended_len-le_bytes :
    (n : ℕ) (rest : Bytes)
    → n < 2 ^ 32
    → extended_len len_extended 65535 (le_bytes 4 n ++ rest) ≡ ok (n, rest)
unfolding extended_len
extended_len-le_bytes n rest h = rw (
  le→leb 4 (length (le_bytes 4 n ++ rest))
      (omega (arith, length-append (le_bytes 4 n) rest, length-le_bytes 4 n)),
  le_word-le_bytes 4 n rest h,
  drop-le_bytes 4 n rest,
)

-- Both framings read a length below the marker.
read_len_short :
    (f : LenFormat) (n : ℕ) (rest : Bytes)
    → n ≤ max_uint16_len
    → read_len f (append_len [] n ++ rest) ≡ ok (n, rest)
unfolding append_len extended_len
read_len_short f n rest h =
    rw (le→leb _ _ h) (read_len-le_bytes f n rest (omega arith) ∙ ground arith)

read_len_long :
    (n : ℕ) (rest : Bytes)
    → max_uint16_len < n
    → n ≤ max_value_bytes
    → read_len len_extended (append_len [] n ++ rest) ≡ ok (n, rest)
unfolding append_len
read_len_long n rest lo hi =
    rw (leb-false _ _ lo, append_assoc)
      (read_len-le_bytes len_extended 65535 (le_bytes 4 n ++ rest) (omega arith)
        ∙ rw (extended_len-le_bytes n rest (omega arith), ltb-false _ _ hi))

pub read_len-append_len :
    (n : ℕ) (rest : Bytes)
    → n ≤ max_value_bytes
    → read_len len_extended (append_len [] n ++ rest) ≡ ok (n, rest)
read_len-append_len n rest h = elim (le-or-lt n max_uint16_len) [
  | inl lo ↦ read_len_short len_extended n rest lo
  | inr hi ↦ read_len_long n rest hi h
]

-- The value itself, once its length is known.
read_string_of_len :
    (f : LenFormat) (s rest : Bytes)
    → read_len f (append_len [] (length s) ++ (s ++ rest)) ≡ ok (length s, s ++ rest)
    → read_string f (append_len_string [] s ++ rest) ≡ ok (s, rest)
unfolding read_string append_len_string
read_string_of_len f s rest h = rw (
  append_assoc,
  h,
  le→leb (length s) (length (s ++ rest)) (omega (arith, length-append s rest)),
  take-append s rest,
  drop-append s rest,
)

-- Under the extended framing, ReadString reads back a value of at most MaxValueBytes that
-- AppendLenString wrote, and leaves what follows.
pub read_string-append_len_string :
    (s rest : Bytes)
    → length s ≤ max_value_bytes
    → read_string len_extended (append_len_string [] s ++ rest) ≡ ok (s, rest)
read_string-append_len_string s rest h =
    read_string_of_len len_extended s rest (read_len-append_len (length s) (s ++ rest) h)

-- A value of less than 65535 bytes that AppendLenString wrote reads the same under both framings.
pub read_string_legacy :
    (f : LenFormat) (s rest : Bytes)
    → length s ≤ max_uint16_len
    → read_string f (append_len_string [] s ++ rest) ≡ ok (s, rest)
read_string_legacy f s rest h =
    read_string_of_len f s rest (read_len_short f (length s) (s ++ rest) h)
