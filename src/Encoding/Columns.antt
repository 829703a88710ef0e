-- ===== src/Encoding/Columns.antt =====
-- What the column encodings share: the errors of a column's decoder, and runs of framed strings.
use opentrace.Base.{
  ℕ, zero, suc, ◌+◌, ◌*◌, ◌≤◌, ◌≡◌, refl, sym, ◌∙◌, List, [], ◌∷◌, ◌++◌, arith, Bytes, All, length,
  Result, ok, ◌>>=◌, map_err, append_assoc, append-nil, length-append, le-or-lt, inl, inr, le→leb,
  leb-false,
}
use opentrace.Encoding.Word.{length-le_bytes}
use opentrace.Encoding.Framing.{
  LenFormat, len_extended, FramingError, append_len_string, read_string, max_value_bytes,
  max_uint16_len,
}
use opentrace.Encoding.Framing.RoundTrip.{append_len_string-append, read_string-append_len_string}
use opentrace.Encoding.Zstd.{ZstdError}

pub data ColumnError : Type 0 where
  too_short bad_size bad_varint bad_bits bad_count : ColumnError
  bad_string : FramingError → ColumnError
  bad_block : ZstdError → ColumnError

-- `for _, v := range values { buf = AppendLenString(buf, v) }`
unfoldable pub pack_strings : Bytes → List Bytes → Bytes
pack_strings buf [] = buf
pack_strings buf (v ∷ vs) = pack_strings (append_len_string buf v) vs

-- The reader's loop over `count` values, with what it leaves.
unfoldable pub read_strings : LenFormat → ℕ → Bytes → Result ColumnError (List Bytes × Bytes)
read_strings f zero raw = ok ([], raw)
read_strings f (suc n) raw = do
  (v, rest) ← map_err bad_string (read_string f raw)
  (vs, rest') ← read_strings f n rest
  ok (v ∷ vs, rest')

pub pack_strings-append :
    (buf : Bytes) (vs : List Bytes) → pack_strings buf vs ≡ buf ++ pack_strings [] vs
unfolding pack_strings
pack_strings-append buf [] = sym (append-nil buf)
pack_strings-append buf (v ∷ vs) =
    pack_strings-append (append_len_string buf v) vs
    ∙ rw (append_len_string-append buf v, append_assoc)
        (rw (← pack_strings-append (append_len_string [] v) vs))

-- Values that the framing can hold are read back in order.
pub read_strings-pack_strings :
    (vs : List Bytes) (rest : Bytes)
    → All (λ v. length v ≤ max_value_bytes) vs
    → read_strings len_extended (length vs) (pack_strings [] vs ++ rest) ≡ ok (vs, rest)
unfolding read_strings pack_strings
read_strings-pack_strings [] rest h = refl
read_strings-pack_strings (v ∷ vs) rest h = rw (
  pack_strings-append (append_len_string [] v) vs,
  append_assoc,
  read_string-append_len_string v (pack_strings [] vs ++ rest) h.0,
  read_strings-pack_strings vs rest h.1,
)

pub length-append_len_string_le : (v : Bytes) → length (append_len_string [] v) ≤ length v + 6
unfolding append_len_string
length-append_len_string_le v = elim (le-or-lt (length v) max_uint16_len) [
  | inl h ↦ rw (le→leb _ _ h, length-append) (omega (arith, length-le_bytes 2 (length v)))
  | inr h ↦
      rw (leb-false _ _ h, length-append, length-append)
        (omega (arith, length-le_bytes 2 65535, length-le_bytes 4 (length v)))
]

-- Framing costs at most six bytes a value.
pub length-pack_strings :
    (vs : List Bytes) (m : ℕ)
    → All (λ v. length v ≤ m) vs
    → length (pack_strings [] vs) ≤ length vs * (m + 6)
unfolding pack_strings
length-pack_strings [] m h = omega arith
length-pack_strings (v ∷ vs) m h =
    rw (pack_strings-append (append_len_string [] v) vs, length-append)
      (omega (arith, length-pack_strings vs m h.1, length-append_len_string_le v, h.0))
