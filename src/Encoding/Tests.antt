-- ===== src/Encoding/Tests.antt =====
-- Runs of the encodings of internal/logstore/encoding, and their laws at concrete values.
use opentrace.Base.{
  false, ◌-◌, ◌^◌, ◌≤◌, ◌<◌, ◌≡◌, refl, List, [], ◌∷◌, ◌++◌, arith, Bytes, length, some, none,
  Option, Bool, true, ok, codes, bytes_eq,
}
use opentrace.Encoding.Word.{le_bytes}
use opentrace.Encoding.Varint.{uvarint, uvarint_encoding, zig_zag_encode}
use opentrace.Encoding.Varint.RoundTrip.{uvarint-uvarint_encoding}
use opentrace.Encoding.Framing.{append_len_string}
use opentrace.Encoding.Zstd.Plain.{plain, plain-IsLossless}
use opentrace.Encoding.Columns.{pack_strings}
use opentrace.Encoding.Sparse.Bools.{sparse_bool, unsparse_bool}
use opentrace.Encoding.Sparse.RoundTrip.{unsparse_bool-sparse_bool}
use opentrace.Encoding.Delta.{delta_encode, delta_decode}
use opentrace.Encoding.Delta.RoundTrip.{delta_decode-delta_encode}
use opentrace.Encoding.Dictionary.{
  DictEncoded, dict_encode, dict_encode_limit, dict_lookup, dict_buf, intern, effective_limit,
}
use opentrace.Encoding.Dictionary.Lookup.{FoldsTo, dict_lookup-dict_encode_limit}

abbrev methods : List Bytes
methods = codes "GET" ∷ codes "POST" ∷ codes "GET" ∷ codes "PUT" ∷ []

abbrev two_methods : DictEncoded
two_methods = record { dict = [] ∷ codes "GET" ∷ []; indices = 1 ∷ 0 ∷ 1 ∷ [] }

minus_three_encoded : zig_zag_encode (2 ^ 64 - 3) ≡ 5
unfolding zig_zag_encode
minus_three_encoded = refl

methods_encoded : (dict_encode methods).indices ≡ 1 ∷ 2 ∷ 1 ∷ 3 ∷ []
unfolding dict_encode intern bytes_eq
methods_encoded = refl

-- With room for two entries, the third method is folded to the empty string.
methods_folded :
    dict_lookup (dict_encode_limit methods 3) ≡ codes "GET" ∷ codes "POST" ∷ codes "GET" ∷ [] ∷ []
unfolding dict_lookup dict_encode_limit intern bytes_eq
methods_folded = refl

uvarint-uvarint_encoding_example : uvarint (uvarint_encoding 300 ++ 7 ∷ []) ≡ some (300, 7 ∷ [])
uvarint-uvarint_encoding_example = uvarint-uvarint_encoding 300 (7 ∷ []) (omega arith)

delta_decode-delta_encode_example :
    delta_decode plain (delta_encode plain (1000 ∷ 1005 ∷ 990 ∷ [])) 3 ≡ ok (1000 ∷ 1005 ∷ 990 ∷ [])
delta_decode-delta_encode_example =
    delta_decode-delta_encode plain plain-IsLossless 1000 (1005 ∷ 990 ∷ [])
      (omega arith, (omega arith, (omega arith, tt))) (omega arith)

dict_lookup-dict_encode_limit_example :
    (length (dict_encode_limit methods 10).dict ≤ effective_limit 10)
    × FoldsTo methods (dict_lookup (dict_encode_limit methods 10))
    × (length (dict_encode_limit methods 10).dict < effective_limit 10
        → dict_lookup (dict_encode_limit methods 10) ≡ methods)
dict_lookup-dict_encode_limit_example = dict_lookup-dict_encode_limit methods 10

two_methods_small : length (dict_buf two_methods) < 2 ^ 32
unfolding dict_buf pack_strings append_len_string le_bytes
two_methods_small = omega arith

abbrev flags : List (Option Bool)
flags = some true ∷ none ∷ some false ∷ none ∷ some true ∷ []

unsparse_bool-sparse_bool_example : unsparse_bool (sparse_bool flags) 5 ≡ ok flags
unsparse_bool-sparse_bool_example = unsparse_bool-sparse_bool flags (omega arith)

-- An empty body is not a missing one.
abbrev bodies : List (Option Bytes)
bodies = none ∷ some [] ∷ some (codes "{}") ∷ []
