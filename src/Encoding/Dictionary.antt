-- ===== src/Encoding/Dictionary.antt =====
-- encoding/dictionary.go: a column of few distinct strings as a dictionary and 16-bit indices. The
-- map from a string to its index is an association list, the newest entry first.
pub mod Lookup
pub mod RoundTrip
use opentrace.Base.{
  ℕ, zero, suc, ◌+◌, ◌*◌, ◌%◌, ◌^◌, List, [], ◌∷◌, ◌++◌, Bytes, Bool, true, false, ◌||◌, length,
  take, drop, get_or, map, ltb, leb, if◌then◌else◌, bytes_eq, Option, none, some, Result, ok, err,
  ◌>>=◌, ◌>>◌, guard, map_err,
}
use opentrace.Encoding.Word.{le_bytes, le_word}
use opentrace.Encoding.Words.{words_bytes, read_words}
use opentrace.Encoding.Framing.{LenFormat}
use opentrace.Encoding.Zstd.{Zstd, compress, decompress_bounded, decode_ceiling}
use opentrace.Encoding.Columns.{
  ColumnError, too_short, bad_size, bad_block, pack_strings, read_strings,
}

abbrev pub max_dict_entries : ℕ
max_dict_entries = 65535

pub record DictEncoded : Type 0 where
  pub dict : List Bytes
  pub indices : List ℕ

unfoldable pub find_index : List (Bytes × ℕ) → Bytes → Option ℕ
find_index [] v = none
find_index ((k, i) ∷ m) v = let rest = find_index m v in if bytes_eq k v then some i else rest

-- The map, the order of the entries, and the index given to a value.
abbrev intern_found :
    Option ℕ → ℕ → List (Bytes × ℕ) → List Bytes → Bytes → List (Bytes × ℕ) × List Bytes × ℕ
intern_found (some i) limit m order v = (m, order, i)
intern_found none limit m order v =
    if leb limit (length order)
    then (m, order, 0)
    else let idx = length order % 2 ^ 16 in ((v, idx) ∷ m, order ++ (v ∷ []), idx)

-- One iteration of DictEncodeLimit's loop.
unfoldable pub intern :
    ℕ → List (Bytes × ℕ) → List Bytes → Bytes → List (Bytes × ℕ) × List Bytes × ℕ
unfolding find_index
intern limit m order v = intern_found (find_index m v) limit m order v

unfoldable pub intern_all : ℕ → List (Bytes × ℕ) → List Bytes → List Bytes → DictEncoded
intern_all limit m order [] = record { dict = order; indices = [] }
intern_all limit m order (v ∷ vs) =
    let (m', order', idx) = intern limit m order v in
    let rest = intern_all limit m' order' vs in
    record { dict = rest.dict; indices = idx ∷ rest.indices }

-- A limit below 1 stands for a negative one too.
unfoldable pub effective_limit : ℕ → ℕ
effective_limit limit =
    if ltb limit 1 || ltb max_dict_entries limit then max_dict_entries else limit

unfoldable pub dict_encode_limit : List Bytes → ℕ → DictEncoded
unfolding intern_all effective_limit
dict_encode_limit values limit = intern_all (effective_limit limit) (([], 0) ∷ []) ([] ∷ []) values

unfoldable pub dict_encode : List Bytes → DictEncoded
unfolding dict_encode_limit
dict_encode values = dict_encode_limit values max_dict_entries

-- An index out of range gives the empty string.
unfoldable pub dict_lookup : DictEncoded → List Bytes
dict_lookup d = map (λ i. get_or d.dict i []) d.indices

-- The entries in front of the indices, with their count.
unfoldable pub dict_buf : DictEncoded → Bytes
dict_buf d =
    let entries =
      if ltb max_dict_entries (length d.dict) then take max_dict_entries d.dict else d.dict in
    pack_strings (le_bytes 2 (length entries)) entries

module _ (z : Zstd) where
  unfoldable pub dict_marshal : DictEncoded → Bytes
  unfolding dict_buf
  dict_marshal d =
      (le_bytes 4 (length (dict_buf d)) ++ dict_buf d) ++ compress z (words_bytes 2 d.indices)

  unfoldable pub dict_unmarshal : Bytes → ℕ → LenFormat → Result ColumnError DictEncoded
  dict_unmarshal block count f = do
    guard (leb 4 (length block)) too_short
    let size = le_word 4 block
    guard (leb (4 + size) (length block)) bad_size
    let buf = take size (drop 4 block)
    guard (leb 2 (length buf)) too_short
    (dict, rest) ← read_strings f (le_word 2 buf) (drop 2 buf)
    raw ←
        map_err bad_block (decompress_bounded z (drop size (drop 4 block)) (decode_ceiling count 2))
    ok (record { dict = dict; indices = read_words 2 count raw })
