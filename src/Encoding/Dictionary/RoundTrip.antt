-- ===== src/Encoding/Dictionary/RoundTrip.antt =====
-- A dictionary column is unmarshalled to what was marshalled (encoding/dictionary.go).
use opentrace.Base.{
  ◌+◌, ◌*◌, ◌^◌, ◌≤◌, ◌<◌, ◌≡◌, [], ◌++◌, arith, Bytes, All, IsWord, length, take-append,
  drop-append, append_assoc, append-nil, length-append, ltb-false, le→leb, ok,
}
use opentrace.Encoding.Word.{le_bytes, length-le_bytes, le_word-le_bytes, drop-le_bytes}
use opentrace.Encoding.Words.{words_bytes, length-words_bytes, read_words-words_bytes}
use opentrace.Encoding.Framing.{len_extended, max_value_bytes}
use opentrace.Encoding.Zstd.{Zstd, IsLossless, compress, max_block_bytes}
use opentrace.Encoding.Zstd.Bounds.{decompress-column}
use opentrace.Encoding.Columns.{pack_strings, pack_strings-append, read_strings-pack_strings}
use opentrace.Encoding.Dictionary.{
  DictEncoded, max_dict_entries, dict_buf, dict_marshal, dict_unmarshal,
}

dict_buf_lem :
    (d : DictEncoded)
    → length d.dict ≤ max_dict_entries
    → dict_buf d ≡ le_bytes 2 (length d.dict) ++ pack_strings [] d.dict
unfolding dict_buf
dict_buf_lem d few =
    rw (ltb-false max_dict_entries (length d.dict) few)
      (pack_strings-append (le_bytes 2 (length d.dict)) d.dict)

module _ (z : Zstd) (lossless : IsLossless z) where
  -- Over a lossless codec, DictUnmarshal inverts DictMarshal on a dictionary of at most 65535
  -- entries of at most 1 GiB each, whose framing takes less than 4 GiB, with 16-bit indices of at
  -- most 2 GiB.
  pub dict_unmarshal-dict_marshal :
      (d : DictEncoded)
      → length d.dict ≤ max_dict_entries
      → All (λ v. length v ≤ max_value_bytes) d.dict
      → length (dict_buf d) < 2 ^ 32
      → All (IsWord 16) d.indices
      → length d.indices * 2 ≤ max_block_bytes
      → dict_unmarshal z (dict_marshal z d) (length d.indices) len_extended ≡ ok d
  unfolding dict_unmarshal dict_marshal
  dict_unmarshal-dict_marshal d few h small words fits =
      let buf : Bytes = dict_buf d in
      let body : Bytes = compress z (words_bytes 2 d.indices) in
      let n = length buf in
      let size : length (le_bytes 4 n ++ (buf ++ body)) ≡ 4 + (n + length body) = omega (
        arith,
        length-append (le_bytes 4 n) (buf ++ body),
        length-le_bytes 4 n,
        length-append buf body,
      ) in
      rw
        (
          append_assoc,
          le→leb 4 (length (le_bytes 4 n ++ (buf ++ body))) (omega (arith, size)),
          le_word-le_bytes 4 n (buf ++ body) small,
          le→leb (4 + n) (length (le_bytes 4 n ++ (buf ++ body))) (omega (arith, size)),
          drop-le_bytes 4 n (buf ++ body),
          take-append buf body,
          drop-append buf body,
        )
        (rw (
          dict_buf_lem d few,
          le→leb 2 (length (le_bytes 2 (length d.dict) ++ pack_strings [] d.dict)) (
              omega (
                arith,
                length-append (le_bytes 2 (length d.dict)) (pack_strings [] d.dict),
                length-le_bytes 2 (length d.dict),
              )),
          le_word-le_bytes 2 (length d.dict) (pack_strings [] d.dict) (omega arith),
          drop-le_bytes 2 (length d.dict) (pack_strings [] d.dict),
          ← append-nil (pack_strings [] d.dict),
          read_strings-pack_strings d.dict [] h,
          decompress-column z lossless (words_bytes 2 d.indices) (length d.indices) 2
              (omega (arith, length-words_bytes 2 d.indices))
              (omega (arith, length-words_bytes 2 d.indices)),
          read_words-words_bytes 2 d.indices words,
        ))
