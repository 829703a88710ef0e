-- ===== src/Wal/Record/Body.antt =====
-- The body of a record is read back, unless it is over the limit once encoded.
use opentrace.Base.{
  ℕ, ◌^◌, ◌≤◌, ◌<◌, ◌≡◌, ◌∙◌, [], ◌++◌, arith, Bytes, Bool, true, false, not, ◌&&◌, length,
  if◌then◌else◌, ok, append_assoc, length-append, le→leb, inl, inr, Bool-cases, take-append,
  drop-append, ◌>>=◌,
}
use opentrace.Encoding.Word.{le_bytes, length-le_bytes, le_word-le_bytes, drop-le_bytes}
use opentrace.Encoding.Zstd.{Zstd, IsLossless, max_block_bytes}
use opentrace.Encoding.Zstd.Bounds.{decompress-compress}
use opentrace.Wal.Flags.{has, flag_raw_body, flag_body}
use opentrace.Wal.Field.{is_present}
use opentrace.Wal.Record.{
  max_compressed_body_bytes, encoded_body, keeps_body, body_bytes, read_body, decode_body,
}

-- What is stored of a body: nothing, if it is over the limit once encoded.
abbrev pub stored_body : Zstd → Bool → Bytes → Bytes
stored_body z compress_bodies body = if keeps_body z compress_bodies body then body else []

-- A body that is kept is present, and small once encoded.
pub keeps_body-bounds :
    (z : Zstd) (compress_bodies : Bool) (body : Bytes)
    → keeps_body z compress_bodies body ≡ true
    → (is_present body ≡ true)
      × (length (encoded_body z compress_bodies body) ≤ max_compressed_body_bytes)
unfolding keeps_body
keeps_body-bounds z compress_bodies body h = ground arith

module _ (z : Zstd) (lossless : IsLossless z) where
  decode_body_lem :
      (compress_bodies : Bool) (flags : ℕ) (body : Bytes)
      → length body ≤ max_block_bytes
      → has flags flag_raw_body ≡ not compress_bodies
      → decode_body z flags (encoded_body z compress_bodies body) ≡ ok body
  unfolding encoded_body decode_body
  decode_body_lem true flags body fits h = rw (h, decompress-compress z lossless body fits)
  decode_body_lem false flags body fits h = rw h

  -- A block behind its length.
  read_block :
      (flags : ℕ) (block rest : Bytes)
      → has flags flag_body ≡ true
      → length block < 2 ^ 32
      → read_body z flags ((le_bytes 4 (length block) ++ block) ++ rest)
        ≡ (decode_body z flags block >>= λ body. ok (body, rest))
  unfolding read_body
  read_block flags block rest h small = rw (
    h,
    append_assoc,
    le→leb 4 (length (le_bytes 4 (length block) ++ (block ++ rest))) (
        omega (
          arith,
          length-append (le_bytes 4 (length block)) (block ++ rest),
          length-le_bytes 4 (length block),
        )),
    le_word-le_bytes 4 (length block) (block ++ rest) small,
    drop-le_bytes 4 (length block) (block ++ rest),
    le→leb (length block) (length (block ++ rest)) (omega (arith, length-append block rest)),
    take-append block rest,
    drop-append block rest,
  )

  kept_body :
      (compress_bodies : Bool) (flags : ℕ) (body rest : Bytes)
      → length body ≤ max_block_bytes
      → keeps_body z compress_bodies body ≡ true
      → has flags flag_body ≡ true
      → has flags flag_raw_body ≡ (is_present body && not compress_bodies)
      → read_body z flags (body_bytes z compress_bodies flags body ++ rest) ≡ ok (body, rest)
  unfolding body_bytes
  kept_body c flags body rest fits keep h raw =
      let (present, small) = keeps_body-bounds z c body keep in
      rw (h, read_block flags (encoded_body z c body) rest h (omega arith))
        (rw (decode_body_lem c flags body fits (rw present at raw)))

  pub read_body_lem :
      (compress_bodies : Bool) (flags : ℕ) (body rest : Bytes)
      → length body ≤ max_block_bytes
      → has flags flag_body ≡ keeps_body z compress_bodies body
      → has flags flag_raw_body ≡ (is_present body && not compress_bodies)
      → read_body z flags (body_bytes z compress_bodies flags body ++ rest)
        ≡ ok (stored_body z compress_bodies body, rest)
  read_body_lem c flags body rest fits h raw = elim (Bool-cases (keeps_body z c body)) [
    | inl keep ↦ rw keep (kept_body c flags body rest fits keep (h ∙ keep) raw)
    | inr drops ↦ rw drops (unfold read_body body_bytes in rw (h ∙ drops))
  ]
