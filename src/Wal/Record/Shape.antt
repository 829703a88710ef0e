-- ===== src/Wal/Record/Shape.antt =====
-- A record is its length and its payload, and is never longer than its reader accepts.
use opentrace.Base.{
  ℕ, ◌+◌, ◌-◌, ◌≤◌, ◌≡◌, [], ◌∷◌, ◌++◌, arith, Bytes, Bool, length, append_assoc, length-append,
  take-append, drop-append_add, Bool-cases, inl, inr,
}
use opentrace.Encoding.Word.{le_bytes, length-le_bytes}
use opentrace.Encoding.Zstd.{Zstd}
use opentrace.Wal.Entry.{Entry}
use opentrace.Wal.Field.Laws.{length-append_string}
use opentrace.Wal.Group.RoundTrip.{
  length-context_bytes, length-http_bytes, length-perf_bytes, length-failure_bytes,
  length-job_bytes,
}
use opentrace.Wal.Level.RoundTrip.{length-level_bytes}
use opentrace.Wal.Record.Flagged.{flag_word, has-body}
use opentrace.Wal.Record.Body.{keeps_body-bounds}
use opentrace.Wal.Record.{
  max_compressed_body_bytes, max_record_bytes, min_record_bytes, encoded_body, keeps_body,
  body_bytes, payload, append_entry, put_uint32_at,
}

-- Filling a placeholder of four bytes.
put_uint32_at_placeholder :
    (buf rest : Bytes) (n : ℕ)
    → put_uint32_at ((buf ++ 0 ∷ 0 ∷ 0 ∷ 0 ∷ []) ++ rest) (length buf) n
      ≡ buf ++ (le_bytes 4 n ++ rest)
unfolding put_uint32_at
put_uint32_at_placeholder buf rest n = rw (
  append_assoc,
  take-append buf (0 ∷ 0 ∷ 0 ∷ 0 ∷ rest),
  drop-append_add buf (0 ∷ 0 ∷ 0 ∷ 0 ∷ rest) 4,
)

-- AppendEntry keeps the buffer and appends the length of the payload and the payload.
pub append_entry_lem :
    (z : Zstd) (compress_bodies : Bool) (buf : Bytes) (e : Entry)
    → append_entry z compress_bodies buf e
      ≡ buf ++ (le_bytes 4 (length (payload z compress_bodies e)) ++ payload z compress_bodies e)
unfolding append_entry
append_entry_lem z c buf e =
    let hole : Bytes = 0 ∷ 0 ∷ 0 ∷ 0 ∷ [] in
    let p = payload z c e in
    let size : length ((buf ++ hole) ++ p) - length buf - 4 ≡ length p =
      omega (arith, length-append (buf ++ hole) p, length-append buf hole) in
    rw size (put_uint32_at_placeholder buf p (length p))

length-body_bytes :
    (z : Zstd) (compress_bodies : Bool) (e : Entry)
    → length (body_bytes z compress_bodies (flag_word z compress_bodies e) e.body)
      ≤ 4 + max_compressed_body_bytes
unfolding body_bytes
length-body_bytes z c e = elim (Bool-cases (keeps_body z c e.body)) [
  | inl keep ↦
      rw (has-body z c e, keep, length-append)
        (omega (
          arith,
          (keeps_body-bounds z c e.body keep).1,
          length-le_bytes 4 (length (encoded_body z c e.body)),
        ))
  | inr drops ↦ rw (has-body z c e, drops) (omega arith)
]

-- Whatever the entry and the codec, the payload of its record is at least minRecordBytes and at
-- most maxRecordBytes long, so the reader never refuses what the writer wrote for its length.
pub length-payload :
    (z : Zstd) (compress_bodies : Bool) (e : Entry)
    → (min_record_bytes ≤ length (payload z compress_bodies e))
      × (length (payload z compress_bodies e) ≤ max_record_bytes)
unfolding payload flag_word
length-payload z c e =
    let flags = flag_word z c e in
    simp length-append (
      omega (
        arith,
        length-le_bytes 8 e.id,
        length-le_bytes 8 e.ts,
        length-le_bytes 8 e.received_at,
        length-le_bytes 8 flags,
        length-level_bytes e.level,
        length-append_string e.service,
        length-append_string e.message,
        length-context_bytes flags e.context,
        length-http_bytes flags e.http,
        length-perf_bytes flags e.perf,
        length-failure_bytes flags e.failure,
        length-job_bytes flags e.job,
        length-body_bytes z c e,
      ))
