-- ===== src/Wal/Record/RoundTrip.antt =====
-- A record is read back as it is stored.
use opentrace.Base.{
  ℕ, ◌≤◌, ◌≡◌, ◌∙◌, [], ◌∷◌, ◌++◌, arith, Bytes, IsWord, Bool, length, ok, append-nil,
  length-append, le→leb,
}
use opentrace.Encoding.Word.{le_bytes, length-le_bytes, le_word-le_bytes, drop-le_bytes}
use opentrace.Encoding.Zstd.{Zstd, IsLossless, max_block_bytes}
use opentrace.Wal.Entry.{Entry}
use opentrace.Wal.Field.{append_string, truncate_field}
use opentrace.Wal.Field.Laws.{read_string-append_string}
use opentrace.Wal.Group.{context_bytes, http_bytes, perf_bytes, failure_bytes, job_bytes}
use opentrace.Wal.Group.RoundTrip.{
  stored_context, stored_http, stored_perf, stored_failure, stored_job, read_context_lem,
  read_http_lem, read_perf_lem, read_failure_lem, read_job_lem,
}
use opentrace.Wal.Level.{level_enum, level_bytes}
use opentrace.Wal.Level.RoundTrip.{stored_level, read_level_lem}
use opentrace.Wal.Record.{body_bytes, payload, read_fields, min_record_bytes, unmarshal_entry}
use opentrace.Wal.Record.Flagged.{
  flag_word, has-extended, context-Agrees, http-Agrees, perf-Agrees, failure-Agrees, job-Agrees,
  has-body, has-raw, flag_word-IsWord,
}
use opentrace.Wal.Record.Body.{stored_body, read_body_lem}

-- What an entry is stored as.
abbrev pub stored_entry : Zstd → Bool → Entry → Entry
stored_entry z compress_bodies e = record {
  id = e.id;
  ts = e.ts;
  received_at = e.received_at;
  level = stored_level e.level;
  service = truncate_field e.service;
  message = truncate_field e.message;
  context = stored_context e.context;
  http = stored_http e.http;
  perf = stored_perf e.perf;
  failure = stored_failure e.failure;
  job = stored_job e.job;
  body = stored_body z compress_bodies e.body;
}

module _ (z : Zstd) (lossless : IsLossless z) where
  fields_lem :
      (compress_bodies : Bool) (e : Entry)
      → length e.body ≤ max_block_bytes
      → let flags = flag_word z compress_bodies e in
        read_fields z e.id e.ts e.received_at (level_enum e.level) flags (
          level_bytes e.level
          ++ (append_string [] e.service
              ++ (append_string [] e.message
                  ++ (context_bytes flags e.context
                      ++ (http_bytes flags e.http
                          ++ (perf_bytes flags e.perf
                              ++ (failure_bytes flags e.failure
                                  ++ (job_bytes flags e.job
                                      ++ body_bytes z compress_bodies flags e.body))))))))
        ≡ ok (stored_entry z compress_bodies e)
  unfolding read_fields
  fields_lem c e fits =
      let flags = flag_word z c e in
      rw (
        has-extended z c e,
        read_level_lem flags e.level _ (has-extended z c e),
        read_string-append_string e.service _,
        read_string-append_string e.message _,
        read_context_lem flags e.context _ (context-Agrees z c e),
        read_http_lem flags e.http _ (http-Agrees z c e),
        read_perf_lem flags e.perf _ (perf-Agrees z c e),
        read_failure_lem flags e.failure _ (failure-Agrees z c e),
        read_job_lem flags e.job _ (job-Agrees z c e),
        ← append-nil (body_bytes z c flags e.body),
        read_body_lem z lossless c flags e.body [] fits (has-body z c e) (has-raw z c e),
      )

-- The fixed prefix of a record.
unmarshal_entry_prefix :
    (z : Zstd) (id ts received_at lvl flags : ℕ) (rest : Bytes)
    → IsWord 64 id
    → IsWord 64 ts
    → IsWord 64 received_at
    → IsWord 64 flags
    → unmarshal_entry z (
        le_bytes 8 id
        ++ (le_bytes 8 ts ++ (le_bytes 8 received_at ++ (lvl ∷ (le_bytes 8 flags ++ rest)))))
      ≡ read_fields z id ts received_at lvl flags rest
unfolding unmarshal_entry
unmarshal_entry_prefix z id ts received_at lvl flags rest hid hts hrec hfl =
    let b4 = le_bytes 8 flags ++ rest in
    let b2 = le_bytes 8 received_at ++ (lvl ∷ b4) in
    let b1 = le_bytes 8 ts ++ b2 in
    rw (
      le→leb min_record_bytes (length (le_bytes 8 id ++ b1)) (
          omega (
            arith,
            length-append (le_bytes 8 id) b1,
            length-append (le_bytes 8 ts) b2,
            length-append (le_bytes 8 received_at) (lvl ∷ b4),
            length-append (le_bytes 8 flags) rest,
            length-le_bytes 8 id,
            length-le_bytes 8 ts,
            length-le_bytes 8 received_at,
            length-le_bytes 8 flags,
          )),
      le_word-le_bytes 8 id b1 hid,
      drop-le_bytes 8 id b1,
      le_word-le_bytes 8 ts b2 hts,
      drop-le_bytes 8 ts b2,
      le_word-le_bytes 8 received_at (lvl ∷ b4) hrec,
      drop-le_bytes 8 received_at (lvl ∷ b4),
      le_word-le_bytes 8 flags rest hfl,
      drop-le_bytes 8 flags rest,
    )

-- The words of an entry are int64s, and its body is within the codec's limit.
pub record IsStorable (e : Entry) : Type 0 where
  pub id_word : IsWord 64 e.id
  pub ts_word : IsWord 64 e.ts
  pub received_word : IsWord 64 e.received_at
  pub body_fits : length e.body ≤ max_block_bytes

-- Over a lossless codec, UnmarshalEntry reads the payload that MarshalEntry writes for an entry
-- with int64 id and times and a body of at most 2 GiB as the entry that is stored: its strings cut
-- at MaxFieldBytes on a rune boundary, its ints kept where positive, its status modulo 65536, its
-- level through the enum, and its body unless it is over the limit once encoded.
pub unmarshal_entry-payload :
    (z : Zstd)
    → IsLossless z
    → (compress_bodies : Bool) (e : Entry) → IsStorable e
    → unmarshal_entry z (payload z compress_bodies e) ≡ ok (stored_entry z compress_bodies e)
unfolding payload flag_word
unmarshal_entry-payload z lossless c e h =
    unmarshal_entry_prefix z e.id e.ts e.received_at (level_enum e.level) (flag_word z c e) _
      h.id_word h.ts_word h.received_word (flag_word-IsWord z c e)
    ∙ fields_lem z lossless c e h.body_fits
