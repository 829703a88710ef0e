-- ===== src/Wal/Record.antt =====
-- wal/binary.go: one record of the log. MarshalEntry, AppendEntry and UnmarshalEntryInto.
-- `compress_bodies` is the package variable CompressBodies. Logging is not modelled.
pub mod Flagged
pub mod Body
pub mod RoundTrip
pub mod Shape
use opentrace.Base.{
  ℕ, ◌+◌, ◌-◌, ◌*◌, ◌^◌, List, [], ◌∷◌, ◌++◌, Bytes, Bool, true, false, not, ◌&&◌, length, take,
  drop, leb, ltb, if◌then◌else◌, Option, none, some, Result, ok, err, ◌>>=◌, ◌>>◌, guard, map_err,
  get_or, ◌==◌,
}
use opentrace.Encoding.Word.{le_bytes, le_word}
use opentrace.Encoding.Framing.{LenFormat, len_uint16, len_extended, read_string}
use opentrace.Encoding.Zstd.{Zstd, compress, decompress}
use opentrace.Wal.Entry.{Entry}
use opentrace.Wal.Flags.{has, set_flags, flag_extended_strings, flag_raw_body, flag_body}
use opentrace.Wal.Field.{
  WalError, entry_too_short, trailing_bytes, bad_service, bad_message, truncated_field, bad_body,
  is_present, append_string,
}
use opentrace.Wal.Group.{
  context_flags, context_bytes, read_context, http_flags, http_bytes, read_http, perf_flags,
  perf_bytes, read_perf, failure_flags, failure_bytes, read_failure, job_flags, job_bytes, read_job,
}
use opentrace.Wal.Level.{level_enum, level_bytes, read_level}

abbrev pub max_compressed_body_bytes : ℕ
max_compressed_body_bytes = 8 * 2 ^ 20

abbrev pub max_record_bytes : ℕ
max_record_bytes = 48 * 2 ^ 20

abbrev pub min_record_bytes : ℕ
min_record_bytes = 33

-- `binary.LittleEndian.PutUint32(buf[at:at+4], n)`
unfoldable pub put_uint32_at : Bytes → ℕ → ℕ → Bytes
put_uint32_at buf at n = take at buf ++ (le_bytes 4 n ++ drop (at + 4) buf)

module _ (z : Zstd) where
  -- The bytes that a body is stored as, before the size check.
  unfoldable pub encoded_body : Bool → Bytes → Bytes
  encoded_body compress_bodies body = if compress_bodies then compress z body else body

  -- A body that is stored: present, and within the limit once encoded.
  unfoldable pub keeps_body : Bool → Bytes → Bool
  unfolding encoded_body
  keeps_body compress_bodies body =
      is_present body && leb (length (encoded_body compress_bodies body)) max_compressed_body_bytes

  -- The conditions on the flags, in the order of AppendEntry.
  abbrev pub entry_flag_list : Bool → Entry → List (ℕ × Bool)
  entry_flag_list compress_bodies e =
      context_flags e.context
      ++ (http_flags e.http
          ++ (perf_flags e.perf
              ++ (failure_flags e.failure
                  ++ (job_flags e.job
                      ++ ((flag_raw_body, is_present e.body && not compress_bodies)
                          ∷ (flag_body, keeps_body compress_bodies e.body)
                          ∷ [])))))

  unfoldable pub entry_flags : Bool → Entry → ℕ
  entry_flags compress_bodies e =
      set_flags (2 ^ flag_extended_strings) (entry_flag_list compress_bodies e)

  unfoldable pub body_bytes : Bool → ℕ → Bytes → Bytes
  body_bytes compress_bodies flags body =
      if has flags flag_body
      then le_bytes 4 (length (encoded_body compress_bodies body))
        ++ encoded_body compress_bodies body
      else []

  -- Everything of a record after its length.
  unfoldable pub payload : Bool → Entry → Bytes
  payload compress_bodies e =
      let flags = entry_flags compress_bodies e in
      le_bytes 8 e.id
      ++ (le_bytes 8 e.ts
          ++ (le_bytes 8 e.received_at
              ++ (level_enum e.level
                  ∷ (le_bytes 8 flags
                      ++ (level_bytes e.level
                          ++ (append_string [] e.service
                              ++ (append_string [] e.message
                                  ++ (context_bytes flags e.context
                                      ++ (http_bytes flags e.http
                                          ++ (perf_bytes flags e.perf
                                              ++ (failure_bytes flags e.failure
                                                  ++ (job_bytes flags e.job
                                                      ++ body_bytes compress_bodies flags
                                                          e.body))))))))))))

  -- The record is appended behind a placeholder, which is then filled with its length.
  unfoldable pub append_entry : Bool → Bytes → Entry → Bytes
  append_entry compress_bodies buf e =
      let rec_start = length buf in
      let full = (buf ++ 0 ∷ 0 ∷ 0 ∷ 0 ∷ []) ++ payload compress_bodies e in
      put_uint32_at full rec_start (length full - rec_start - 4)

  unfoldable pub marshal_entry : Bool → Entry → Bytes
  marshal_entry compress_bodies e = append_entry compress_bodies [] e

  -- A raw body is copied, any other decompressed.
  unfoldable pub decode_body : ℕ → Bytes → Result WalError Bytes
  decode_body flags stored =
      if has flags flag_raw_body then ok stored else map_err bad_body (decompress z stored)

  -- The body under its flags.
  unfoldable pub read_body : ℕ → Bytes → Result WalError (Bytes × Bytes)
  read_body flags bs =
      if has flags flag_body
      then (do
        guard (leb 4 (length bs)) (truncated_field flag_body)
        let body_len = le_word 4 bs
        let rest = drop 4 bs
        guard (leb body_len (length rest)) (truncated_field flag_body)
        body ← decode_body flags (take body_len rest)
        ok (body, drop body_len rest))
      else ok ([], bs)

  -- The fields after the fixed prefix.
  unfoldable pub read_fields : ℕ → ℕ → ℕ → ℕ → ℕ → Bytes → Result WalError Entry
  read_fields id ts received_at lvl flags bs = do
    let fmt = if has flags flag_extended_strings then len_extended else len_uint16
    (level, r0) ← read_level fmt flags lvl bs
    (service, r1) ← map_err bad_service (read_string fmt r0)
    (message, r2) ← map_err bad_message (read_string fmt r1)
    (context, r3) ← read_context fmt flags r2
    (http, r4) ← read_http fmt flags r3
    (perf, r5) ← read_perf flags r4
    (failure, r6) ← read_failure fmt flags r5
    (job, r7) ← read_job fmt flags r6
    (body, r8) ← read_body flags r7
    guard (length r8 == 0) trailing_bytes
    ok (record {
      id = id;
      ts = ts;
      received_at = received_at;
      level = level;
      service = service;
      message = message;
      context = context;
      http = http;
      perf = perf;
      failure = failure;
      job = job;
      body = body;
    })

  unfoldable pub unmarshal_entry : Bytes → Result WalError Entry
  unmarshal_entry bs = do
    guard (leb min_record_bytes (length bs)) entry_too_short
    let b1 = drop 8 bs
    let b2 = drop 8 b1
    let b3 = drop 8 b2
    let b4 = drop 1 b3
    read_fields (le_word 8 bs) (le_word 8 b1) (le_word 8 b2) (get_or b3 0 0) (le_word 8 b4)
        (drop 8 b4)
