-- ===== src/Wal/Scanner.antt =====
-- wal/scanner.go, and ReadEntriesFrom of wal/binary.go. The io.Reader is the bytes it has left;
-- the reused record buffer does not show in what is returned.
pub mod Progress
pub mod Frames
pub mod Resume
use opentrace.Base.{
  ℕ, zero, suc, ◌+◌, ◌-◌, List, [], ◌∷◌, ◌++◌, Bytes, Bool, ◌||◌, length, take, drop, leb, ltb,
  if◌then◌else◌, Option, none, some, Result, ok, err,
}
use opentrace.Encoding.Word.{le_word}
use opentrace.Encoding.Zstd.{Zstd}
use opentrace.Wal.Entry.{Entry}
use opentrace.Wal.Field.{WalError}
use opentrace.Wal.Record.{min_record_bytes, max_record_bytes, unmarshal_entry}

pub data ScanError : Type 0 where
  read_length read_record : ScanError
  invalid_length : ℕ → ScanError
  bad_entry : WalError → ScanError

pub record Scanner : Type 0 where
  pub input : Bytes
  pub consumed : ℕ
  pub error : Option ScanError

unfoldable pub new_scanner : Bytes → Scanner
new_scanner input = record { input = input; consumed = 0; error = none }

-- A failure is remembered; the reader has moved on to `input`.
abbrev pub fail_scan : Scanner → Bytes → ScanError → Scanner × Option Entry
fail_scan s input e = (record s { input = input; error = some e }, none)

module _ (z : Zstd) where
  -- The end of Next, on the record that was read and the input behind it.
  abbrev finish : Scanner → Bytes → ℕ → Result WalError Entry → Scanner × Option Entry
  finish s rest entry_len (err e) = fail_scan s rest (bad_entry e)
  finish s rest entry_len (ok entry) =
      (record s { input = rest; consumed = s.consumed + (4 + entry_len) }, some entry)

  -- Next on an input that holds at least a length.
  unfoldable pub next_record : Scanner → Scanner × Option Entry
  next_record s =
      let entry_len = le_word 4 s.input in
      let body = drop 4 s.input in
      if ltb entry_len min_record_bytes || ltb max_record_bytes entry_len
      then fail_scan s body (invalid_length entry_len)
      else if ltb (length body) entry_len
      then fail_scan s [] read_record
      else finish s (drop entry_len body) entry_len (unmarshal_entry z (take entry_len body))

  -- Next without an earlier error: no byte is the end of the file, one to three are an error.
  unfoldable pub next_on : Scanner → Bytes → Scanner × Option Entry
  unfolding next_record
  next_on s [] = (s, none)
  next_on s (b ∷ bs) = if ltb (length (b ∷ bs)) 4 then fail_scan s [] read_length else next_record s

  abbrev unless_failed : Option ScanError → Scanner → Scanner × Option Entry
  unless_failed (some e) s = (s, none)
  unless_failed none s = next_on s s.input

  unfoldable pub next : Scanner → Scanner × Option Entry
  next s = unless_failed s.error s

  -- `for { if !sc.Next(&e) { break }; entries = append(entries, e) }`
  abbrev collect : (Scanner → List Entry × Scanner) → Scanner × Option Entry → List Entry × Scanner
  collect more (s, none) = ([], s)
  collect more (s, some e) = let (es, s') = more s in (e ∷ es, s')

  unfoldable pub scan_all : ℕ → Scanner → List Entry × Scanner
  scan_all zero s = ([], s)
  scan_all (suc fuel) s = collect (λ t. scan_all fuel t) (next s)

  -- The entries, the bytes consumed by whole records, and the error that stopped the scan. Every
  -- record takes a byte at least, so the length of the file is fuel enough.
  unfoldable pub read_entries_from : Bytes → List Entry × Scanner
  read_entries_from file = scan_all (suc (length file)) (new_scanner file)

  -- `for len(dst) < max`, over the entries that are still to be added.
  unfoldable pub next_batch : ℕ → Scanner → List Entry × Scanner
  next_batch zero s = ([], s)
  next_batch (suc left) s = collect (λ t. next_batch left t) (next s)
