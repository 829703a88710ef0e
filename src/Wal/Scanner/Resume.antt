-- ===== src/Wal/Scanner/Resume.antt =====
-- A log file of whole records, one that ends inside a record, and a scan that resumes at the offset
-- an earlier scan reported (internal/logstore/wal/scanner.go).
use opentrace.Base.{
  ℕ, suc, ◌≡◌, sym, ap, ◌∙◌, List, [], ◌∷◌, ◌++◌, arith, Bytes, All, length, drop, drop-append,
  append-nil, Bool, map,
}
use native.Mathlib.Nat.{zero-add}
use opentrace.Encoding.Zstd.{Zstd, IsLossless}
use opentrace.Wal.Entry.{Entry}
use opentrace.Wal.Record.RoundTrip.{IsStorable, stored_entry}
use opentrace.Wal.Scanner.{Scanner, new_scanner, scan_all, read_entries_from}
use opentrace.Wal.Scanner.Frames.{
  scanning, frame, append_entries, frames, append_entries-frames, scan_all-frames, torn_error,
  scan_all_done, scan_all_torn,
}

module _ (z : Zstd) (lossless : IsLossless z) (c : Bool) where
  -- The records of a file, in front of a tail that no record can be read from.
  read_frames :
      (es : List Entry) (tail : Bytes) (s : Scanner)
      → All IsStorable es
      → ((f : ℕ) → scan_all z (suc f) (scanning tail (length (frames z c es))) ≡ ([], s))
      → read_entries_from z (frames z c es ++ tail) ≡ (map (stored_entry z c) es, s)
  unfolding read_entries_from new_scanner
  read_frames es tail s h stops =
      let file : Bytes = frames z c es ++ tail in
      scan_all-frames z lossless c es tail 0 (suc (length file)) h (omega arith)
      ∙ rw (
        zero-add (length (frames z c es)),
        stops (length file),
        append-nil (map (stored_entry z c) es),
      )

  -- A file of appended storable entries is read back whole: every entry as it is stored, every byte
  -- consumed, and no error.
  pub read_entries_from-append_entries :
      (es : List Entry)
      → All IsStorable es
      → read_entries_from z (append_entries z c [] es)
        ≡ (map (stored_entry z c) es, scanning [] (length (append_entries z c [] es)))
  read_entries_from-append_entries es h =
      let whole = frames z c es in
      rw (append_entries-frames z c [] es) (
        ap (λ (l : Bytes). read_entries_from z l) (sym (append-nil whole))
        ∙ read_frames es [] (scanning [] (length whole)) h (λ f. scan_all_done z f (length whole)))

  -- A file of whole storable records that ends in a proper prefix of a record gives the entries of
  -- the whole records, does not count the bytes of the torn one, and reports an error exactly when
  -- there are any: of the length below four bytes, of the record from there on.
  pub read_entries_from_torn :
      (es : List Entry) (e : Entry) (front : Bytes) (x : ℕ) (back : Bytes)
      → All IsStorable es
      → append_entries z c [] (e ∷ []) ≡ front ++ (x ∷ back)
      → read_entries_from z (append_entries z c [] es ++ front) ≡ (
        map (stored_entry z c) es,
        record (scanning [] (length (append_entries z c [] es))) { error = torn_error front },
      )
  read_entries_from_torn es e front x back h cut =
      let cut' : frame z c e ≡ front ++ (x ∷ back) =
        sym (append-nil (frame z c e)) ∙ sym (append_entries-frames z c [] (e ∷ [])) ∙ cut in
      rw (append_entries-frames z c [] es) (
        read_frames es front _ h
          (λ f. scan_all_torn z c f e front x back (length (frames z c es)) cut'))

  -- After a scan of whole storable records in front of a proper prefix of a record, once that
  -- record is complete and more storable ones are appended, a scan from the offset that the first
  -- scan reported reads exactly the entries that the first scan did not.
  pub read_entries_from_resume :
      (es more : List Entry) (e : Entry) (front : Bytes) (x : ℕ) (back : Bytes)
      → All IsStorable es
      → All IsStorable (e ∷ more)
      → append_entries z c [] (e ∷ []) ≡ front ++ (x ∷ back)
      → let offset = (read_entries_from z (append_entries z c [] es ++ front)).1.consumed in
        let later = append_entries z c (append_entries z c [] es) (e ∷ more) in
        (read_entries_from z (drop offset later)).0 ≡ map (stored_entry z c) (e ∷ more)
  read_entries_from_resume es more e front x back h k cut =
      let file : Bytes = append_entries z c [] es in
      let suffix : Bytes = frames z c (e ∷ more) in
      rw (
        read_entries_from_torn es e front x back h cut,
        append_entries-frames z c file (e ∷ more),
        drop-append file suffix,
        ← append_entries-frames z c [] (e ∷ more),
        read_entries_from-append_entries (e ∷ more) k,
      )
