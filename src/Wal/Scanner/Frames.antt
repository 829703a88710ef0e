-- ===== src/Wal/Scanner/Frames.antt =====
-- What the scanner of internal/logstore/wal/scanner.go meets in a file: whole records one after
-- the other, and a record that is cut short.
use opentrace.Base.{
  ℕ, zero, suc, ◌+◌, ◌≤◌, ◌<◌, ◌≡◌, refl, sym, ap, ◌∙◌, List, [], ◌∷◌, ◌++◌, arith, Bytes, All,
  length, drop, append_assoc, length-append, take-append, drop-append, append-nil, length-drop, ltb,
  ltb-false, lt→ltb, ltb→lt, Bool-cases, inl, inr, if◌then◌else◌, Bool, Option, none, some, ok, map,
}
use opentrace.Encoding.Zstd.{Zstd, IsLossless}
use opentrace.Encoding.Word.{
  le_bytes, le_word, length-le_bytes, le_word-le_bytes, drop-le_bytes, le_word-append,
}
use opentrace.Wal.Entry.{Entry}
use opentrace.Wal.Record.{
  payload, append_entry, unmarshal_entry, min_record_bytes, max_record_bytes,
}
use opentrace.Wal.Record.Shape.{append_entry_lem, length-payload}
use opentrace.Wal.Record.RoundTrip.{IsStorable, stored_entry, unmarshal_entry-payload}
use opentrace.Wal.Scanner.{
  Scanner, ScanError, read_length, read_record, fail_scan, next_record, next_on, next, scan_all,
}
use opentrace.Wal.Scanner.Progress.{scan_all_fuel}

-- A scanner without an error.
abbrev pub scanning : Bytes → ℕ → Scanner
scanning input consumed = record { input = input; consumed = consumed; error = none }

module _ (z : Zstd) (c : Bool) where
  -- One record as it stands in a file.
  unfoldable pub frame : Entry → Bytes
  frame e = le_bytes 4 (length (payload z c e)) ++ payload z c e

  -- Appending a batch of entries to a file.
  unfoldable pub append_entries : Bytes → List Entry → Bytes
  append_entries file [] = file
  append_entries file (e ∷ es) = append_entries (append_entry z c file e) es

  abbrev pub frames : List Entry → Bytes
  frames [] = []
  frames (e ∷ es) = frame e ++ frames es

  pub append_entries-frames :
      (file : Bytes) (es : List Entry) → append_entries file es ≡ file ++ frames es
  unfolding append_entries frame
  append_entries-frames file [] = sym (append-nil file)
  append_entries-frames file (e ∷ es) =
      append_entries-frames (append_entry z c file e) es
      ∙ rw (append_entry_lem z c file e) (append_assoc file (frame e) (frames es))

module _ (z : Zstd) where
  next_on_long : (s : Scanner) (bs : Bytes) → 4 ≤ length bs → next_on z s bs ≡ next_record z s
  unfolding next_on
  next_on_long s [] h = absurd (omega arith)
  next_on_long s (b ∷ bs) h = rw (ltb-false (length (b ∷ bs)) 4 h)

  next_on_short :
      (s : Scanner) (b : ℕ) (bs : Bytes)
      → length (b ∷ bs) < 4
      → next_on z s (b ∷ bs) ≡ fail_scan s [] read_length
  unfolding next_on
  next_on_short s b bs h = rw (lt→ltb (length (b ∷ bs)) 4 h)

  next_record_block :
      (p rest : Bytes) (n : ℕ) (e : Entry)
      → min_record_bytes ≤ length p
      → length p ≤ max_record_bytes
      → unmarshal_entry z p ≡ ok e
      → next_record z (scanning ((le_bytes 4 (length p) ++ p) ++ rest) n)
        ≡ (scanning rest (n + (4 + length p)), some e)
  unfolding next_record
  next_record_block p rest n e lo hi decodes = rw (
    append_assoc,
    le_word-le_bytes 4 (length p) (p ++ rest) (omega arith),
    drop-le_bytes 4 (length p) (p ++ rest),
    ltb-false (length p) min_record_bytes lo,
    ltb-false max_record_bytes (length p) hi,
    ltb-false (length (p ++ rest)) (length p) (omega (arith, length-append p rest)),
    take-append p rest,
    drop-append p rest,
    decodes,
  )

  -- A block that ends early.
  next_record_torn :
      (front : Bytes) (n len : ℕ)
      → min_record_bytes ≤ len
      → len ≤ max_record_bytes
      → le_word 4 front ≡ len
      → length front < 4 + len
      → next_record z (scanning front n) ≡ fail_scan (scanning front n) [] read_record
  unfolding next_record
  next_record_torn front n len lo hi word short = rw (
    word,
    ltb-false len min_record_bytes lo,
    ltb-false max_record_bytes len hi,
    lt→ltb (length (drop 4 front)) len (omega (arith, length-drop 4 front)),
  )

module _ (z : Zstd) (lossless : IsLossless z) (c : Bool) where
  next-frame :
      (e : Entry) (rest : Bytes) (n : ℕ)
      → IsStorable e
      → next z (scanning (frame z c e ++ rest) n)
        ≡ (scanning rest (n + length (frame z c e)), some (stored_entry z c e))
  unfolding next frame
  next-frame e rest n h =
      let p = payload z c e in
      let (lo, hi) = length-payload z c e in
      let size : length (le_bytes 4 (length p) ++ p) ≡ 4 + length p =
        omega (arith, length-append (le_bytes 4 (length p)) p, length-le_bytes 4 (length p)) in
      next_on_long z _ ((le_bytes 4 (length p) ++ p) ++ rest)
        (omega (arith, length-append (le_bytes 4 (length p) ++ p) rest, size))
      ∙ rw size (
          next_record_block z p rest n (stored_entry z c e) lo hi
            (unmarshal_entry-payload z lossless c e h))

  frame_long : (e : Entry) → 4 ≤ length (frame z c e)
  unfolding frame
  frame_long e =
      let p = payload z c e in
      omega (arith, length-append (le_bytes 4 (length p)) p, length-le_bytes 4 (length p))

  -- Whole records are read one after the other.
  pub scan_all-frames :
      (es : List Entry) (tail : Bytes) (n f : ℕ)
      → All IsStorable es
      → length (frames z c es ++ tail) < f
      → scan_all z f (scanning (frames z c es ++ tail) n) ≡ (
          let (more, s) = scan_all z f (scanning tail (n + length (frames z c es))) in
          (map (stored_entry z c) es ++ more, s))
  unfolding scan_all
  scan_all-frames [] tail n f h k = let e : n + 0 ≡ n = omega arith in rw e
  scan_all-frames (e ∷ es) tail n zero h k = absurd (omega arith)
  scan_all-frames (e ∷ es) tail n (suc f) h k =
      let more : Bytes = frames z c es ++ tail in
      let m : ℕ = n + length (frame z c e) in
      let size : length (frame z c e ++ more) ≡ length (frame z c e) + length more =
        length-append (frame z c e) more in
      let some_bytes : 4 ≤ length (frame z c e) = frame_long e in
      let room : length more < f =
        omega
          (arith, ap (λ (l : Bytes). length l) (append_assoc (frame z c e) (frames z c es) tail)) in
      let total : n + length (frames z c (e ∷ es)) ≡ m + length (frames z c es) =
        omega (arith, length-append (frame z c e) (frames z c es)) in
      rw (append_assoc, next-frame e more n h.0, scan_all-frames es tail m f h.1 room, total)
        (rw (
          scan_all_fuel z f (suc f) (scanning tail (m + length (frames z c es)))
            (omega (arith, length-append (frames z c es) tail))
            (omega (arith, length-append (frames z c es) tail))))

-- The error of a scan that meets `front`, what is left of a record that was cut short.
abbrev pub torn_error : Bytes → Option ScanError
torn_error [] = none
torn_error (b ∷ bs) = if ltb (length (b ∷ bs)) 4 then some read_length else some read_record

pub scan_all_done : (z : Zstd) (f n : ℕ) → scan_all z (suc f) (scanning [] n) ≡ ([], scanning [] n)
unfolding scan_all next next_on
scan_all_done z f n = refl

module _ (z : Zstd) (c : Bool) where
  -- A proper prefix of a record is no record.
  next_torn :
      (e : Entry) (front : Bytes) (x : ℕ) (back : Bytes) (n : ℕ)
      → frame z c e ≡ front ++ (x ∷ back)
      → next z (scanning front n) ≡ (record (scanning [] n) { error = torn_error front }, none)
  unfolding next frame
  next_torn e [] x back n cut = unfold next_on in refl
  next_torn e (b ∷ bs) x back n cut = elim (Bool-cases (ltb (length (b ∷ bs)) 4)) [
    | inl short ↦ rw short (next_on_short z (scanning (b ∷ bs) n) b bs (ltb→lt _ _ short))
    | inr long ↦
        let front : Bytes = b ∷ bs in
        let p = payload z c e in
        let (lo, hi) = length-payload z c e in
        let head : Bytes = le_bytes 4 (length p) in
        let enough : 4 ≤ length front = ground arith in
        let word : le_word 4 front ≡ length p =
          sym (le_word-append 4 front (x ∷ back) enough)
          ∙ rw (← cut) (le_word-le_bytes 4 (length p) p (omega arith)) in
        let size : length front < 4 + length p = omega (
          arith,
          ap (λ (l : Bytes). length l) cut,
          length-append front (x ∷ back),
          length-append head p,
          length-le_bytes 4 (length p),
        ) in
        rw long (
          next_on_long z (scanning front n) front enough
          ∙ next_record_torn z front n (length p) lo hi word size)
  ]

  -- The scan of such a front reads nothing.
  pub scan_all_torn :
      (f : ℕ) (e : Entry) (front : Bytes) (x : ℕ) (back : Bytes) (n : ℕ)
      → frame z c e ≡ front ++ (x ∷ back)
      → scan_all z (suc f) (scanning front n)
        ≡ ([], record (scanning [] n) { error = torn_error front })
  unfolding scan_all
  scan_all_torn f e front x back n cut = rw (next_torn e front x back n cut)
