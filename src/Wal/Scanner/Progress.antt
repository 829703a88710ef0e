-- ===== src/Wal/Scanner/Progress.antt =====
-- The scan ends at the end of the file or at an error, and never for want of fuel.
use opentrace.Base.{
  ℕ, zero, suc, ◌+◌, ◌<◌, ◌≡◌, refl, sym, ap, List, [], ◌∷◌, arith, Bytes, length, drop,
  length-drop, ltb, true, false, Option, none, some, ◌⊎◌, inl, inr, ◌≢◌, Bool-cases,
}
use opentrace.Encoding.Zstd.{Zstd}
use opentrace.Encoding.Word.{le_word}
use opentrace.Wal.Entry.{Entry}
use opentrace.Wal.Scanner.{
  Scanner, ScanError, new_scanner, next_record, next_on, next, unless_failed, collect, scan_all,
  read_entries_from,
}

-- What a successful read does to the scanner: it takes bytes, and counts those it takes.
pub record Took (s t : Scanner) : Type 0 where
  pub shrinks : length t.input < length s.input
  pub counts : t.consumed + length t.input ≡ s.consumed + length s.input
  pub no_error : t.error ≡ none

module _ (z : Zstd) where
  next_record-Took :
      (s t : Scanner) (e : Entry) → s.error ≡ none → next_record z s ≡ (t, some e) → Took s t
  unfolding next_record
  next_record-Took s t e clean h =
      ground (arith, length-drop 4 s.input, length-drop (le_word 4 s.input) (drop 4 s.input))

  next_on-Took :
      (s t : Scanner) (e : Entry) (bs : Bytes)
      → bs ≡ s.input
      → s.error ≡ none
      → next_on z s bs ≡ (t, some e)
      → Took s t
  unfolding next_on
  next_on-Took s t e [] same clean h = absurd (ground arith)
  next_on-Took s t e (b ∷ bs) same clean h =
      next_record-Took s t e clean (read_on (Bool-cases (ltb (length (b ∷ bs)) 4)))
    where
      read_on :
          (ltb (length (b ∷ bs)) 4 ≡ true) ⊎ (ltb (length (b ∷ bs)) 4 ≡ false)
          → next_record z s ≡ (t, some e)
      read_on (inl short) = absurd (cc (rw short at h))
      read_on (inr long) = rw long at h

  unless_failed-Took :
      (s t : Scanner) (e : Entry) (o : Option ScanError)
      → o ≡ s.error
      → unless_failed z o s ≡ (t, some e)
      → Took s t
  unless_failed-Took s t e none same h = next_on-Took s t e s.input refl (sym same) h
  unless_failed-Took s t e (some x) same h = absurd (cc)

  pub next-Took : (s t : Scanner) (e : Entry) → next z s ≡ (t, some e) → Took s t
  unfolding next
  next-Took s t e h = unless_failed-Took s t e s.error refl h

  next_record-end : (s t : Scanner) → next_record z s ≡ (t, none) → t.error ≢ none
  unfolding next_record
  next_record-end s t h clean = ground arith

  next_on-end :
      (s t : Scanner) (bs : Bytes)
      → bs ≡ s.input
      → next_on z s bs ≡ (t, none)
      → t.error ≡ none
      → (s.input ≡ []) × (t.consumed ≡ s.consumed)
  unfolding next_on
  next_on-end s t [] same h clean = ground arith
  next_on-end s t (b ∷ bs) same h clean = elim (Bool-cases (ltb (length (b ∷ bs)) 4)) [
    | inl short ↦ absurd (cc (rw short at h))
    | inr long ↦ absurd (next_record-end s t (rw long at h) clean)
  ]

  unless_failed-end :
      (s t : Scanner) (o : Option ScanError)
      → o ≡ s.error
      → unless_failed z o s ≡ (t, none)
      → t.error ≡ none
      → (s.input ≡ []) × (t.consumed ≡ s.consumed)
  unless_failed-end s t none same h clean = next_on-end s t s.input refl h clean
  unless_failed-end s t (some x) same h clean = absurd (ground arith)

  -- Without an error, Next reads nothing only at the end of the input.
  pub next-end :
      (s t : Scanner)
      → next z s ≡ (t, none)
      → t.error ≡ none
      → (s.input ≡ []) × (t.consumed ≡ s.consumed)
  unfolding next
  next-end s t h clean = unless_failed-end s t s.error refl h clean

  collect_same :
      (r : Scanner × Option Entry) (more more' : Scanner → List Entry × Scanner)
      → ((t : Scanner) (e : Entry) → r ≡ (t, some e) → more t ≡ more' t)
      → collect z more r ≡ collect z more' r
  collect_same (t, none) more more' h = refl
  collect_same (t, some e) more more' h = rw (h t e refl)

  -- The scan does not depend on the fuel, once there is more than the input is long.
  pub scan_all_fuel :
      (f g : ℕ) (s : Scanner)
      → length s.input < f
      → length s.input < g
      → scan_all z f s ≡ scan_all z g s
  unfolding scan_all
  scan_all_fuel zero g s h k = absurd (omega arith)
  scan_all_fuel (suc f) zero s h k = absurd (omega arith)
  scan_all_fuel (suc f) (suc g) s h k =
      collect_same (next z s) (λ t. scan_all z f t) (λ t. scan_all z g t)
        λ t e r.
          scan_all_fuel f g t (omega (arith, (next-Took s t e r).shrinks))
            (omega (arith, (next-Took s t e r).shrinks))

  -- Where a scan ends without an error, the input is used up and every byte is counted.
  scan_all-counts :
      (f : ℕ) (s : Scanner)
      → length s.input < f
      → (scan_all z f s).1.error ≡ none
      → (scan_all z f s).1.consumed ≡ s.consumed + length s.input
  unfolding scan_all
  scan_all-counts zero s h clean = absurd (omega arith)
  scan_all-counts (suc f) s h clean = by_result (scan_all-counts f) (next z s) refl clean
    where
      rest : Scanner → List Entry × Scanner
      rest t = scan_all z f t

      by_result :
          ((t : Scanner)
            → length t.input < f
            → (rest t).1.error ≡ none
            → (rest t).1.consumed ≡ t.consumed + length t.input)
          → (r : Scanner × Option Entry) → next z s ≡ r
          → (collect z rest r).1.error ≡ none
          → (collect z rest r).1.consumed ≡ s.consumed + length s.input
      by_result ih (t, none) e c =
          let (used_up, same) = next-end s t e c in
          omega (arith, ap (λ (l : Bytes). length l) used_up)
      by_result ih (t, some x) e c =
          let took = next-Took s t x e in
          omega (arith, took.counts, ih t (omega (arith, took.shrinks)) c)

  -- A scan of any file that ends without an error has consumed every byte of it.
  pub read_entries_from-consumed :
      (file : Bytes)
      → (read_entries_from z file).1.error ≡ none
      → (read_entries_from z file).1.consumed ≡ length file
  unfolding read_entries_from new_scanner
  read_entries_from-consumed file clean =
      omega (arith, scan_all-counts (suc (length file)) (new_scanner file) (omega arith) clean)
