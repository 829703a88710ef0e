-- ===== src/Encoding/Word.antt =====
-- The fixed-width little-endian words of Go's encoding/binary, which every format of the log store
-- is built from. Go panics on a read past the end; each caller checks the length first.
use opentrace.Base.{
  ℕ, zero, suc, ◌+◌, ◌*◌, ◌/◌, ◌%◌, ◌^◌, ◌≤◌, ◌<◌, ◌≡◌, refl, ap, [], ◌∷◌, ◌++◌, arith, Bytes,
  IsByte, All, length, drop,
}
use native.Mathlib.Nat.{pow-suc}

-- The bytes that AppendUint16, AppendUint32 and AppendUint64 append, at a width of 2, 4 and 8.
unfoldable pub le_bytes : ℕ → ℕ → Bytes
le_bytes zero n = []
le_bytes (suc w) n = n % 256 ∷ le_bytes w (n / 256)

-- Uint16, Uint32 and Uint64 of the front of a slice.
unfoldable pub le_word : ℕ → Bytes → ℕ
le_word zero bs = 0
le_word (suc w) [] = 0
le_word (suc w) (b ∷ bs) = b + 256 * le_word w bs

pub length-le_bytes : (w n : ℕ) → length (le_bytes w n) ≡ w
unfolding le_bytes
length-le_bytes zero n = refl
length-le_bytes (suc w) n = ap suc (length-le_bytes w (n / 256))

pub le_bytes-IsByte : (w n : ℕ) → All IsByte (le_bytes w n)
unfolding le_bytes
le_bytes-IsByte zero n = tt
le_bytes-IsByte (suc w) n = (omega arith, le_bytes-IsByte w (n / 256))

-- A word that fits is read back.
pub le_word-le_bytes : (w n : ℕ) (rest : Bytes) → n < 256 ^ w → le_word w (le_bytes w n ++ rest) ≡ n
unfolding le_word le_bytes
le_word-le_bytes zero n rest h = omega arith
le_word-le_bytes (suc w) n rest h =
    omega (arith, pow-suc 256 w, le_word-le_bytes w (n / 256) rest (omega (arith, pow-suc 256 w)))

pub drop-le_bytes : (w n : ℕ) (rest : Bytes) → drop w (le_bytes w n ++ rest) ≡ rest
unfolding le_bytes
drop-le_bytes zero n rest = refl
drop-le_bytes (suc w) n rest = drop-le_bytes w (n / 256) rest

-- What is read is a word of that width.
pub le_word-lt : (w : ℕ) (bs : Bytes) → All IsByte bs → le_word w bs < 256 ^ w
unfolding le_word
le_word-lt zero bs h = omega arith
le_word-lt (suc w) [] h = omega (arith, pow-suc 256 w, le_word-lt w [] tt)
le_word-lt (suc w) (b ∷ bs) h = omega (arith, pow-suc 256 w, le_word-lt w bs h.1)

-- A read sees only the bytes of its width.
pub le_word-append :
    (w : ℕ) (bs more : Bytes) → w ≤ length bs → le_word w (bs ++ more) ≡ le_word w bs
unfolding le_word
le_word-append zero bs more h = refl
le_word-append (suc w) [] more h = absurd (omega arith)
le_word-append (suc w) (b ∷ bs) more h = rw (le_word-append w bs more (omega arith))
