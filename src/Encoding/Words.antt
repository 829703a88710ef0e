-- ===== src/Encoding/Words.antt =====
-- Runs of words of one width, which encoding/zstdblock.go and encoding/dictionary.go write and read
-- with the loops modelled here.
use opentrace.Base.{
  ℕ, zero, suc, ◌*◌, ◌^◌, ◌<◌, ◌≡◌, refl, ap, List, [], ◌∷◌, ◌++◌, arith, Bytes, All, length, drop,
  replicate, leb, if◌then◌else◌, length-append, le→leb,
}
use native.Mathlib.Nat.{zero-mul, suc-mul}
use opentrace.Encoding.Word.{le_bytes, le_word, length-le_bytes, le_word-le_bytes, drop-le_bytes}

-- `PutUint64(buf[i*8:], uint64(v))` for each value, and PutUint16 at a width of 2.
unfoldable pub words_bytes : ℕ → List ℕ → Bytes
words_bytes w [] = []
words_bytes w (v ∷ vs) = le_bytes w v ++ words_bytes w vs

-- The loop over `count` words; what the bytes are too short for stays 0.
unfoldable pub read_words : ℕ → ℕ → Bytes → List ℕ
read_words w zero raw = []
read_words w (suc n) raw =
    let more = read_words w n (drop w raw) in
    if leb w (length raw) then le_word w raw ∷ more else replicate (suc n) 0

pub length-words_bytes : (w : ℕ) (vs : List ℕ) → length (words_bytes w vs) ≡ length vs * w
unfolding words_bytes
length-words_bytes w [] = omega (arith, zero-mul w)
length-words_bytes w (v ∷ vs) =
    rw (length-append, length-le_bytes w v, length-words_bytes w vs)
      (omega (arith, suc-mul (length vs) w))

pub read_words-words_bytes :
    (w : ℕ) (vs : List ℕ)
    → All (λ v. v < 256 ^ w) vs
    → read_words w (length vs) (words_bytes w vs) ≡ vs
unfolding read_words words_bytes
read_words-words_bytes w [] h = refl
read_words-words_bytes w (v ∷ vs) h =
    rw
      (
        le→leb w (length (le_bytes w v ++ words_bytes w vs))
            (omega (arith, length-append (le_bytes w v) (words_bytes w vs), length-le_bytes w v)),
        le_word-le_bytes w v (words_bytes w vs) h.0,
        drop-le_bytes w v (words_bytes w vs),
      )
      (ap (λ t. v ∷ t) (read_words-words_bytes w vs h.1))
