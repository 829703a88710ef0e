-- ===== src/Guardrail/Unicode.antt =====
-- UTF-8 and white space as Go's unicode packages have them: utf8.DecodeRuneInString, unicode.IsSpace
-- and strings.TrimSpace. An invalid byte is one rune, U+FFFD.
use opentrace.Base.{
  ℕ, zero, suc, ◌+◌, ◌-◌, ◌*◌, [], ◌∷◌, ◌++◌, Bytes, Bool, ◌&&◌, ◌||◌, length, take, drop, get_or,
  leb, ltb, ◌==◌, if◌then◌else◌,
}

abbrev between : ℕ → ℕ → ℕ → Bool
between lo hi b = leb lo b && leb b hi

abbrev continuation : Bytes → ℕ → Bool
continuation s i = between 0x80 0xbf (get_or s i 0)

-- The bounds of the second byte after a first byte of three or four.
abbrev second_ok : ℕ → ℕ → Bool
second_ok b c =
    if b == 0xe0
    then between 0xa0 0xbf c
    else if b == 0xed
    then between 0x80 0x9f c
    else if b == 0xf0
    then between 0x90 0xbf c
    else if b == 0xf4
    then between 0x80 0x8f c
    else between 0x80 0xbf c

-- The first rune and its size; the empty string has size 0.
unfoldable pub decode_rune : Bytes → ℕ × ℕ
decode_rune [] = (0xfffd, 0)
decode_rune (b ∷ bs) =
    if ltb b 0x80
    then (b, 1)
    else if between 0xc2 0xdf b && continuation bs 0
    then ((b - 0xc0) * 64 + (get_or bs 0 0 - 0x80), 2)
    else if between 0xe0 0xef b && (second_ok b (get_or bs 0 0) && continuation bs 1)
    then ((b - 0xe0) * 4096 + (get_or bs 0 0 - 0x80) * 64 + (get_or bs 1 0 - 0x80), 3)
    else if between 0xf0 0xf4 b
        && (second_ok b (get_or bs 0 0) && (continuation bs 1 && continuation bs 2))
    then (
      (b - 0xf0) * 262144
          + (get_or bs 0 0 - 0x80) * 4096
          + (get_or bs 1 0 - 0x80) * 64
          + (get_or bs 2 0 - 0x80),
      4,
    )
    else (0xfffd, 1)

unfoldable pub is_space : ℕ → Bool
is_space r =
    between 9 13 r
    || (r == 32
        || (r == 0x85
            || (r == 0xa0
                || (r == 0x1680
                    || (between 0x2000 0x200a r
                        || (r == 0x2028
                            || (r == 0x2029 || (r == 0x202f || (r == 0x205f || r == 0x3000)))))))))

-- A rune takes a byte at least, so the length is fuel enough here and below.
trim_left_runes : ℕ → Bytes → Bytes
trim_left_runes zero s = s
trim_left_runes (suc fuel) [] = []
trim_left_runes (suc fuel) (b ∷ bs) =
    let (r, size) = decode_rune (b ∷ bs) in
    let rest = trim_left_runes fuel (drop size (b ∷ bs)) in if is_space r then rest else b ∷ bs

abbrev behind_rune : Bytes → Bool → Bytes → Bytes
behind_rune rune space [] = if space then [] else rune
behind_rune rune space (b ∷ bs) = rune ++ (b ∷ bs)

-- Rune by rune from the front, which in UTF-8 finds the runes that Go finds from the back.
trim_right_runes : ℕ → Bytes → Bytes
trim_right_runes zero s = s
trim_right_runes (suc fuel) [] = []
trim_right_runes (suc fuel) (b ∷ bs) =
    let (r, size) = decode_rune (b ∷ bs) in
    behind_rune (take size (b ∷ bs)) (is_space r) (trim_right_runes fuel (drop size (b ∷ bs)))

unfoldable pub trim_space : Bytes → Bytes
unfolding trim_left_runes trim_right_runes
trim_space s = let t = trim_left_runes (length s) s in trim_right_runes (length t) t
