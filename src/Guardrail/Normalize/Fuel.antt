-- ===== src/Guardrail/Normalize/Fuel.antt =====
-- The loop of normalizeSQL comes to its end (guardrail/sql_normalize.go).
use opentrace.Base.{
  ℕ, zero, suc, ◌+◌, ◌≤◌, ◌≡◌, refl, ap, [], ◌∷◌, ◌++◌, arith, Bytes, Bool, true, false, ◌&&◌, ◌||◌,
  length, drop, length-drop, ◌==◌, Option, none, some, Result, ok, err, ◌>>=◌, codes, Bool-cases,
  Option-cases, inl, inr,
}
use opentrace.Guardrail.Text.{index_of}
use opentrace.Guardrail.Unicode.{decode_rune}
use opentrace.Guardrail.Normalize.{
  SqlError, head_is, with_byte, scan_quoted, scan_tag, dollar_quoted, scan_dollar_quote,
  comment_up_to, scan_block_comment, starts_line_comment, skip_to_line_end, masked, unquoted,
  dollar_masked, comment_spaced, next_piece, normalize_loop,
}

-- What is left of a scan is no longer than the text.
abbrev Shrinks : ℕ → Option (Bytes × Bytes) → Type 0
Shrinks n none = Unit {0}
Shrinks n (some (body, rest)) = length rest ≤ n

with_byte-Shrinks :
    (b m n : ℕ) (o : Option (Bytes × Bytes)) → m ≤ n → Shrinks m o → Shrinks n (with_byte b o)
with_byte-Shrinks b m n none le h = tt
with_byte-Shrinks b m n (some (body, rest)) le h = omega arith

scan_quoted-Shrinks :
    (quote : ℕ) (escapes : Bool) (s : Bytes) → Shrinks (length s) (scan_quoted quote escapes s)
unfolding scan_quoted
scan_quoted-Shrinks quote escapes [] = tt
scan_quoted-Shrinks quote escapes (b ∷ []) = elim (Bool-cases (escapes && b == 92)) [
  | inl e ↦ rw e tt
  | inr e ↦ elim (Bool-cases (b == quote)) [
    | inl q ↦ rw (e, q) (omega arith)
    | inr q ↦ rw (e, q) tt
  ]
]
scan_quoted-Shrinks quote escapes (b ∷ b' ∷ bs) =
    let shorter = scan_quoted-Shrinks quote escapes bs in
    let two =
      with_byte-Shrinks b (length (b' ∷ bs)) (length (b ∷ b' ∷ bs))
        (with_byte b' (scan_quoted quote escapes bs)) (omega arith)
        (with_byte-Shrinks b' (length bs) (length (b' ∷ bs)) (scan_quoted quote escapes bs)
          (omega arith) shorter) in
    elim (Bool-cases (escapes && b == 92)) [
      | inl e ↦ rw (scan_quoted, e) two
      | inr e ↦ elim (Bool-cases (b == quote)) [
        | inr q ↦
            rw (scan_quoted, e, q)
              (with_byte-Shrinks b (length (b' ∷ bs)) (length (b ∷ b' ∷ bs))
                (scan_quoted quote escapes (b' ∷ bs)) (omega arith)
                (scan_quoted-Shrinks quote escapes (b' ∷ bs)))
        | inl q ↦ elim (Bool-cases (b' == quote)) [
          | inl d ↦ rw (scan_quoted, e, q, d) two
          | inr d ↦ rw (scan_quoted, e, q, d) (omega arith)
        ]
      ]
    ]

scan_tag-shrinks : (first : Bool) (s : Bytes) → length (scan_tag first s).1 ≤ length s
unfolding scan_tag
scan_tag-shrinks first [] = omega arith
scan_tag-shrinks first (b ∷ bs) = ground (arith, scan_tag-shrinks false bs)

dollar-shrinks :
    (p : Bytes × Bytes) (rest : Bytes) → dollar_quoted p ≡ some rest → length rest ≤ length p.1
dollar-shrinks (name, []) rest h = absurd cc
dollar-shrinks (name, b ∷ bs) rest h = elim (Bool-cases (b == b'$')) [
  | inr other ↦ absurd (ground arith)
  | inl dollar ↦
      let tag = b'$' ∷ (name ++ (b'$' ∷ [])) in
      elim (Option-cases (index_of bs tag)) [
        | inl e ↦ absurd (ground arith)
        | inr (end, e) ↦
            let same : drop (end + length tag) bs ≡ rest = ground arith in
            omega (arith, ap (λ (l : Bytes). length l) same, length-drop (end + length tag) bs)
      ]
]

skip_to_line_end-shrinks : (s : Bytes) → length (skip_to_line_end s) ≤ length s
unfolding skip_to_line_end
skip_to_line_end-shrinks [] = omega arith
skip_to_line_end-shrinks (b ∷ bs) = ground (arith, skip_to_line_end-shrinks bs)

decode_rune-takes : (b : ℕ) (s : Bytes) → 1 ≤ (decode_rune (b ∷ s)).1
unfolding decode_rune
decode_rune-takes b s = ground arith

-- The same of a round's result.
abbrev Leaves : ℕ → Result SqlError (Bytes × Bytes) → Type 0
Leaves n (err e) = Unit {0}
Leaves n (ok (piece, rest)) = length rest ≤ n

masked-Leaves : (n : ℕ) (o : Option (Bytes × Bytes)) → Shrinks n o → Leaves n (masked o)
masked-Leaves n none h = tt
masked-Leaves n (some (body, rest)) h = h

unquoted-Leaves : (n q : ℕ) (o : Option (Bytes × Bytes)) → Shrinks n o → Leaves n (unquoted q o)
unquoted-Leaves n q none h = tt
unquoted-Leaves n q (some (body, rest)) h = h

dollar-Leaves :
    (s : Bytes) (o : Option Bytes) → scan_dollar_quote s ≡ o → Leaves (length s) (dollar_masked s o)
unfolding scan_dollar_quote
dollar-Leaves s none h = omega arith
dollar-Leaves s (some rest) h =
    omega (arith, dollar-shrinks (scan_tag true s) rest h, scan_tag-shrinks true s)

comment-Leaves :
    (n : ℕ) (s : Bytes) (o : Option ℕ)
    → length s ≤ n
    → Leaves n (comment_spaced (comment_up_to s o))
comment-Leaves n s none le = tt
comment-Leaves n s (some end) le = omega (arith, length-drop (end + 2) s)

line_comment-shrinks :
    (c : ℕ) (s : Bytes) (more : Bool)
    → (c == b'-' && more) ≡ true
    → length (skip_to_line_end (c ∷ s)) ≤ length s
unfolding skip_to_line_end
line_comment-shrinks c s more h = ground (arith, skip_to_line_end-shrinks s)

next_piece-Leaves : (c : ℕ) (s : Bytes) → Leaves (length s) (next_piece c s)
unfolding next_piece scan_block_comment
next_piece-Leaves c s = elim (Bool-cases (c == 39)) [
  | inl a ↦ rw a (masked-Leaves _ _ (scan_quoted-Shrinks 39 true s))
  | inr a ↦ elim (Bool-cases (c == 34 || c == 96)) [
    | inl b ↦ rw (a, b) (unquoted-Leaves _ c _ (scan_quoted-Shrinks c false s))
    | inr b ↦ elim (Bool-cases (c == b'$')) [
      | inl d ↦ rw (a, b, d) (dollar-Leaves s (scan_dollar_quote s) refl)
      | inr d ↦ elim (Bool-cases (c == b'/' && head_is s b'*')) [
        | inl e ↦
            rw (a, b, d, e)
              (comment-Leaves (length s) (drop 1 s) (index_of (drop 1 s) (codes "*/"))
                (omega (arith, length-drop 1 s)))
        | inr e ↦
            elim (Bool-cases (c == b'-' && (head_is s b'-' && starts_line_comment (drop 1 s)))) [
              | inl f ↦ rw (a, b, d, e, f) (line_comment-shrinks c s _ f)
              | inr f ↦
                  rw (a, b, d, e, f)
                    (omega
                      (arith, decode_rune-takes c s, length-drop (decode_rune (c ∷ s)).1 (c ∷ s)))
            ]
      ]
    ]
  ]
]

-- The rest of a round in two loops that agree on every text no longer than a bound.
round-agrees :
    (f g n : ℕ)
    → ((s : Bytes) → length s ≤ n → normalize_loop f s ≡ normalize_loop g s)
    → (r : Result SqlError (Bytes × Bytes)) → Leaves n r
    → (do (piece, rest) ← r; more ← normalize_loop f rest; ok (piece ++ more))
      ≡ (do (piece, rest) ← r; more ← normalize_loop g rest; ok (piece ++ more))
round-agrees f g n same (err e) h = refl
round-agrees f g n same (ok (piece, rest)) h =
    ap (λ (r : Result SqlError Bytes). do more ← r; ok (piece ++ more)) (same rest h)

-- The loop of normalizeSQL comes to its end within as many rounds as the statement has bytes: two
-- amounts of fuel that are no less give the same result.
pub normalize_loop-fuel :
    (f g : ℕ) (s : Bytes) → length s ≤ f → length s ≤ g → normalize_loop f s ≡ normalize_loop g s
unfolding normalize_loop
normalize_loop-fuel zero zero s le le' = refl
normalize_loop-fuel zero (suc g) [] le le' = refl
normalize_loop-fuel zero (suc g) (c ∷ s) le le' = absurd (omega arith)
normalize_loop-fuel (suc f) zero [] le le' = refl
normalize_loop-fuel (suc f) zero (c ∷ s) le le' = absurd (omega arith)
normalize_loop-fuel (suc f) (suc g) [] le le' = refl
normalize_loop-fuel (suc f) (suc g) (c ∷ s) le le' =
    round-agrees f g (length s) (λ t le''. normalize_loop-fuel f g t (omega arith) (omega arith))
      (next_piece c s) (next_piece-Leaves c s)
