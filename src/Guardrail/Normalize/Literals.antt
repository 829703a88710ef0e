-- ===== src/Guardrail/Normalize/Literals.antt =====
-- String literals in normalizeSQL (guardrail/sql_normalize.go).
use opentrace.Base.{
  ℕ, ◌≡◌, refl, sym, ap, ◌∙◌, [], ◌∷◌, ◌++◌, arith, Bytes, All, Bool, true, false, not, ◌&&◌, ◌||◌,
  length, length-append, ltb, ◌==◌, if◌then◌else◌, some, Result, ok, ◌>>=◌, Bool-cases, inl, inr,
}
use opentrace.Guardrail.Text.{collapse_spaces}
use opentrace.Guardrail.Unicode.{decode_rune, is_space, trim_space}
use opentrace.Guardrail.Normalize.{
  SqlError, masked_literal, head_is, with_byte, scan_quoted, next_piece, normalize_loop,
  normalize_sql,
}
use opentrace.Guardrail.Normalize.Fuel.{normalize_loop-fuel}

-- A byte that the loop copies, or turns into a space, on its own.
abbrev pub is_plain : ℕ → Bool
is_plain c =
    ltb c 0x80 && not (c == 39 || (c == 34 || (c == 96 || (c == b'$' || (c == b'/' || c == b'-')))))

abbrev pub Plain : Bytes → Type 0
Plain s = All (λ c. is_plain c ≡ true) s

-- A byte of a literal that neither ends it nor escapes the next.
abbrev pub Inner : Bytes → Type 0
Inner s = All (λ c. (c == 39 || c == 92) ≡ false) s

plain-piece :
    (c : ℕ) (s : Bytes)
    → is_plain c ≡ true
    → next_piece c s ≡ ok (if is_space c then b' ' ∷ [] else c ∷ [], s)
unfolding next_piece decode_rune
plain-piece c s h = ground arith

abbrev normal : Bytes → Result SqlError Bytes
normal s = normalize_loop (length s) s

normal-cong :
    (pre s s' : Bytes) → Plain pre → normal s ≡ normal s' → normal (pre ++ s) ≡ normal (pre ++ s')
unfolding normalize_loop
normal-cong [] s s' plain same = same
normal-cong (c ∷ pre) s s' (p, plain) same =
    rw (plain-piece c (pre ++ s) p, plain-piece c (pre ++ s') p, normal-cong pre s s' plain same)
      refl

scan_quoted-inner :
    (b : ℕ) (s : Bytes)
    → (b == 39 || b == 92) ≡ false
    → scan_quoted 39 true (b ∷ s) ≡ with_byte b (scan_quoted 39 true s)
unfolding scan_quoted
scan_quoted-inner b [] i = ground arith
scan_quoted-inner b (b' ∷ bs) i = elim (Bool-cases (b == 39)) [
  | inl q ↦ absurd (ground arith)
  | inr q ↦ elim (Bool-cases (b == 92)) [
    | inl e ↦ absurd (ground arith)
    | inr e ↦ rw (scan_quoted, e, q) refl
  ]
]

scan_quoted-close :
    (post : Bytes) → head_is post 39 ≡ false → scan_quoted 39 true (39 ∷ post) ≡ some ([], post)
unfolding scan_quoted
scan_quoted-close [] h = refl
scan_quoted-close (b ∷ bs) h = rw (scan_quoted, h) refl

scan_quoted-literal :
    (body post : Bytes)
    → Inner body
    → head_is post 39 ≡ false
    → scan_quoted 39 true (body ++ (39 ∷ post)) ≡ some (body, post)
scan_quoted-literal [] post inner h = scan_quoted-close post h
scan_quoted-literal (b ∷ body) post (i, inner) h =
    rw (scan_quoted-inner b (body ++ (39 ∷ post)) i, scan_quoted-literal body post inner h) refl

literal-masked :
    (body post : Bytes)
    → Inner body
    → head_is post 39 ≡ false
    → normal (39 ∷ (body ++ (39 ∷ post))) ≡ (do more ← normal post; ok (masked_literal ++ more))
unfolding normalize_loop next_piece
literal-masked body post inner h =
    rw
      (
        scan_quoted-literal body post inner h,
        normalize_loop-fuel (length (body ++ (39 ∷ post))) (length post) post
            (omega (arith, length-append body (39 ∷ post))) (omega arith),
      )
      refl

-- What a string literal holds does not change the normal form: for text in front without quotes,
-- dollars, slashes, dashes and bytes above ASCII, two bodies without quotes and backslashes, and
-- any text behind that does not start with a quote, the two statements have the same normal form or
-- the same error.
pub normalize_sql_lem :
    (pre body body' post : Bytes)
    → Plain pre
    → Inner body
    → Inner body'
    → head_is post 39 ≡ false
    → normalize_sql (pre ++ (39 ∷ (body ++ (39 ∷ post))))
      ≡ normalize_sql (pre ++ (39 ∷ (body' ++ (39 ∷ post))))
unfolding normalize_sql
normalize_sql_lem pre body body' post plain inner inner' h =
    ap (λ (r : Result SqlError Bytes). do b ← r; ok (trim_space (collapse_spaces b)))
      (normal-cong pre (39 ∷ (body ++ (39 ∷ post))) (39 ∷ (body' ++ (39 ∷ post))) plain
        (literal-masked body post inner h ∙ sym (literal-masked body' post inner' h)))
