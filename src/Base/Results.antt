-- ===== src/Base/Results.antt =====
-- Go's `(value, error)` pair as a sum, with its `do` notation.
use mathlib.Core.Path.{◌≡◌, refl}
use mathlib.Core.Bool.{Bool, true, false}

pub data Result {ε α} (E : Type ε) (V : Type α) : Type (ε ⊔ α) where
  err : E → Result E V
  ok : V → Result E V

-- `fmt.Errorf("…: %w", err)`
abbrev pub map_err {ε ε' α} :
    {E : Type ε} {E' : Type ε'} {V : Type α} → (E → E') → Result E V → Result E' V
map_err wrap (err e) = err (wrap e)
map_err wrap (ok v) = ok v

-- `if !test { return …, e }`
abbrev pub guard {ε} : {E : Type ε} → Bool → E → Result E (Unit {0})
guard false e = err e
guard true e = ok tt

-- `abbrev`, so that a step on a known result computes wherever it stands.
infixl 5 ◌>>=◌
abbrev pub ◌>>=◌ {ε α β} :
    {E : Type ε} {V : Type α} {W : Type β} → Result E V → (V → Result E W) → Result E W
err e >>= next = err e
ok v >>= next = next v

infixl 5 ◌>>◌
abbrev pub ◌>>◌ {ε β} : {E : Type ε} {W : Type β} → Result E (Unit {0}) → Result E W → Result E W
check >> next = check >>= λ done. next

pub bind-ok {ε α β} :
    {E : Type ε} {V : Type α} {W : Type β} {w : W} (r : Result E V) (next : V → Result E W)
    → (r >>= next) ≡ ok w
    → (v : V) × (r ≡ ok v) × (next v ≡ ok w)
bind-ok (err e) next h = absurd cc
bind-ok (ok v) next h = (v, refl, h)
