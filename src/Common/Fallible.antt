-- ===== src/Common/Fallible.antt =====
-- Go's `(value, error)` returns as a sum: a call gives a value or an error.
use mathlib.Core.Path.{◌≡◌, refl, ap, sym, subst}
use mathlib.Core.Logic.{◌⊎◌, inl, inr}
use mathlib.Core.Bool.{Bool, true, false}

pub data Result (E A : Type 0) : Type 0 where
  ok : A → Result E A
  err : E → Result E A

-- `if err != nil { return err }` behind a call, and behind one that returns nothing else.
infixl 5 ◌>>=◌ ◌>>◌
abbrev pub ◌>>=◌ : {Err V U : Type 0} → Result Err V → (V → Result Err U) → Result Err U
◌>>=◌ (err cause) next = err cause
◌>>=◌ (ok v) next = next v

abbrev pub ◌>>◌ : {Err U : Type 0} → Result Err (Unit {0}) → Result Err U → Result Err U
◌>>◌ (err cause) next = err cause
◌>>◌ (ok done) next = next

-- An early return with the error `e` if the test passes.
abbrev pub fail_if : {E : Type 0} → Bool → E → Result E (Unit {0})
fail_if true e = err e
fail_if false e = ok tt

pub Result-cases :
    {E A : Type 0} (r : Result E A) → ((a : A) × (r ≡ ok a)) ⊎ ((e : E) × (r ≡ err e))
Result-cases (ok a) = inl (a, refl)
Result-cases (err e) = inr (e, refl)

-- A chain does not fail in a way in which neither of its parts does.
pub bind_never :
    {E A U : Type 0} {e : E} (r : Result E A) {next : A → Result E U}
    → ¬ (r ≡ err e)
    → ((a : A) → r ≡ ok a → ¬ (next a ≡ err e))
    → ¬ ((r >>= next) ≡ err e)
bind_never (ok a) not_first not_next = not_next a refl
bind_never {e = e} (err cause) not_first not_next =
    λ same. let alike : e ≡ cause = cc in not_first (ap err (sym alike))

pub then_never :
    {E U : Type 0} {e : E} (r : Result E (Unit {0})) {next : Result E U}
    → ¬ (r ≡ err e)
    → ¬ (next ≡ err e)
    → ¬ ((r >> next) ≡ err e)
then_never (ok _) not_first not_next = not_next
then_never {e = e} (err cause) not_first not_next =
    λ same. let alike : e ≡ cause = cc in not_first (ap err (sym alike))

-- What holds of the value of a call, if it gives one, step by step along a chain.
pub data Ensures {E A : Type 0} (P : A → Type 0) : Result E A → Type 0 where
  of_ok : {a : A} → P a → Ensures P (ok a)
  of_err : {e : E} → Ensures P (err e)

pub bind-Ensures :
    {E A U : Type 0} {P : U → Type 0} (r : Result E A) {next : A → Result E U}
    → ((a : A) → r ≡ ok a → Ensures P (next a))
    → Ensures P (r >>= next)
bind-Ensures (ok a) each = each a refl
bind-Ensures (err cause) each = of_err

pub then-Ensures :
    {E U : Type 0} {P : U → Type 0} (r : Result E (Unit {0})) {next : Result E U}
    → (r ≡ ok tt → Ensures P next)
    → Ensures P (r >> next)
then-Ensures (ok _) each = each refl
then-Ensures (err cause) each = of_err

ok_value : {E A : Type 0} {P : A → Type 0} {a : A} → Ensures {E = E} P (ok a) → P a
ok_value (of_ok p) = p

pub Ensures-ok :
    {E A : Type 0} {P : A → Type 0} {r : Result E A} {a : A} → Ensures P r → r ≡ ok a → P a
Ensures-ok p e = ok_value (subst (Ensures _) e p)
