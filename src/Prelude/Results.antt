-- ===== src/Prelude/Results.antt =====
-- Fallible results: a value or an error, with `do` blocks.
use mathlib.Core.Path.{◌≡◌, refl, ap}
use mathlib.Core.Bool.{Bool, true, false}
use mathlib.Core.Option.{Option, none, some}
use mathlib.Core.Logic.{◌⊎◌, inl, inr}

pub data Result {ℓ κ} (E : Type κ) (A : Type ℓ) : Type (ℓ ⊔ κ) where
  ok : A → Result E A
  err : E → Result E A

infixl 5 ◌>>=◌ ◌>>◌
abbrev pub ◌>>=◌ {ℓ κ ι} :
    {E : Type ι} {A : Type ℓ} {B : Type κ} → Result E A → (A → Result E B) → Result E B
ok a >>= f = f a
err e >>= f = err e

abbrev pub ◌>>◌ {ℓ ι} : {E : Type ι} {B : Type ℓ} → Result E (Unit {0}) → Result E B → Result E B
m >> k = m >>= λ _. k

-- `if bad { return err }`.
abbrev pub fail_if {ι} : {E : Type ι} → Bool → E → Result E (Unit {0})
fail_if true e = err e
fail_if false e = ok tt

-- `if !ok { return err }`, and `if err != nil { return err }` where the model's error is `none`.
abbrev pub some_or {ℓ ι} : {E : Type ι} {A : Type ℓ} → Option A → E → Result E A
some_or none e = err e
some_or (some a) e = ok a

pub Result-cases {ℓ κ} :
    {E : Type κ} {A : Type ℓ} (r : Result E A) → ((a : A) × (r ≡ ok a)) ⊎ ((e : E) × (r ≡ err e))
Result-cases (ok a) = inl (a, refl)
Result-cases (err e) = inr (e, refl)

-- A chain that succeeds has a first step that does.
pub >>=_ok {ℓ κ ι} :
    {E : Type ι} {A : Type ℓ} {B : Type κ} (m : Result E A) (f : A → Result E B) {b : B}
    → (m >>= f) ≡ ok b
    → (a : A) × (m ≡ ok a) × (f a ≡ ok b)
>>=_ok (ok a) f h = (a, refl, h)
>>=_ok (err e) f h = cc

-- A guard that lets a chain succeed did not fire.
pub fail_if_ok {ℓ ι} :
    {E : Type ι} {B : Type ℓ} (bad : Bool) (e : E) (k : Result E B) {b : B}
    → (fail_if bad e >> k) ≡ ok b
    → (bad ≡ false) × (k ≡ ok b)
fail_if_ok true e k h = cc
fail_if_ok false e k h = (refl, h)

abbrev value_or {ℓ ι} : {E : Type ι} {A : Type ℓ} → A → Result E A → A
value_or d (ok a) = a
value_or d (err e) = d

pub ok_inj {ℓ ι} : {E : Type ι} {A : Type ℓ} {a b : A} → ◌≡◌ {A = Result E A} (ok a) (ok b) → a ≡ b
ok_inj {a = a} e = ap (value_or a) e
