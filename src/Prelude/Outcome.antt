-- ===== src/Prelude/Outcome.antt =====
-- `Result<A, E>` of the source, with `?` as the bind of a `do` block.
use mathlib.Core.Path.{◌≡◌, refl, subst}
use mathlib.Core.Option.{Option, none, some}
use mathlib.Core.Bool.{Bool, true, false}
use pre_commit_review.Prelude.Tests.{if◌then◌else◌}

pub data Result {ℓ κ} (A : Type ℓ) (E : Type κ) : Type (ℓ ⊔ κ) where
  ok : A → Result A E
  err : E → Result A E

infixl 5 ◌>>=◌ ◌>>◌
abbrev pub ◌>>=◌ {ℓ κ μ} :
    {A : Type ℓ} {B : Type κ} {E : Type μ} → Result A E → (A → Result B E) → Result B E
ok a >>= f = f a
err e >>= f = err e

abbrev pub ◌>>◌ {ℓ κ} : {B : Type ℓ} {E : Type κ} → Result (Unit {0}) E → Result B E → Result B E
m >> k = m >>= λ _. k

-- `ok_or_else`.
abbrev pub ok_or {ℓ κ} : {A : Type ℓ} {E : Type κ} → E → Option A → Result A E
ok_or e none = err e
ok_or e (some a) = ok a

-- `if test { return Err(e) }`.
abbrev pub refuse_if {κ} : {E : Type κ} → Bool → E → Result (Unit {0}) E
refuse_if true e = err e
refuse_if false e = ok tt

pub err-ne-ok {ℓ κ} : {A : Type ℓ} {E : Type κ} {a : A} {e : E} → err e ≡ ok a → ⊥
err-ne-ok h = cc

-- A bind that succeeds.
pub >>=-eq-ok {ℓ κ μ} :
    {A : Type ℓ} {B : Type κ} {E : Type μ} (m : Result A E) (f : A → Result B E) {b : B}
    → m >>= f ≡ ok b
    → (a : A) × (m ≡ ok a) × (f a ≡ ok b)
>>=-eq-ok (ok a) f h = (a, refl, h)
>>=-eq-ok (err e) f h = absurd (err-ne-ok h)

pub ok-injective {ℓ κ} :
    {A : Type ℓ} {E : Type κ} {a b : A} → ◌≡◌ {A = Result A E} (ok a) (ok b) → a ≡ b
ok-injective h = cc

-- An early return, and an early return of the other branch.
pub stop_or {ℓ κ μ} :
    {A : Type ℓ} {E : Type κ} (P : A → Type μ) (halted : Bool) (a : A) (rest : Result A E) (f : A)
    → (halted ≡ true → P a)
    → (rest ≡ ok f → P f)
    → (if halted then ok a else rest) ≡ ok f
    → P f
stop_or P true a rest f p k h = subst P (ok-injective h) (p refl)
stop_or P false a rest f p k h = k h

pub go_or {ℓ κ μ} :
    {A : Type ℓ} {E : Type κ} (P : A → Type μ) (going : Bool) (a : A) (rest : Result A E) (f : A)
    → P a
    → (rest ≡ ok f → P f)
    → (if going then rest else ok a) ≡ ok f
    → P f
go_or P true a rest f p k h = k h
go_or P false a rest f p k h = subst P (ok-injective h) p
