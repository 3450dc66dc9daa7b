-- ===== src/Prelude/Result.antt =====
-- Results of calls that may fail, and their chain: `if err != nil { return err }`.
use mathlib.Core.Path.{◌≡◌, refl}
use mathlib.Core.Logic.{◌⊎◌, inl, inr}
use mathlib.Core.Bool.{Bool, true, false}

pub data Result {ℓ κ} (E : Type ℓ) (A : Type κ) : Type (ℓ ⊔ κ) where
  ok : A → Result E A
  err : E → Result E A

-- The result of a check, an error or nil.
abbrev pub Check {ℓ} : Type ℓ → Type ℓ
Check E = Result E (Unit {0})

-- if test { return err }
abbrev pub refuse {ℓ} : {E : Type ℓ} → Bool → E → Check E
refuse true e = err e
refuse false e = ok tt

-- if err := ...; err != nil { return err }
infixr 20 ◌then◌
abbrev pub ◌then◌ {ℓ} : {E : Type ℓ} → Check E → Check E → Check E
ok u then rest = rest
err e then rest = err e

pub Result-cases {ℓ κ} :
    {E : Type ℓ} {A : Type κ} (r : Result E A) → ((a : A) × (r ≡ ok a)) ⊎ ((e : E) × (r ≡ err e))
Result-cases (ok a) = inl (a, refl)
Result-cases (err e) = inr (e, refl)

-- Both of two checks pass, where the two in turn do.
pub then-ok {ℓ} : {E : Type ℓ} (c d : Check E) → (c then d) ≡ ok tt → (c ≡ ok tt) × (d ≡ ok tt)
then-ok (ok tt) d h = (refl, h)
then-ok (err e) d h = absurd cc

pub refuse-ok {ℓ} : {E : Type ℓ} (b : Bool) (e : E) → refuse b e ≡ ok tt → b ≡ false
refuse-ok true e h = absurd cc
refuse-ok false e h = refl
