-- ===== src/Base/Results.antt =====
-- Go's (value, error) pairs where the value is used only if the error is nil.
use mathlib.Core.Path.{◌≡◌, refl}
use mathlib.Core.Bool.{Bool, true, false}

pub data Result {ℓ κ} (E : Type ℓ) (A : Type κ) : Type (ℓ ⊔ κ) where
  ok : A → Result E A
  err : E → Result E A

-- `if b { return e }`
abbrev pub refuse {ℓ} : {E : Type ℓ} → Bool → E → Result E (Unit {0})
refuse true e = err e
refuse false e = ok tt

infixl 5 ◌>>=◌ ◌>>◌
abbrev pub ◌>>=◌ {ℓ κ μ} :
    {E : Type ℓ} {A : Type κ} {B : Type μ} → Result E A → (A → Result E B) → Result E B
err e >>= next = err e
ok a >>= next = next a

-- A chain that ends well has a first step that ends well, and the rest runs on its value.
pub >>=-eq-ok {ℓ κ μ} :
    {E : Type ℓ} {A : Type κ} {B : Type μ} (step : Result E A) (next : A → Result E B) {end : B}
    → (step >>= next) ≡ ok end
    → (mid : A) × (step ≡ ok mid) × (next mid ≡ ok end)
>>=-eq-ok (err e) next h = cc h
>>=-eq-ok (ok mid) next h = (mid, refl, h)

-- A step whose value is not used.
abbrev pub ◌>>◌ {ℓ κ} : {E : Type ℓ} {B : Type κ} → Result E (Unit {0}) → Result E B → Result E B
step >> rest = step >>= λ u. rest
