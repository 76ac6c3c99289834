-- ===== src/Events/Delay.antt =====
-- The delay before the next delivery, in closed form.
use Prim.Native.Nat.{min}
use hali_client.Base.{
  ℕ, zero, suc, ◌+◌, ◌*◌, ◌^◌, ◌≤◌, ◌<◌, ◌≡◌, ap, ◌∙◌, arith, leb, Bool-cases, inl, inr,
}
use hali_client.Events.{double_delay, retry_delay}

pow-suc : (n : ℕ) → 2 ^ suc n ≡ 2 * 2 ^ n
pow-suc n = omega arith

pow_pos : (n : ℕ) → 1 ≤ 2 ^ n
pow_pos zero = omega arith
pow_pos (suc n) = omega (arith, pow-suc n, pow_pos n)

mul_shift : (d q : ℕ) → d * (2 * q) ≡ (d * 2) * q
mul_shift d q = grind arith

le_mul : (d q : ℕ) → 1 ≤ q → d ≤ d * q
le_mul d zero h = absurd (omega arith)
le_mul d (suc q) h = grind arith

double_delay-pow : (n d : ℕ) → d < 1800 → double_delay n d ≡ min (d * 2 ^ n) 1800
unfolding double_delay
double_delay-pow zero d h = ground arith
double_delay-pow (suc n) d h =
    let shift : d * 2 ^ suc n ≡ (d * 2) * 2 ^ n =
      ap (λ q. d * q) (pow-suc n) ∙ mul_shift d (2 ^ n) in
    elim (Bool-cases (leb 1800 (d * 2))) [
      | inl e ↦ rw e (ground (arith, shift, le_mul (d * 2) (2 ^ n) (pow_pos n)))
      | inr e ↦ rw (e, shift) (double_delay-pow n (d * 2) (ground arith))
    ]

-- From the first failed delivery on, the delay is thirty seconds doubled for every failure after
-- the first, and half an hour at most.
retry_delay-pow : (n : ℕ) → retry_delay (suc n) ≡ min (30 * 2 ^ n) 1800
unfolding retry_delay
retry_delay-pow n = double_delay-pow n 30 (omega arith)

pub retry_delay-add : (n : ℕ) → retry_delay (n + 1) ≡ min (30 * 2 ^ n) 1800
retry_delay-add n =
    let next : n + 1 ≡ suc n = omega arith in ap retry_delay next ∙ retry_delay-pow n

pub retry_delay-bounds : (n : ℕ) → (30 ≤ retry_delay n) × (retry_delay n ≤ 1800)
retry_delay-bounds zero = unfold retry_delay in (omega arith, omega arith)
retry_delay-bounds (suc n) = rw (retry_delay-pow n) (ground (arith, le_mul 30 (2 ^ n) (pow_pos n)))
