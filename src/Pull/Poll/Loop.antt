-- ===== src/Pull/Poll/Loop.antt =====
-- The loop of the commands that poll the daemon: rounds until one has a result.
use hali_client.Base.{
  ℕ, zero, suc, ◌+◌, ◌<◌, ◌≤◌, Option, Option-cases, none, some, ◌≡◌, refl, ap, ◌∙◌, sym, ◌⊎◌, inl,
  inr, arith, subst,
}
use hali_client.Pull.Poll.{poll_until, or_next}

abbrev pub IsSome {ℓ} : {A : Type ℓ} → Option A → Type 0
IsSome none = ⊥
IsSome (some a) = Unit

zero_or : (n : ℕ) → (n ≡ 0) ⊎ ((m : ℕ) × (n ≡ suc m))
zero_or zero = inl refl
zero_or (suc m) = inr (m, refl)

plus_zero : (k : ℕ) → k + 0 ≡ k
plus_zero k = omega arith

pub zero_plus : (k : ℕ) → 0 + k ≡ k
zero_plus k = omega arith

module _ {ℓ} {O : Type ℓ} (round : ℕ → Option O) where
  poll_now : (fuel k : ℕ) (o : O) → round k ≡ some o → poll_until round (suc fuel) k ≡ some o
  unfolding poll_until
  poll_now fuel k o e = ap (λ r. or_next r (poll_until round fuel (suc k))) e

  poll_next :
      (fuel k : ℕ) → round k ≡ none → poll_until round (suc fuel) k ≡ poll_until round fuel (suc k)
  unfolding poll_until
  poll_next fuel k e = ap (λ r. or_next r (poll_until round fuel (suc k))) e

  -- The loop returns what one of its rounds returns, at the latest what round k + n does.
  pub poll_until-ends :
      (fuel n k : ℕ)
      → n < fuel
      → IsSome (round (k + n))
      → (o : O) × (m : ℕ) × (m ≤ n) × (round (k + m) ≡ some o) × (poll_until round fuel k ≡ some o)
  poll_until-ends zero n k h s = absurd (omega arith)
  poll_until-ends (suc fuel) n k h s = elim (Option-cases (round k)) [
    | inr (o, e) ↦ (o, 0, omega arith, ap round (plus_zero k) ∙ e, poll_now fuel k o e)
    | inl e ↦ elim (zero_or n) [
      | inl z ↦ absurd (subst IsSome (ap round (omega (arith, z)) ∙ e) s)
      | inr (m, z) ↦
          let (o, i, le, r, q) =
            poll_until-ends fuel m (suc k) (omega (arith, z, h))
              (subst IsSome (ap round (omega (arith, z))) s) in
          (o, suc i, omega (arith, z, le), ap round (omega arith) ∙ r, poll_next fuel k e ∙ q)
    ]
  ]

  pub poll_until-goes_on :
      (fuel k : ℕ) → ((j : ℕ) → round j ≡ none) → poll_until round fuel k ≡ none
  unfolding poll_until
  poll_until-goes_on zero k h = refl
  poll_until-goes_on (suc fuel) k h = poll_next fuel k (h k) ∙ poll_until-goes_on fuel (suc k) h

  -- What the loop returns is what one of its rounds returns.
  pub poll_until-round :
      (fuel k : ℕ) (o : O) → poll_until round fuel k ≡ some o → (m : ℕ) × (round m ≡ some o)
  unfolding poll_until
  poll_until-round zero k o h = cc h
  poll_until-round (suc fuel) k o h = elim (Option-cases (round k)) [
    | inr (p, e) ↦ (k, e ∙ sym (poll_now fuel k p e) ∙ h)
    | inl e ↦ poll_until-round fuel (suc k) o (sym (poll_next fuel k e) ∙ h)
  ]
