-- ===== src/Base/Int.antt =====
-- Go's signed integers, unbounded, over the native numbers.
use Prim.Native.Nat.{ℕ, suc, ◌+◌, ◌-◌, ◌≤◌}
use mathlib.Core.Bool.{Bool, true, false}
use mathlib.Core.Path.{◌≡◌}
use mathlib.Core.Logic.{◌⊎◌}
use native.Mathlib.Omega.{arith}
use hali_client.Base.Tests.{leb, ltb, if◌then◌else◌}

-- `negsuc n` is -(n + 1).
pub data ℤ : Type 0 where
  pos : ℕ → ℤ
  negsuc : ℕ → ℤ

abbrev pub pos_part : ℤ → ℕ
pos_part (pos n) = n
pos_part (negsuc n) = 0

abbrev pub neg_part : ℤ → ℕ
neg_part (pos n) = 0
neg_part (negsuc n) = suc n

-- a - b, as an integer.
abbrev pub sub_ℕ : ℕ → ℕ → ℤ
sub_ℕ a b = if leb b a then pos (a - b) else negsuc (b - a - 1)

infixl 65 ◌+ℤ◌ ◌-ℤ◌
infix 50 ◌≤ℤ◌ ◌<ℤ◌
unfoldable pub ◌+ℤ◌ : ℤ → ℤ → ℤ
a +ℤ b = sub_ℕ (pos_part a + pos_part b) (neg_part a + neg_part b)

unfoldable pub ◌-ℤ◌ : ℤ → ℤ → ℤ
a -ℤ b = sub_ℕ (pos_part a + neg_part b) (neg_part a + pos_part b)

abbrev pub ◌≤ℤ◌ : ℤ → ℤ → Type 0
a ≤ℤ b = pos_part a + neg_part b ≤ pos_part b + neg_part a

abbrev pub ◌<ℤ◌ : ℤ → ℤ → Type 0
a <ℤ b = suc (pos_part a + neg_part b) ≤ pos_part b + neg_part a

abbrev pub ltb_ℤ : ℤ → ℤ → Bool
ltb_ℤ a b = ltb (pos_part a + neg_part b) (pos_part b + neg_part a)

abbrev pub leb_ℤ : ℤ → ℤ → Bool
leb_ℤ a b = leb (pos_part a + neg_part b) (pos_part b + neg_part a)

abbrev pub eqb_ℤ : ℤ → ℤ → Bool
eqb_ℤ (pos a) (pos b) = elim (leb a b) [ true ↦ leb b a | false ↦ false ]
eqb_ℤ (negsuc a) (negsuc b) = elim (leb a b) [ true ↦ leb b a | false ↦ false ]
eqb_ℤ _ _ = false

-- A test that first looks at the numbers and, where they are equal, at `tie`
pub not_less-or_tied :
    (a b : ℤ) (tie : Bool)
    → (if eqb_ℤ a b then tie else ltb_ℤ a b) ≡ false
    → (b <ℤ a) ⊎ ((b ≡ a) × (tie ≡ false))
not_less-or_tied (pos a) (pos b) tie h = grind arith
not_less-or_tied (pos a) (negsuc b) tie h = grind arith
not_less-or_tied (negsuc a) (pos b) tie h = grind arith
not_less-or_tied (negsuc a) (negsuc b) tie h = grind arith

-- The same, for a test that puts the larger number first
pub not_more-or_tied :
    (a b : ℤ) (tie : Bool)
    → (if eqb_ℤ a b then tie else ltb_ℤ b a) ≡ false
    → (a <ℤ b) ⊎ ((b ≡ a) × (tie ≡ false))
not_more-or_tied (pos a) (pos b) tie h = grind arith
not_more-or_tied (pos a) (negsuc b) tie h = grind arith
not_more-or_tied (negsuc a) (pos b) tie h = grind arith
not_more-or_tied (negsuc a) (negsuc b) tie h = grind arith
