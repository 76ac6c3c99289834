-- ===== src/Base/Split.antt =====
-- Splitting a text and joining the parts are inverse, and the parts hold no separator.
use mathlib.Core.Bool.{Bool, true, false}
use mathlib.Core.List.{List, [], ◌∷◌, ◌++◌}
use mathlib.Core.Path.{◌≡◌, refl}
use native.Mathlib.Omega.{arith}
use Prim.Native.Nat.{ℕ}
use hali_client.Base.Tests.{◌==◌}
use hali_client.Base.Lists.{All}
use hali_client.Base.Text.{Str, contains_by, split_by, split, join, cons_first}

pub split_by-plain : (p : ℕ → Bool) (w : Str) → contains_by p w ≡ false → split_by p w ≡ w ∷ []
unfolding split_by contains_by
split_by-plain p [] h = refl
split_by-plain p (c ∷ cs) h = ground (arith, split_by-plain p cs)

pub split_by-append :
    (p : ℕ → Bool) (w : Str) (sep : ℕ) (rest : Str)
    → p sep ≡ true
    → contains_by p w ≡ false
    → split_by p (w ++ (sep ∷ rest)) ≡ w ∷ split_by p rest
unfolding split_by contains_by
split_by-append p [] sep rest s h = ground arith
split_by-append p (c ∷ cs) sep rest s h = ground (arith, split_by-append p cs sep rest s)

join-cons_first : (sep c : ℕ) (ws : List Str) → join sep (cons_first c ws) ≡ c ∷ join sep ws
unfolding join
join-cons_first sep c [] = refl
join-cons_first sep c (w ∷ []) = refl
join-cons_first sep c (w ∷ v ∷ ws) = refl

join-nil_cons :
    (sep : ℕ) (p : ℕ → Bool) (s : Str)
    → join sep ([] ∷ split_by p s) ≡ sep ∷ join sep (split_by p s)
unfolding split_by join
join-nil_cons sep p [] = refl
join-nil_cons sep p (c ∷ cs) = ground (arith, join-nil_cons sep p cs)

pub join-split : (sep : ℕ) (s : Str) → join sep (split sep s) ≡ s
unfolding split_by
join-split sep [] = unfold join in refl
join-split sep (c ∷ cs) = ground (
  arith,
  join-split sep cs,
  join-nil_cons sep (λ x. x == sep) cs,
  join-cons_first sep c (split sep cs),
)

cons_first-All :
    (p : ℕ → Bool) (c : ℕ) (ws : List Str)
    → p c ≡ false
    → All (λ w. contains_by p w ≡ false) ws
    → All (λ w. contains_by p w ≡ false) (cons_first c ws)
unfolding contains_by
cons_first-All p c [] h k = ground arith
cons_first-All p c (w ∷ ws) h k = ground arith

pub split_by-All : (p : ℕ → Bool) (s : Str) → All (λ w. contains_by p w ≡ false) (split_by p s)
unfolding split_by contains_by
split_by-All p [] = (refl, tt)
split_by-All p (c ∷ cs) = ground (arith, split_by-All p cs, cons_first-All p c (split_by p cs))

pub contains_by-append :
    (p : ℕ → Bool) (v w : Str)
    → contains_by p v ≡ false
    → contains_by p w ≡ false
    → contains_by p (v ++ w) ≡ false
unfolding contains_by
contains_by-append p [] w h k = k
contains_by-append p (c ∷ cs) w h k = ground (arith, contains_by-append p cs w)
