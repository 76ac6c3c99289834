-- ===== src/Base/Sort.antt =====
-- A stable sort by a test of what comes before, and the order of texts.
use mathlib.Core.List.{Permᴰ}
use mathlib.Core.List.Permᴰ
use mathlib.Core.Path.{◌≡◌, refl, sym, subst, ap₂, ◌∙◌}
use Prim.Native.Nat.{◌<◌}
use mathlib.Core.Logic.{◌⊎◌, inl, inr}
use mathlib.Core.Bool.{Bool, true, false}
use mathlib.Core.List.{List, [], ◌∷◌}
use native.Mathlib.Omega.{arith}
use hali_client.Base.Tests.{if◌then◌else◌, Bool-cases}
use hali_client.Base.Lists.{All}
use hali_client.Base.Text.{Str, str_lt}

-- `less` is a strict order of the keys of the elements.
pub record IsOrder {ℓ} {A : Type ℓ} (less : A → A → Bool) : Type ℓ where
  pub asym : (a b : A) → less a b ≡ true → less b a ≡ false
  pub not_trans : (a b c : A) → less b a ≡ false → less c b ≡ false → less c a ≡ false

module _ {ℓ} {A : Type ℓ} (less : A → A → Bool) where
  -- `a` in front of the first element that is not less than it
  unfoldable pub insert_sorted : A → List A → List A
  insert_sorted a [] = a ∷ []
  insert_sorted a (b ∷ bs) =
      let rest = insert_sorted a bs in if less b a then b ∷ rest else a ∷ b ∷ bs

  unfoldable pub sort : List A → List A
  unfolding insert_sorted
  sort [] = []
  sort (a ∷ xs) = insert_sorted a (sort xs)

  abbrev pub IsAscending : List A → Type ℓ
  IsAscending [] = Unit
  IsAscending (a ∷ xs) = All (λ b. less b a ≡ false) xs × IsAscending xs

  pub insert_sorted-perm : (a : A) (xs : List A) → Permᴰ (insert_sorted a xs) (a ∷ xs)
  unfolding insert_sorted
  insert_sorted-perm a [] = Permᴰ.refl (a ∷ [])
  insert_sorted-perm a (b ∷ bs) = elim (Bool-cases (less b a)) [
    | inl h ↦ rw h (Permᴰ.trans (Permᴰ.cons refl (insert_sorted-perm a bs)) (Permᴰ.swap refl refl))
    | inr h ↦ rw h (Permᴰ.refl (a ∷ b ∷ bs))
  ]

  pub sort-perm : (xs : List A) → Permᴰ (sort xs) xs
  unfolding sort
  sort-perm [] = Permᴰ.nil
  sort-perm (a ∷ xs) = Permᴰ.trans (insert_sorted-perm a (sort xs)) (Permᴰ.cons refl (sort-perm xs))

  All-insert_sorted {κ} :
      (P : A → Type κ) (a : A) (xs : List A) → P a → All P xs → All P (insert_sorted a xs)
  unfolding insert_sorted
  All-insert_sorted P a [] p ps = (p, tt)
  All-insert_sorted P a (b ∷ bs) p (q, qs) = elim (Bool-cases (less b a)) [
    | inl h ↦ rw h (q, All-insert_sorted P a bs p qs)
    | inr h ↦ rw h (p, (q, qs))
  ]

  pub All-sort {κ} : (P : A → Type κ) (xs : List A) → All P xs → All P (sort xs)
  unfolding sort
  All-sort P [] ps = tt
  All-sort P (a ∷ xs) (p, ps) = All-insert_sorted P a (sort xs) p (All-sort P xs ps)

  -- A list that is in order stays as it is.
  pub sort_ascending : (xs : List A) → IsAscending xs → sort xs ≡ xs
  unfolding sort insert_sorted
  sort_ascending [] s = refl
  sort_ascending (a ∷ []) s = refl
  sort_ascending (a ∷ b ∷ bs) ((h, _), s) = rw (sort_ascending (b ∷ bs) s) (rw h refl)

  module _ (order : IsOrder less) where
    All-behind :
        (a b : A) (bs : List A)
        → less b a ≡ false
        → All (λ c. less c b ≡ false) bs
        → All (λ c. less c a ≡ false) bs
    All-behind a b [] h ps = tt
    All-behind a b (c ∷ cs) h (p, ps) = (order.not_trans a b c h p, All-behind a b cs h ps)

    insert_sorted-IsAscending :
        (a : A) (xs : List A) → IsAscending xs → IsAscending (insert_sorted a xs)
    unfolding insert_sorted
    insert_sorted-IsAscending a [] s = (tt, tt)
    insert_sorted-IsAscending a (b ∷ bs) (ps, s) = elim (Bool-cases (less b a)) [
      | inl h ↦ rw h (
        All-insert_sorted (λ c. less c b ≡ false) a bs (order.asym b a h) ps,
        insert_sorted-IsAscending a bs s,
      )
      | inr h ↦ rw h ((h, All-behind a b bs h ps), (ps, s))
    ]

    pub sort-IsAscending : (xs : List A) → IsAscending (sort xs)
    unfolding sort
    sort-IsAscending [] = tt
    sort-IsAscending (a ∷ xs) = insert_sorted-IsAscending a (sort xs) (sort-IsAscending xs)

    -- When only equal elements are not less than each other, the result does not depend on the order
    -- of the list.
    module _ (antisym : (a b : A) → less a b ≡ false → less b a ≡ false → a ≡ b) where
      insert_sorted_lt :
          (a b : A) (xs : List A)
          → less a b ≡ true
          → less b a ≡ false
          → insert_sorted a (insert_sorted b xs) ≡ insert_sorted b (insert_sorted a xs)
      unfolding insert_sorted
      insert_sorted_lt a b [] h k = rw h (rw k refl)
      insert_sorted_lt a b (c ∷ cs) h k =
          ground (arith, insert_sorted_lt a b cs h k, order.not_trans a b c k)

      insert_sorted_comm :
          (a b : A) (xs : List A)
          → insert_sorted a (insert_sorted b xs) ≡ insert_sorted b (insert_sorted a xs)
      insert_sorted_comm a b xs = elim (Bool-cases (less a b)) [
        | inl h ↦ insert_sorted_lt a b xs h (order.asym a b h)
        | inr h ↦ elim (Bool-cases (less b a)) [
          | inl k ↦ sym (insert_sorted_lt b a xs k h)
          | inr k ↦ rw (antisym a b h k) refl
        ]
      ]

      pub sort-eq_of_perm : {xs ys : List A} → Permᴰ xs ys → sort xs ≡ sort ys
      unfolding sort
      sort-eq_of_perm Permᴰ.nil = refl
      sort-eq_of_perm (Permᴰ.cons e p) = ap₂ insert_sorted e (sort-eq_of_perm p)
      sort-eq_of_perm (Permᴰ.swap {a = a} {b = b} {l = l} e f) =
          insert_sorted_comm a b (sort l)
          ∙ ap₂ (λ x y. insert_sorted x (insert_sorted y (sort l))) f e
      sort-eq_of_perm (Permᴰ.trans p q) = sort-eq_of_perm p ∙ sort-eq_of_perm q

-- Some element has P.
abbrev pub Any {ℓ} : {A : Type ℓ} → (A → Type 0) → List A → Type 0
Any P [] = ⊥
Any P (a ∷ xs) = P a ⊎ Any P xs

pub Any-perm {ℓ} :
    {A : Type ℓ} (P : A → Type 0) {xs ys : List A} → Permᴰ xs ys → Any P xs → Any P ys
Any-perm P Permᴰ.nil h = h
Any-perm P (Permᴰ.cons e p) (inl h) = inl (subst P e h)
Any-perm P (Permᴰ.cons e p) (inr h) = inr (Any-perm P p h)
Any-perm P (Permᴰ.swap e f) (inl h) = inr (inl (subst P e h))
Any-perm P (Permᴰ.swap e f) (inr (inl h)) = inl (subst P f h)
Any-perm P (Permᴰ.swap {l = l} e f) (inr (inr h)) = inr (inr h)
Any-perm P (Permᴰ.trans p q) h = Any-perm P q (Any-perm P p h)

-- Each element has R to every later one.
abbrev pub InOrder {ℓ κ} : {A : Type ℓ} → (A → A → Type κ) → List A → Type κ
InOrder R [] = Unit
InOrder R (a ∷ xs) = All (R a) xs × InOrder R xs

module _ {ℓ κ} {A : Type ℓ} (less : A → A → Bool) (R : A → A → Type κ)
    (not_less : (a b : A) → less b a ≡ false → R a b) where
  All-not_less : (a : A) (xs : List A) → All (λ b. less b a ≡ false) xs → All (R a) xs
  All-not_less a [] ps = tt
  All-not_less a (b ∷ bs) (p, ps) = (not_less a b p, All-not_less a bs ps)

  pub IsAscending-InOrder : (xs : List A) → IsAscending less xs → InOrder R xs
  IsAscending-InOrder [] s = tt
  IsAscending-InOrder (a ∷ xs) (ps, s) = (All-not_less a xs ps, IsAscending-InOrder xs s)

-- The lexical order of texts by their bytes
abbrev pub Precedes : Str → Str → Type 0
Precedes [] [] = ⊥
Precedes [] (y ∷ ys) = Unit
Precedes (x ∷ xs) [] = ⊥
Precedes (x ∷ xs) (y ∷ ys) = (x < y) ⊎ ((x ≡ y) × Precedes xs ys)

pub str_lt-Precedes : (a b : Str) → str_lt a b ≡ true → Precedes a b
unfolding str_lt
str_lt-Precedes [] [] h = cc h
str_lt-Precedes [] (y ∷ ys) h = tt
str_lt-Precedes (x ∷ xs) [] h = cc h
str_lt-Precedes (x ∷ xs) (y ∷ ys) h = ground (arith, str_lt-Precedes xs ys)

pub Precedes-str_lt : (a b : Str) → Precedes a b → str_lt a b ≡ true
unfolding str_lt
Precedes-str_lt [] [] h = absurd h
Precedes-str_lt [] (y ∷ ys) h = refl
Precedes-str_lt (x ∷ xs) [] h = absurd h
Precedes-str_lt (x ∷ xs) (y ∷ ys) h = ground (arith, Precedes-str_lt xs ys)

-- `a` is `b` or precedes it.
abbrev pub NotBehind : Str → Str → Type 0
NotBehind a b = Precedes b a → ⊥

pub not_lt-NotBehind : (a b : Str) → str_lt b a ≡ false → NotBehind a b
not_lt-NotBehind a b h p = cc (h, Precedes-str_lt b a p)

pub str_lt_irrefl : (a : Str) → str_lt a a ≡ false
unfolding str_lt
str_lt_irrefl [] = refl
str_lt_irrefl (x ∷ xs) = ground (arith, str_lt_irrefl xs)

pub str_lt_asym : (a b : Str) → str_lt a b ≡ true → str_lt b a ≡ false
unfolding str_lt
str_lt_asym [] (y ∷ ys) h = refl
str_lt_asym (x ∷ xs) (y ∷ ys) h = ground (arith, str_lt_asym xs ys)
str_lt_asym [] [] h = refl
str_lt_asym (x ∷ xs) [] h = cc h

pub str_lt_not_trans : (a b c : Str) → str_lt b a ≡ false → str_lt c b ≡ false → str_lt c a ≡ false
unfolding str_lt
str_lt_not_trans [] b [] h k = refl
str_lt_not_trans [] b (z ∷ zs) h k = refl
str_lt_not_trans (x ∷ xs) [] c h k = cc h
str_lt_not_trans (x ∷ xs) (y ∷ ys) [] h k = cc k
str_lt_not_trans (x ∷ xs) (y ∷ ys) (z ∷ zs) h k = ground (arith, str_lt_not_trans xs ys zs)

pub str_lt_antisym : (a b : Str) → str_lt a b ≡ false → str_lt b a ≡ false → a ≡ b
unfolding str_lt
str_lt_antisym [] [] h k = refl
str_lt_antisym [] (y ∷ ys) h k = cc h
str_lt_antisym (x ∷ xs) [] h k = cc k
str_lt_antisym (x ∷ xs) (y ∷ ys) h k = grind (arith, str_lt_antisym xs ys)

pub str_lt-IsOrder : IsOrder str_lt
str_lt-IsOrder = record { asym = str_lt_asym; not_trans = str_lt_not_trans }
