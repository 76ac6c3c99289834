-- ===== src/Pull/Pool/Collect.antt =====
-- What the loop over the workers' channel makes of the results, in whatever order they come.
use mathlib.Core.List.{Permᴰ}
use mathlib.Core.List.Permᴰ
use hali_client.Base.{
  ℕ, zero, suc, ◌+◌, ◌≡◌, ◌≢◌, refl, ap, ◌∙◌, false, List, [], ◌∷◌, ◌++◌, map, length,
  length-append, replicate, set, append_assoc, append-nil, Str, Option, none, some, Result, ok, err,
  arith, inl, inr, ◌⊎◌, Bool-cases, ◌==◌, ==_iff,
}
use hali_client.Pull.Pool.{Run, Pool, IsFinal, failure, collect, compact, pool_downloads, in_turn}
use hali_client.Pull.Pool.Steps.{below, outs, Run-out}

set_comm {ℓ} :
    {A : Type ℓ} (xs : List A) (i j : ℕ) (a b : A)
    → i ≢ j
    → set (set xs i a) j b ≡ set (set xs j b) i a
set_comm [] i j a b h = refl
set_comm (x ∷ xs) zero zero a b h = absurd (h refl)
set_comm (x ∷ xs) zero (suc j) a b h = refl
set_comm (x ∷ xs) (suc i) zero a b h = refl
set_comm (x ∷ xs) (suc i) (suc j) a b h = ap (◌∷◌ x) (set_comm xs i j a b (λ e. h (ap suc e)))

set-length_append {ℓ} :
    {A : Type ℓ} (xs : List A) (x v : A) (ys : List A)
    → set (xs ++ x ∷ ys) (length xs) v ≡ xs ++ v ∷ ys
set-length_append [] x v ys = refl
set-length_append (y ∷ xs) x v ys = ap (◌∷◌ y) (set-length_append xs x v ys)

Result-cases {ℓ κ} :
    {E : Type ℓ} {A : Type κ} (r : Result E A) → ((a : A) × (r ≡ ok a)) ⊎ ((e : E) × (r ≡ err e))
Result-cases (ok a) = inl (a, refl)
Result-cases (err e) = inr (e, refl)

length-snoc {ℓ} : {A : Type ℓ} (xs : List A) (x : A) → length (xs ++ x ∷ []) ≡ suc (length xs)
length-snoc xs x = omega (arith, length-append xs (x ∷ []))

-- The numbers from i on, m of them
abbrev upward : ℕ → ℕ → List ℕ
upward i zero = []
upward i (suc m) = i ∷ upward (suc i) m

module _ {A : Type 0} (name : ℕ → Str) (work : ℕ → Result Str A) where
  abbrev to_option : Result Str A → Option A
  to_option (ok a) = some a
  to_option (err e) = none

  abbrev put_result : ℕ → Result Str A → List (Option A) → List (Option A)
  put_result i (ok a) os = set os i (some a)
  put_result i (err e) os = os

  abbrev place : List ℕ → List (Option A) → List (Option A)
  place [] os = os
  place (i ∷ is) os = place is (put_result i (work i) os)

  abbrev message : ℕ → Result Str A → List Str
  message i (ok a) = []
  message i (err e) = failure (name i) e ∷ []

  abbrev pub messages : List ℕ → List Str
  messages [] = []
  messages (i ∷ is) = message i (work i) ++ messages is

  collect-place :
      (is : List ℕ) (os : List (Option A)) (errs : List Str)
      → collect name (outs work is) os errs ≡ (place is os, errs ++ messages is)
  unfolding collect
  collect-place [] os errs = rw append-nil refl
  collect-place (i ∷ is) os errs = elim (Result-cases (work i)) [
    | inl (a, e) ↦ rw e (collect-place is (set os i (some a)) errs)
    | inr (x, e) ↦ rw e (
        collect-place is os (errs ++ failure (name i) x ∷ [])
        ∙ ap (λ t. (place is os, t)) (append_assoc errs (failure (name i) x ∷ []) (messages is)))
  ]

  put_comm :
      (i j : ℕ) (r s : Result Str A) (os : List (Option A))
      → (i ≢ j)
      → put_result j s (put_result i r os) ≡ put_result i r (put_result j s os)
  put_comm i j (ok a) (ok b) os h = set_comm os i j (some a) (some b) h
  put_comm i j (ok a) (err e) os h = refl
  put_comm i j (err e) (ok b) os h = refl
  put_comm i j (err e) (err f) os h = refl

  put_swap :
      (i j : ℕ) (os : List (Option A))
      → put_result j (work j) (put_result i (work i) os)
        ≡ put_result i (work i) (put_result j (work j) os)
  put_swap i j os = elim (Bool-cases (i == j)) [
    | inl h ↦ rw ((==_iff i j).0 h) refl
    | inr h ↦ put_comm i j (work i) (work j) os (λ e. cc (h, (==_iff i j).1 e))
  ]

  place-eq_of_perm :
      {is js : List ℕ} → Permᴰ is js → (os : List (Option A)) → place is os ≡ place js os
  place-eq_of_perm Permᴰ.nil os = refl
  place-eq_of_perm (Permᴰ.cons {b = j} e p) os =
      rw e (place-eq_of_perm p (put_result j (work j) os))
  place-eq_of_perm (Permᴰ.swap {a = i} {b = j} {l = is} e f) os =
      rw (← e, ← f) (ap (place is) (put_swap i j os))
  place-eq_of_perm (Permᴰ.trans p q) os = place-eq_of_perm p os ∙ place-eq_of_perm q os

  messages_swap :
      (i j : ℕ) (r s : Result Str A)
      → Permᴰ (message i r ++ message j s) (message j s ++ message i r)
  messages_swap i j (ok a) (ok b) = Permᴰ.nil
  messages_swap i j (ok a) (err f) = Permᴰ.refl _
  messages_swap i j (err e) (ok b) = Permᴰ.refl _
  messages_swap i j (err e) (err f) = Permᴰ.swap refl refl

  messages-perm : {is js : List ℕ} → Permᴰ is js → Permᴰ (messages is) (messages js)
  messages-perm Permᴰ.nil = Permᴰ.nil
  messages-perm (Permᴰ.cons {b = j} e p) =
      rw e (Permᴰ.append_left (message j (work j)) (messages-perm p))
  messages-perm (Permᴰ.swap {a = i} {b = j} {l = l} e f) =
      rw (← e, ← f)
        (simp (← append_assoc)
          (Permᴰ.append_right (messages l) (messages_swap i j (work i) (work j))))
  messages-perm (Permᴰ.trans p q) = Permᴰ.trans (messages-perm p) (messages-perm q)

  place-upward :
      (m : ℕ) (before : List (Option A))
      → place (upward (length before) m) (before ++ replicate m none)
        ≡ before ++ map (λ i. to_option (work i)) (upward (length before) m)
  place-upward zero before = refl
  place-upward (suc m) before =
      let next : (o : Option A)
          → place (upward (suc (length before)) m) (before ++ o ∷ replicate m none)
            ≡ before ++ o ∷ map (λ i. to_option (work i)) (upward (suc (length before)) m) =
        λ o. simp (length-snoc before o, append_assoc) at (place-upward m (before ++ o ∷ [])) in
      let put : (r : Result Str A)
          → work (length before) ≡ r
          → place (upward (length before) (suc m)) (before ++ replicate (suc m) none)
            ≡ place (upward (suc (length before)) m)
                (put_result (length before) r (before ++ none ∷ replicate m none)) =
        λ r e.
          ap
            (λ r.
              place (upward (suc (length before)) m)
                (put_result (length before) r (before ++ none ∷ replicate m none)))
            e in
      elim (Result-cases (work (length before))) [
        | inl (a, e) ↦ rw e (
            put (ok a) e
            ∙ ap (place (upward (suc (length before)) m))
                (set-length_append before none (some a) (replicate m none))
            ∙ next (some a))
        | inr (x, e) ↦ rw e (put (err x) e ∙ next none)
      ]

  compact-in_turn :
      (i m : ℕ)
      → in_turn name (λ _. false) work i m ≡ record {
        results = compact name (map (λ j. to_option (work j)) (upward i m));
        errors = messages (upward i m);
        canceled = false;
      }
  unfolding in_turn compact
  compact-in_turn i zero = refl
  compact-in_turn i (suc m) = elim (Result-cases (work i)) [
    | inl (a, e) ↦ rw (e, compact-in_turn (suc i) m) refl
    | inr (x, e) ↦ rw (e, compact-in_turn (suc i) m) refl
  ]

upward-perm : (n k : ℕ) → Permᴰ (upward k (suc n)) ((k + n) ∷ upward k n)
upward-perm zero k = Permᴰ.cons (omega arith) Permᴰ.nil
upward-perm (suc n) k =
    Permᴰ.trans (Permᴰ.cons refl (upward-perm n (suc k))) (Permᴰ.swap refl (omega arith))

below-upward : (n : ℕ) → Permᴰ (below n) (upward 0 n)
below-upward zero = Permᴰ.nil
below-upward (suc n) =
    Permᴰ.trans (Permᴰ.cons (omega arith) (below-upward n)) (Permᴰ.symm (upward-perm n 0))

-- When all workers of a pull are done, the results are those of the files downloaded one after the
-- other, in the order of the selection, and the errors are the same up to their order, where the
-- download of a file gives the same in both and the context does not end in the second.
pub pool_downloads-in_turn :
    {A : Type 0} (name : ℕ → Str) (n c : ℕ) (work : ℕ → Result Str A) (k : ℕ) (p : Pool A)
    → Run n c work k p
    → IsFinal n p
    → ((pool_downloads name n p.out).results ≡ (in_turn name (λ _. false) work 0 n).results)
      × Permᴰ (pool_downloads name n p.out).errors (in_turn name (λ _. false) work 0 n).errors
unfolding pool_downloads
pool_downloads-in_turn name n c work k p r f =
    let (is, e, q) = Run-out n c work r f in
    let perm = Permᴰ.trans q (below-upward n) in
    rw (e, collect-place name work is (replicate n none) [], compact-in_turn name work 0 n)
      (
        ap (compact name)
            (place-eq_of_perm name work perm (replicate n none) ∙ place-upward name work n []),
        messages-perm name work perm,
      )
