-- ===== src/Pull/Pool/Steps.antt =====
-- The workers of a pull: every run ends, after the same number of steps, with each job done once.
use mathlib.Core.List.{Permᴰ}
use mathlib.Core.List.Permᴰ
use hali_client.Base.{
  ℕ, zero, suc, ◌+◌, ◌-◌, ◌*◌, ◌<◌, ◌≤◌, ◌≡◌, refl, ap, subst, List, [], ◌∷◌, ◌++◌, map, length,
  length-append, append_assoc, append-nil, Str, Result, arith,
}
use hali_client.Pull.Pool.{Pool, Step, receives, sends, Run, begins, goes_on, IsFinal}

-- The numbers below k, the largest first
abbrev pub below : ℕ → List ℕ
below zero = []
below (suc k) = k ∷ below k

-- The results of some jobs
abbrev pub outs : {A : Type 0} → (ℕ → Result Str A) → List ℕ → List (ℕ × Result Str A)
outs work is = map (λ i. (i, work i)) is

module _ {A : Type 0} (n c : ℕ) (work : ℕ → Result Str A) where
  Step-next : {p q : Pool A} → Step n c work p q → p.next ≤ n → q.next ≤ n
  Step-next (receives p h k) le = omega arith
  Step-next (sends p is i js e) le = le

  Run-next : {k : ℕ} {p : Pool A} → Run n c work k p → p.next ≤ n
  Run-next begins = omega arith
  Run-next (goes_on r s) = Step-next s (Run-next r)

  Step-left :
      {p q : Pool A}
      → Step n c work p q
      → q.next ≤ n
      → 2 * (n - p.next) + length p.running ≡ suc (2 * (n - q.next) + length q.running)
  Step-left (receives p h k) le = omega arith
  Step-left (sends p is i js e) le =
      rw e (rw (length-append is (i ∷ js)) (rw (length-append is js) (omega arith)))

  Run-left :
      {k : ℕ} {p : Pool A} → Run n c work k p → k + (2 * (n - p.next) + length p.running) ≡ 2 * n
  Run-left begins = omega arith
  Run-left (goes_on r s) = omega (arith, Run-left r, Step-left s (Run-next (goes_on r s)))

  next-Step :
      (p : Pool A) (running : List ℕ)
      → p.running ≡ running
      → 0 < c
      → 0 < 2 * (n - p.next) + length running
      → (q : Pool A) × Step n c work p q
  next-Step p [] e h l = (
    record p { next = suc p.next; running = p.next ∷ p.running },
    receives p (omega arith) (rw e h),
  )
  next-Step p (i ∷ js) e h l =
      (record p { running = js; out = p.out ++ (i, work i) ∷ [] }, sends p [] i js e)

  length-nil : (is : List ℕ) → length is ≡ 0 → is ≡ []
  length-nil [] h = refl
  length-nil (i ∷ is) h = absurd (omega arith)

  -- In every state that a pool with a worker reaches after fewer than two steps for each file, a
  -- worker can go on; a run cannot be longer, and after that many steps all jobs are done.
  pub Run-ends :
      {k : ℕ} {p : Pool A}
      → 0 < c
      → Run n c work k p
      → (k ≤ 2 * n) × (k < 2 * n → (q : Pool A) × Step n c work p q) × (k ≡ 2 * n → IsFinal n p)
  Run-ends {k} {p} h r = (
    omega (arith, Run-left r),
    (λ l. next-Step p p.running refl h (omega (arith, Run-left r))),
    (λ e.
        (omega (arith, Run-left r, Run-next r), length-nil p.running (omega (arith, Run-left r)))),
  )

  map_append : (is js : List ℕ) → outs work (is ++ js) ≡ outs work is ++ outs work js
  map_append [] js = refl
  map_append (i ∷ is) js = ap (◌∷◌ (i, work i)) (map_append is js)

  -- The results in the channel are those of some jobs, and these are with the running jobehind the jobehind
  -- that have been handed out.
  abbrev pub IsHanded : Pool A → Type 0
  IsHanded p = (is : List ℕ) × (p.out ≡ outs work is) × Permᴰ (p.running ++ is) (below p.next)

  moved :
      (before : List ℕ) (i : ℕ) (behind is : List ℕ)
      → Permᴰ ((before ++ behind) ++ (is ++ i ∷ [])) ((before ++ i ∷ behind) ++ is)
  moved before i behind is =
      let last : Permᴰ (before ++ (behind ++ (is ++ i ∷ []))) (i ∷ (before ++ (behind ++ is))) =
        simp (append_assoc, append-nil) at (Permᴰ.middle i (before ++ (behind ++ is)) []) in
      simp append_assoc (Permᴰ.trans last (Permᴰ.symm (Permᴰ.middle i before (behind ++ is))))

  Run-IsHanded : {k : ℕ} {p : Pool A} → Run n c work k p → IsHanded p
  Run-IsHanded begins = ([], refl, Permᴰ.nil)
  Run-IsHanded (goes_on r (receives p h l)) =
      let (is, e, q) = Run-IsHanded r in (is, e, Permᴰ.cons refl q)
  Run-IsHanded (goes_on r (sends p before i behind e)) =
      let (is, f, q) = Run-IsHanded r in
      (
        is ++ i ∷ [],
        rw (map_append is (i ∷ [])) (ap (λ x. x ++ (i, work i) ∷ []) f),
        Permᴰ.trans (moved before i behind is) (subst (λ rs. Permᴰ (rs ++ is) (below p.next)) e q),
      )

  -- At the end the channel holds the result of each job below n, once.
  pub Run-out :
      {k : ℕ} {p : Pool A}
      → Run n c work k p
      → IsFinal n p
      → (is : List ℕ) × (p.out ≡ outs work is) × Permᴰ is (below n)
  Run-out {p = p} r (e, f) =
      let (is, g, q) = Run-IsHanded r in
      (
        is,
        g,
        subst (λ rs. Permᴰ (rs ++ is) (below n)) f
            (subst (λ m. Permᴰ (p.running ++ is) (below m)) e q),
      )
