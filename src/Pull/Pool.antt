-- ===== src/Pull/Pool.antt =====
-- cmd/pull.go: downloadSelectedFiles, with its workers as a step relation. The jobs are numbers of
-- files in the selection; `work i` is what a worker makes of job i: the artifact or the error of
-- downloadOneFile, or context.Canceled when the context has ended before it.
pub mod Steps
pub mod Collect
mod Tests
use hali_client.Base.{
  ℕ, zero, suc, ◌+◌, ◌-◌, ◌*◌, ◌<◌, ◌≡◌, Bool, true, false, not, List, [], ◌∷◌, ◌++◌, map, length,
  replicate, set, Str, codes, Option, none, some, Result, ok, err, leb, ltb, if◌then◌else◌,
}
use hali_client.Base.Int.{ℤ, pos, ltb_ℤ, leb_ℤ}

-- The number of workers for a configured number and the number of files
unfoldable pub concurrency_of : ℤ → ℕ → ℤ
concurrency_of configured n =
    let c = if leb n 1 then pos 1 else configured in if ltb_ℤ (pos n) c then pos n else c

pub record Pool (A : Type 0) : Type 0 where
  pub next : ℕ
  pub running : List ℕ
  pub out : List (ℕ × Result Str A)

pub record Downloads (A : Type 0) : Type 0 where
  pub results : List A
  pub errors : List Str
  pub canceled : Bool

abbrev pub start : {A : Type 0} → Pool A
start = record { next = 0; running = []; out = [] }

module _ {A : Type 0} (n c : ℕ) (work : ℕ → Result Str A) where
  -- An idle worker receives the next job, or a worker sends the result of its job. The channel `out`
  -- has room for all results.
  pub data Step : Pool A → Pool A → Type 0 where
    receives :
        (p : Pool A)
        → p.next < n
        → length p.running < c
        → Step p (record p { next = suc p.next; running = p.next ∷ p.running })
    sends :
        (p : Pool A) (is : List ℕ) (i : ℕ) (js : List ℕ)
        → p.running ≡ is ++ i ∷ js
        → Step p (record p { running = is ++ js; out = p.out ++ (i, work i) ∷ [] })

  -- A run with its number of steps
  pub data Run : ℕ → Pool A → Type 0 where
    begins : Run 0 start
    goes_on : {k : ℕ} {p q : Pool A} → Run k p → Step p q → Run (suc k) q

-- All jobs are handed out and all workers idle: wg.Wait returns, and `out` is closed.
abbrev pub IsFinal : {A : Type 0} → ℕ → Pool A → Type 0
IsFinal n p = (p.next ≡ n) × (p.running ≡ [])

abbrev pub failure : Str → Str → Str
failure name e = name ++ (codes ": " ++ e)

module _ {A : Type 0} (name : ℕ → Str) where
  -- The loop over `out`, with ordered and succeeded in one list, and the errors so far
  unfoldable pub collect :
      List (ℕ × Result Str A) → List (Option A) → List Str → List (Option A) × List Str
  collect [] ordered errs = (ordered, errs)
  collect ((i, err e) ∷ out) ordered errs = collect out ordered (errs ++ failure (name i) e ∷ [])
  collect ((i, ok a) ∷ out) ordered errs = collect out (set ordered i (some a)) errs

  unfoldable pub compact : List (Option A) → List A
  compact [] = []
  compact (none ∷ os) = compact os
  compact (some a ∷ os) = a ∷ compact os

  -- The results of a pool whose channel has been closed
  unfoldable pub pool_downloads : ℕ → List (ℕ × Result Str A) → Downloads A
  unfolding collect compact
  pool_downloads n out =
      let r = collect out (replicate n none) [] in
      record { results = compact r.0; errors = r.1; canceled = false }

  abbrev pub with_file : ℕ → Result Str A → Downloads A → Downloads A
  with_file i (ok a) d = record d { results = a ∷ d.results }
  with_file i (err e) d =
      if d.canceled then d else record d { errors = failure (name i) e ∷ d.errors }

  -- The loop without workers over `m` files from file `i` on. When the context ends it returns the
  -- results, and the errors are dropped.
  unfoldable pub in_turn : (ℕ → Bool) → (ℕ → Result Str A) → ℕ → ℕ → Downloads A
  in_turn ended work i zero = record { results = []; errors = []; canceled = false }
  in_turn ended work i (suc m) =
      let rest = in_turn ended work (suc i) m in
      if ended i
      then record { results = []; errors = []; canceled = true }
      else with_file i (work i) rest
