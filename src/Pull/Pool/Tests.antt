-- ===== src/Pull/Pool/Tests.antt =====
-- Tests and witnesses for the workers of a pull.
use mathlib.Core.List.{Permᴰ}
use hali_client.Base.{
  ℕ, zero, suc, ◌*◌, ◌<◌, ◌≤◌, [], ◌∷◌, Str, codes, Result, ok, err, ◌≡◌, refl, false, arith,
}
use hali_client.Base.Int.{pos}
use hali_client.Pull.Pool.{
  Pool, Step, receives, sends, Run, begins, goes_on, IsFinal, concurrency_of, pool_downloads,
  in_turn, collect, compact,
}
use hali_client.Pull.Pool.Steps.{Run-ends}
use hali_client.Pull.Pool.Collect.{pool_downloads-in_turn}

capped : concurrency_of (pos 8) 3 ≡ pos 3
unfolding concurrency_of
capped = refl

abbrev name_of : ℕ → Str
name_of zero = codes "a.gguf"
name_of (suc i) = codes "b.gguf"

-- The first file fails, and the second is 20 bytes.
abbrev works : ℕ → Result Str ℕ
works zero = err (codes "no space")
works (suc i) = ok 20

abbrev after_one : Pool ℕ
after_one = record { next = 1; running = 0 ∷ []; out = [] }

abbrev after_two : Pool ℕ
after_two = record { next = 2; running = 1 ∷ 0 ∷ []; out = [] }

abbrev after_three : Pool ℕ
after_three = record { next = 2; running = 0 ∷ []; out = (1, ok 20) ∷ [] }

abbrev after_four : Pool ℕ
after_four = record { next = 2; running = []; out = (1, ok 20) ∷ (0, err (codes "no space")) ∷ [] }

run_two : Run 2 2 works 2 after_two
run_two =
    goes_on (goes_on begins (receives _ (omega arith) (omega arith)))
      (receives _ (omega arith) (omega arith))

-- The second file is ready before the first.
run_four : Run 2 2 works 4 after_four
run_four =
    goes_on (goes_on run_two (sends after_two [] 1 (0 ∷ []) refl)) (sends after_three [] 0 [] refl)

downloads :
    pool_downloads name_of 2 after_four.out
    ≡ record { results = 20 ∷ []; errors = codes "a.gguf: no space" ∷ []; canceled = false }
unfolding pool_downloads collect compact
downloads = refl

Run-ends_example :
    (2 ≤ 2 * 2)
    × (2 < 2 * 2 → (q : Pool ℕ) × Step 2 2 works after_two q)
    × (2 ≡ 2 * 2 → IsFinal 2 after_two)
Run-ends_example = Run-ends 2 2 works (omega arith) run_two

pool_downloads-in_turn_example :
    ((pool_downloads name_of 2 after_four.out).results
      ≡ (in_turn name_of (λ _. false) works 0 2).results)
    × Permᴰ
        (pool_downloads name_of 2 after_four.out).errors
        (in_turn name_of (λ _. false) works 0 2).errors
pool_downloads-in_turn_example =
    pool_downloads-in_turn name_of 2 2 works 4 after_four run_four (refl, refl)
