-- ===== src/Events/Attempts.antt =====
-- sendWithRetry against the sequence of the attempts' results.
use hali_client.Base.{
  ℕ, zero, suc, ◌+◌, ◌*◌, ◌≤◌, ◌≡◌, refl, ap, ◌∙◌, arith, Bool, true, false, not, List, [], ◌∷◌,
  Result, ok, err, if◌then◌else◌, take, length, ltb, Bool-cases, inl, inr,
}
use hali_client.Events.{
  SendError, ModelPullEvent, Ingest, is_retryable, after_attempt, attempts_from, send,
  send_with_retry,
}

-- Whether a result ends the attempts: a success or a permanent error.
abbrev pub is_final : Result SendError (Unit {0}) → Bool
is_final (ok u) = true
is_final (err e) = not (is_retryable e)

-- The first final result of a sequence, or its last one.
abbrev pub first_final :
    Result SendError (Unit {0}) → List (Result SendError (Unit {0})) → Result SendError (Unit {0})
first_final r [] = r
first_final r (s ∷ rs) = if is_final r then r else first_final s rs

abbrev pub count_before : Result SendError (Unit {0}) → List (Result SendError (Unit {0})) → ℕ
count_before r [] = 0
count_before r (s ∷ rs) = if is_final r then 0 else suc (count_before s rs)

abbrev pub results_from :
    (ℕ → Result SendError (Unit {0})) → ℕ → ℕ → List (Result SendError (Unit {0}))
results_from try zero k = []
results_from try (suc n) k = try k ∷ results_from try n (k + 1)

abbrev pub never_stopped : ℕ → Bool
never_stopped k = false

abbrev doubled : ℕ → ℕ → List ℕ
doubled zero backoff = []
doubled (suc n) backoff = backoff ∷ doubled n (if ltb backoff 16 then backoff * 2 else backoff)

after_attempt-first_final :
    (backoff : ℕ) (r s : Result SendError (Unit {0})) (rs : List (Result SendError (Unit {0})))
    (rest : Result SendError (Unit {0}) × List ℕ)
    → rest.0 ≡ first_final s rs
    → rest.1 ≡ doubled (count_before s rs) (if ltb backoff 16 then backoff * 2 else backoff)
    → ((after_attempt false backoff r rest).0 ≡ first_final r (s ∷ rs))
      × ((after_attempt false backoff r rest).1 ≡ doubled (count_before r (s ∷ rs)) backoff)
unfolding after_attempt
after_attempt-first_final backoff (ok u) s rs rest h k = (refl, refl)
after_attempt-first_final backoff (err x) s rs rest h k = elim (Bool-cases (is_retryable x)) [
  | inl e ↦ rw e (h, ap (◌∷◌ backoff) k)
  | inr e ↦ rw e (refl, refl)
]

doubled-take : (n : ℕ) → n ≤ 4 → doubled n 1 ≡ take n (1 ∷ 2 ∷ 4 ∷ 8 ∷ [])
doubled-take zero h = refl
doubled-take (suc zero) h = refl
doubled-take (suc (suc zero)) h = refl
doubled-take (suc (suc (suc zero))) h = refl
doubled-take (suc (suc (suc (suc zero)))) h = refl
doubled-take (suc (suc (suc (suc (suc n))))) h = absurd (omega arith)

count_before-length :
    (r : Result SendError (Unit {0})) (rs : List (Result SendError (Unit {0})))
    → count_before r rs ≤ length rs
count_before-length r [] = omega arith
count_before-length r (s ∷ rs) = ground (arith, count_before-length s rs)

attempts_from-first_final :
    (try : ℕ → Result SendError (Unit {0})) (left attempt backoff : ℕ)
    → ((attempts_from try never_stopped left attempt backoff).0
        ≡ first_final (try attempt) (results_from try left (attempt + 1)))
      × ((attempts_from try never_stopped left attempt backoff).1
          ≡ doubled (count_before (try attempt) (results_from try left (attempt + 1))) backoff)
unfolding attempts_from
attempts_from-first_final try zero attempt backoff = (refl, refl)
attempts_from-first_final try (suc left) attempt backoff =
    let next = if ltb backoff 16 then backoff * 2 else backoff in
    let (result, waits) = attempts_from-first_final try left (attempt + 1) next in
    after_attempt-first_final backoff (try attempt) (try (attempt + 1))
      (results_from try left (attempt + 1 + 1))
      (attempts_from try never_stopped left (attempt + 1) next) result waits

-- While the worker is not stopped, sendWithRetry ends with the first of its five attempts that
-- succeeds or fails permanently, and else with the fifth; it waits a second after the first attempt
-- and doubles the wait after each further one, once for every attempt that it repeats.
pub send_with_retry-first_final :
    (server : ℕ → Ingest) (event : ModelPullEvent)
    → ((send_with_retry server never_stopped event).0
        ≡ first_final (send (server 0) event) (
            send (server 1) event
            ∷ send (server 2) event
            ∷ send (server 3) event
            ∷ send (server 4) event
            ∷ []))
      × ((send_with_retry server never_stopped event).1
          ≡ take
              (count_before (send (server 0) event) (
                send (server 1) event
                ∷ send (server 2) event
                ∷ send (server 3) event
                ∷ send (server 4) event
                ∷ []))
              (1 ∷ 2 ∷ 4 ∷ 8 ∷ []))
unfolding send_with_retry
send_with_retry-first_final server event =
    let (result, waits) = attempts_from-first_final (λ k. send (server k) event) 4 0 1 in
    let n =
      count_before-length (send (server 0) event) (results_from (λ k. send (server k) event) 4 1) in
    (result, waits ∙ doubled-take _ n)
