-- ===== src/Hf/Api.antt =====
-- internal/hf/client.go: the requests to the Hugging Face API with their retries. The server and the
-- context are parameters; a wait is in milliseconds.
use hali_client.Base.{
  ℕ, zero, suc, ◌+◌, ◌*◌, ◌^◌, ◌≡◌, refl, ap, Bool, false, not, ◌||◌, List, [], ◌∷◌, ◌++◌, Str,
  codes, Option, none, some, ltb, leb, ◌==◌, if◌then◌else◌, Bool-cases, inl, inr, Result, ok, err,
}

pub record Reply : Type 0 where
  pub status : ℕ
  pub status_text : Str
  pub body : Str

abbrev hf_api_max_attempts : ℕ
hf_api_max_attempts = 4

abbrev hf_api_base_delay : ℕ
hf_api_base_delay = 250

abbrev hf_api_max_delay : ℕ
hf_api_max_delay = 2000

-- isRetryableStatus
abbrev pub is_retryable_status : ℕ → Bool
is_retryable_status code = code == 429 || leb 500 code

-- The response of one attempt, or lastErr
unfoldable pub checked : Result Str Reply → Result Str Reply
checked (err e) = err e
checked (ok r) =
    if is_retryable_status r.status then err (codes "HF API returned " ++ r.status_text) else ok r

abbrev pub api_delay : ℕ → ℕ
api_delay k =
    let delay = hf_api_base_delay * 2 ^ k in
    if ltb hf_api_max_delay delay then hf_api_max_delay else delay

-- What the loop does with the response of attempt `k` when there are attempts left: it returns, also
-- with the context's error, or it waits and goes on. The context is looked at only behind a failed
-- request, and while waiting.
unfoldable pub after_reply :
    Option Str
    → Option Str
    → ℕ
    → Result Str Reply
    → Result Str Reply × List ℕ
    → Result Str Reply × List ℕ
unfolding checked
after_reply (some c) waiting k (err e) rest = (err c, [])
after_reply none (some c) k (err e) rest = (err c, api_delay k ∷ [])
after_reply none none k (err e) rest = (rest.0, api_delay k ∷ rest.1)
after_reply ended (some c) k (ok r) rest =
    if is_retryable_status r.status then (err c, api_delay k ∷ []) else (ok r, [])
after_reply ended none k (ok r) rest =
    if is_retryable_status r.status then (rest.0, api_delay k ∷ rest.1) else (ok r, [])

abbrev pub last_reply : Option Str → Result Str Reply → Result Str Reply
last_reply (some c) (err e) = err c
last_reply none (err e) = err e
last_reply ended (ok r) = checked (ok r)

module _ (server : ℕ → Result Str Reply) (ended waiting : ℕ → Option Str) where
  unfoldable pub request_from : ℕ → ℕ → Result Str Reply × List ℕ
  unfolding after_reply
  request_from zero k = (last_reply (ended k) (server k), [])
  request_from (suc left) k =
      let rest = request_from left (k + 1) in after_reply (ended k) (waiting k) k (server k) rest

  -- doAPIRequestWithRetry
  unfoldable pub do_api_request_with_retry : Result Str Reply × List ℕ
  unfolding request_from
  do_api_request_with_retry = request_from 3 0

abbrev pub is_answer : Result Str Reply → Bool
is_answer (err e) = false
is_answer (ok r) = not (is_retryable_status r.status)

-- The first of a sequence of replies that is an answer, or what the last one is made into.
abbrev pub first_answer : Result Str Reply → List (Result Str Reply) → Result Str Reply
first_answer r [] = checked r
first_answer r (s ∷ rs) = if is_answer r then checked r else first_answer s rs

abbrev pub waits_before : List ℕ → Result Str Reply → List (Result Str Reply) → List ℕ
waits_before [] r rs = []
waits_before ms r [] = []
waits_before (m ∷ ms) r (s ∷ rs) = if is_answer r then [] else m ∷ waits_before ms s rs

abbrev pub never : ℕ → Option Str
never k = none

after_reply-first_answer :
    (k : ℕ) (r s : Result Str Reply) (rs : List (Result Str Reply)) (ms : List ℕ)
    (rest : Result Str Reply × List ℕ)
    → rest ≡ (first_answer s rs, waits_before ms s rs)
    → after_reply none none k r rest
      ≡ (first_answer r (s ∷ rs), waits_before (api_delay k ∷ ms) r (s ∷ rs))
unfolding after_reply checked
after_reply-first_answer k (err e) s rs ms rest h =
    ap (λ (x : Result Str Reply × List ℕ). (x.0, api_delay k ∷ x.1)) h
after_reply-first_answer k (ok r) s rs ms rest h =
    elim (Bool-cases (is_retryable_status r.status)) [
      | inl e ↦ rw e (ap (λ (x : Result Str Reply × List ℕ). (x.0, api_delay k ∷ x.1)) h)
      | inr e ↦ rw e refl
    ]

last_reply-first_answer :
    (r : Result Str Reply)
    → (◌≡◌ {A = Result Str Reply × List ℕ}
        (last_reply none r, [])
        (first_answer r [], waits_before [] r []))
unfolding checked
last_reply-first_answer (err e) = refl
last_reply-first_answer (ok r) = refl

-- While the context lives, a request to the API has the first reply of four attempts whose status is
-- neither 429 nor 500 or above, and otherwise the error of the fourth; it waits 250, 500 and 1000
-- milliseconds behind the first, the second and the third attempt, as far as it repeats them.
do_api_request_with_retry-first_answer :
    (server : ℕ → Result Str Reply)
    → do_api_request_with_retry server never never ≡ (
      first_answer (server 0) (server 1 ∷ server 2 ∷ server 3 ∷ []),
      waits_before (250 ∷ 500 ∷ 1000 ∷ []) (server 0) (server 1 ∷ server 2 ∷ server 3 ∷ []),
    )
unfolding do_api_request_with_retry request_from
do_api_request_with_retry-first_answer server =
    after_reply-first_answer 0 (server 0) (server 1) (server 2 ∷ server 3 ∷ []) (500 ∷ 1000 ∷ []) _
      (after_reply-first_answer 1 (server 1) (server 2) (server 3 ∷ []) (1000 ∷ []) _ (
        after_reply-first_answer 2 (server 2) (server 3) [] [] _
          (last_reply-first_answer (server 3))))
