-- ===== src/Hf/Retries.antt =====
-- Download: its attempts, what they leave after a failure, and which failures are repeated.
use hali_client.Base.{
  ℕ, subst, zero, suc, ◌+◌, ◌≡◌, refl, ap, ◌∙◌, true, false, List, [], ◌∷◌, ◌++◌, Str, codes,
  contains, has_prefix, Option, none, some, length, Bool-cases, inl, inr, Result, ok, err,
}
use hali_client.Hf.{
  Disk, Faults, Response, World, Attempt, resume_at, is_retryable, after_attempt, download_from,
  download_once, download, on_status, receive_body, hash_resumed_prefix,
}
use hali_client.Hf.Copy.{IsPrefix, IsOutcome}
use hali_client.Hf.Complete.{IsServerOf, download_once-IsOutcome}

-- What the attempts leave of a destination.
abbrev pub IsEnd : Str → Option Str → Result Str ℕ → Disk → Type 0
IsEnd c dest (ok n) d = (n ≡ length c) × (d.dest ≡ some c) × (d.tmp ≡ none)
IsEnd c dest (err e) d = (d.dest ≡ dest) × IsPrefix c d.tmp

ended_attempt :
    (c : Str) (tee dest : Option Str) (r : Result Str ℕ) (d : Disk)
    → IsOutcome c tee dest r d
    → IsEnd c dest r d
ended_attempt c tee dest (ok n) d (k, o, t, f) = (k, o, t)
ended_attempt c tee dest (err e) d h = h

after_attempt-IsEnd :
    (c : Str) (tee dest ended ended_waiting : Option Str) (k : ℕ) (r : Result Str ℕ) (d : Disk)
    (rest : Attempt × List ℕ)
    → IsOutcome c tee dest r d
    → (d.dest ≡ dest → IsPrefix c d.tmp → IsEnd c dest rest.0.0 rest.0.1)
    → let a = after_attempt ended ended_waiting k r d rest in IsEnd c dest a.0.0 a.0.1
unfolding after_attempt
after_attempt-IsEnd c tee dest x y k (ok n) d rest (l, o, t, f) h = (l, o, t)
after_attempt-IsEnd c tee dest (some x) y k (err e) d rest p h = p
after_attempt-IsEnd c tee dest none (some y) k (err e) d rest p h =
    elim (Bool-cases (is_retryable e)) [ inl q ↦ rw q p | inr q ↦ rw q p ]
after_attempt-IsEnd c tee dest none none k (err e) d rest (o, p) h =
    elim (Bool-cases (is_retryable e)) [ inl q ↦ rw q (h o p) | inr q ↦ rw q (o, p) ]

attempt-IsOutcome :
    (c : Str) (w : World) (k : ℕ) (d : Disk) (dest : Option Str)
    → ((i : ℕ) → IsServerOf c (w.server i))
    → d.dest ≡ dest
    → IsPrefix c d.tmp
    → let r = download_once (w.faults k) (w.server k) d in IsOutcome c d.tee dest r.0 r.1
attempt-IsOutcome c w k d dest h o p =
    let r = download_once (w.faults k) (w.server k) d in
    subst (λ x. IsOutcome c d.tee x r.0 r.1) o
      (download_once-IsOutcome c (w.faults k) (w.server k) d p (h k))

download_from-IsEnd :
    (c : Str) (w : World) (left k : ℕ) (d : Disk) (dest : Option Str)
    → ((i : ℕ) → IsServerOf c (w.server i))
    → d.dest ≡ dest
    → IsPrefix c d.tmp
    → let a = download_from w left k d in IsEnd c dest a.0.0 a.0.1
unfolding download_from
download_from-IsEnd c w zero k d dest h o p =
    ended_attempt c d.tee dest _ _ (attempt-IsOutcome c w k d dest h o p)
download_from-IsEnd c w (suc left) k d dest h o p =
    let r = download_once (w.faults k) (w.server k) d in
    after_attempt-IsEnd c d.tee dest (w.ended k) (w.ended_waiting k) k r.0 r.1
      (download_from w left (k + 1) r.1) (attempt-IsOutcome c w k d dest h o p)
      (λ q t. download_from-IsEnd c w left (k + 1) r.1 dest h q t)

-- Download, with all its attempts, against a server that is honest about a content, from a .tmp file
-- that has the first bytes of it: with success it returns the content's length, the destination
-- has the content and no .tmp file is left; with an error the destination is as it was, and a .tmp
-- file, if one is left, has the first bytes of the content.
pub download-IsEnd :
    (c : Str) (w : World) (d : Disk)
    → ((i : ℕ) → IsServerOf c (w.server i))
    → IsPrefix c d.tmp
    → IsEnd c d.dest (download w d).0.0 (download w d).0.1
unfolding download
download-IsEnd c w d h p = download_from-IsEnd c w 3 0 d d.dest h refl p

-- The statuses that downloadOnce marks as to be tried again, with their texts
pub data Unavailable : Type 0 where
  too_many_requests bad_gateway service_unavailable gateway_timeout : Unavailable

abbrev pub status_of : Unavailable → ℕ
status_of too_many_requests = 429
status_of bad_gateway = 502
status_of service_unavailable = 503
status_of gateway_timeout = 504

abbrev pub text_of : Unavailable → Str
text_of too_many_requests = codes "429 Too Many Requests"
text_of bad_gateway = codes "502 Bad Gateway"
text_of service_unavailable = codes "503 Service Unavailable"
text_of gateway_timeout = codes "504 Gateway Timeout"

unavailable_final :
    (u : Unavailable) → is_retryable (codes "download returned " ++ text_of u) ≡ false
unfolding is_retryable contains has_prefix
unavailable_final too_many_requests = refl
unavailable_final bad_gateway = refl
unavailable_final service_unavailable = refl
unavailable_final gateway_timeout = refl

final_attempt :
    (ended ended_waiting : Option Str) (k : ℕ) (e : Str) (d : Disk) (rest : Attempt × List ℕ)
    → is_retryable e ≡ false
    → after_attempt ended ended_waiting k (err e) d rest ≡ ((err e, d), [])
unfolding after_attempt
final_attempt (some x) y k e d rest h = rw h refl
final_attempt none (some y) k e d rest h = rw h refl
final_attempt none none k e d rest h = rw h refl

on_unavailable :
    (u : Unavailable) (faults : Faults) (r : Response) (at : ℕ) (d : Disk)
    → r.status ≡ status_of u
    → on_status faults r at d ≡ (err (codes "download returned " ++ r.status_text), d)
unfolding on_status
on_unavailable too_many_requests faults r at d h = rw h refl
on_unavailable bad_gateway faults r at d h = rw h refl
on_unavailable service_unavailable faults r at d h = rw h refl
on_unavailable gateway_timeout faults r at d h = rw h refl

once_unavailable :
    (u : Unavailable) (faults : Faults) (server : ℕ → Result Str Response) (r : Response) (d : Disk)
    → faults.mkdir_all ≡ none
    → server (resume_at d) ≡ ok r
    → r.status ≡ status_of u
    → download_once faults server d ≡ (err (codes "download returned " ++ r.status_text), d)
unfolding download_once
once_unavailable u faults server r d f q h = rw (f, q) (on_unavailable u faults r (resume_at d) d h)

first_final :
    (w : World) (left k : ℕ) (e : Str) (d : Disk)
    → download_once (w.faults k) (w.server k) d ≡ (err e, d)
    → is_retryable e ≡ false
    → download_from w (suc left) k d ≡ ((err e, d), [])
unfolding download_from
first_final w left k e d q h =
    ap
      (λ (a : Attempt).
        after_attempt (w.ended k) (w.ended_waiting k) k a.0 a.1 (download_from w left (k + 1) a.1))
      q
    ∙ final_attempt (w.ended k) (w.ended_waiting k) k e d (download_from w left (k + 1) d) h

-- A server that answers the first attempt with 429, 502, 503 or 504 ends the download at once: these
-- are the statuses that downloadOnce marks as to be tried again, but none of them is.
download_unavailable :
    (u : Unavailable) (w : World) (r : Response) (d : Disk)
    → (w.faults 0).mkdir_all ≡ none
    → w.server 0 (resume_at d) ≡ ok r
    → r.status ≡ status_of u
    → r.status_text ≡ text_of u
    → download w d ≡ ((err (codes "download returned " ++ text_of u), d), [])
unfolding download
download_unavailable u w r d f q h t =
    first_final w 2 0 (codes "download returned " ++ text_of u) d
      (once_unavailable u (w.faults 0) (w.server 0) r d f q h
        ∙ ap (λ x. (err (codes "download returned " ++ x), d)) t)
      (unavailable_final u)

abbrev pub no_faults : Faults
no_faults = record { mkdir_all = none; open_prefix = none; open_tmp = none; rename = none }

-- A server that sends the bytes `part` and breaks off with the error `e`, and then sends the content
abbrev pub broken_off : Str → Str → Str → ℕ → ℕ → Result Str Response
broken_off c part e zero at =
    ok (record {
      status = 200;
      status_text = [];
      body = part;
      copy_error = some e;
      watchdog = false;
    })
broken_off c part e (suc k) at =
    ok (record { status = 200; status_text = []; body = c; copy_error = none; watchdog = false })

abbrev pub broken_world : Str → Str → Str → World
broken_world c part e = record {
  server = broken_off c part e;
  faults = λ k. no_faults;
  ended = λ k. none;
  ended_waiting = λ k. none;
}

abbrev pub empty_disk : Disk
empty_disk = record { tmp = none; dest = none; tee = some [] }

-- When the connection breaks off behind some bytes with an error that is tried again, and the next
-- attempt gets the whole content, the destination has the content, but the tee has been given the
-- bytes of both attempts: the piece hashes that it makes are not those of the file.
download_broken_off :
    (c part e : Str)
    → is_retryable e ≡ true
    → ((download (broken_world c part e) empty_disk).0.1.dest ≡ some c)
      × ((download (broken_world c part e) empty_disk).0.1.tee ≡ some (part ++ c))
      × ((download (broken_world c part e) empty_disk).1 ≡ 5 ∷ [])
unfolding download download_from download_once on_status receive_body hash_resumed_prefix
    after_attempt
download_broken_off c part e h = rw h (refl, refl, refl)
