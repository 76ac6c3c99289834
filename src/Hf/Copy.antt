-- ===== src/Hf/Copy.antt =====
-- The copy of one attempt: what the files and the tee have behind it.
use hali_client.Base.{
  ℕ, zero, suc, ◌+◌, ◌≤◌, ◌<◌, ◌≡◌, refl, sym, ap, ◌∙◌, subst, [], ◌++◌, Str, Option, none, some,
  length, take, drop, length-append, take_all, append-nil, append_assoc, ltb, if◌then◌else◌, Result,
  ok, err, arith,
}
use hali_client.Hf.{
  rename_tmp, fed, stored, end_copy, copied, open_and_copy, go_on, hash_prefix, Disk, Faults,
  Response, Attempt, hash_resumed_prefix, receive_body,
}

-- A server that has the content `c` and answers a request from `at` on: a body that comes to its end
-- is the content, or what it has from `at` on; and no range starts behind the end of the content.
abbrev pub IsHonest : Str → ℕ → Response → Type 0
IsHonest c at r =
    (r.status ≡ 200 → r.copy_error ≡ none → r.body ≡ c)
    × (r.status ≡ 206 → r.copy_error ≡ none → r.body ≡ drop at c)
    × (r.status ≡ 416 → (0 < at) × (length c ≤ at))

-- The .tmp file has the first bytes of the content, if it is there.
abbrev pub IsPrefix : Str → Option Str → Type 0
IsPrefix c none = Unit
IsPrefix c (some w) = w ≡ take (length w) c

-- What an attempt leaves of a disk with the given tee and destination: with success the content at
-- the destination, no .tmp file, and the content for the tee; with an error the old destination,
-- and a .tmp file from which a later attempt can go on, or none.
abbrev pub IsOutcome : Str → Option Str → Option Str → Result Str ℕ → Disk → Type 0
IsOutcome c tee dest (ok n) d =
    (n ≡ length c) × (d.dest ≡ some c) × (d.tmp ≡ none) × (d.tee ≡ fed tee c)
IsOutcome c tee dest (err e) d = (d.dest ≡ dest) × IsPrefix c d.tmp

pub fed_append : (tee : Option Str) (v w : Str) → fed (fed tee v) w ≡ fed tee (v ++ w)
fed_append none v w = refl
fed_append (some seen) v w = ap some (append_assoc seen v w)

fed_nil : (tee : Option Str) → fed tee [] ≡ tee
fed_nil none = refl
fed_nil (some seen) = ap some (append-nil seen)

pub rename_tmp-IsOutcome :
    (c : Str) (tee dest : Option Str) (fault tmp : Option Str) (wrap : Str → Str) (n : ℕ) (d : Disk)
    → d.dest ≡ dest
    → n ≡ length c
    → tmp ≡ some c
    → d.tee ≡ fed tee c
    → let a = rename_tmp fault tmp wrap n d in IsOutcome c tee dest a.0 a.1
rename_tmp-IsOutcome c tee dest (some e) tmp wrap n d o k t h = (o, tt)
rename_tmp-IsOutcome c tee dest none none wrap n d o k t h = absurd (cc t)
rename_tmp-IsOutcome c tee dest none (some w) wrap n d o k t h = (k, t, refl, h)

-- What the .tmp file has when the copy starts
abbrev pub start_of : ℕ → Disk → Str
start_of at d = if ltb 0 at then stored d.tmp else []

start_append :
    (at : ℕ) (d : Disk) (w : Str) → (if ltb 0 at then stored d.tmp ++ w else w) ≡ start_of at d ++ w
start_append zero d w = refl
start_append (suc at) d w = ground arith

module _ (c : Str) (tee dest : Option Str) (r : Response) where
  end_copy-IsOutcome :
      (copy_error rename : Option Str) (n : ℕ) (d : Disk)
      → d.dest ≡ dest
      → (copy_error ≡ none → (n ≡ length c) × (d.tmp ≡ some c) × (d.tee ≡ fed tee c))
      → let a = end_copy copy_error rename r.watchdog n d in IsOutcome c tee dest a.0 a.1
  end_copy-IsOutcome (some e) rename n d o h = (o, tt)
  end_copy-IsOutcome none rename n d o h =
      let (k, t, f) = h refl in rename_tmp-IsOutcome c tee dest rename d.tmp (λ e. e) n d o k t f

  open_and_copy-IsOutcome :
      (open_tmp rename : Option Str) (at : ℕ) (d : Disk)
      → d.dest ≡ dest
      → IsPrefix c d.tmp
      → d.tee ≡ fed tee (start_of at d)
      → length (start_of at d) ≡ at
      → (r.copy_error ≡ none → start_of at d ++ r.body ≡ c)
      → let a = open_and_copy open_tmp rename r at d in IsOutcome c tee dest a.0 a.1
  open_and_copy-IsOutcome (some e) rename at d o p t l h = (o, p)
  open_and_copy-IsOutcome none rename at d o p t l h =
      end_copy-IsOutcome r.copy_error rename (length r.body + at) (copied r at d) o (λ q.
        let whole = h q in
        (
          omega (arith, length-append (start_of at d) r.body, ap length whole, l),
          ap some (start_append at d r.body ∙ whole),
          ap (λ x. fed x r.body) t ∙ fed_append tee (start_of at d) r.body ∙ ap (fed tee) whole,
        ))

pub start_suc : (n : ℕ) (d : Disk) → start_of (suc n) d ≡ stored d.tmp
start_suc n d = ground arith

-- The prefix that the tee gets
abbrev pub IsHashed : ℕ → Disk → Result Str Disk → Type 0
IsHashed at d (err e) = Unit
IsHashed at d (ok h) = (h.tmp ≡ d.tmp) × (h.dest ≡ d.dest) × (h.tee ≡ fed d.tee (start_of at d))

hash_prefix-IsHashed :
    (fault tee : Option Str) (at : ℕ) (w : Str) (d : Disk)
    → d.tee ≡ tee
    → w ≡ start_of at d
    → IsHashed at d (hash_prefix fault tee w d)
hash_prefix-IsHashed fault none at w d t e = (refl, refl, rw t refl)
hash_prefix-IsHashed (some x) (some seen) at w d t e = tt
hash_prefix-IsHashed none (some seen) at w d t e = (refl, refl, rw (t, e) refl)

pub hash_resumed_prefix-IsHashed :
    (fault : Option Str) (at : ℕ) (d : Disk)
    → length (start_of at d) ≡ at
    → IsHashed at d (hash_resumed_prefix fault at d)
unfolding hash_resumed_prefix
hash_resumed_prefix-IsHashed fault zero d l = (refl, refl, sym (fed_nil d.tee))
hash_resumed_prefix-IsHashed fault (suc n) d l =
    hash_prefix-IsHashed fault d.tee (suc n) (take (suc n) (stored d.tmp)) d refl (
      take_all (stored d.tmp) (suc n) (omega (arith, l, ap length (start_suc n d)))
      ∙ sym (start_suc n d))

pub go_on-IsOutcome :
    (c : Str) (at : ℕ) (d : Disk) (r : Result Str Disk) (next : Disk → Attempt)
    → IsPrefix c d.tmp
    → IsHashed at d r
    → ((h : Disk)
        → h.tmp ≡ d.tmp
        → h.dest ≡ d.dest
        → h.tee ≡ fed d.tee (start_of at d)
        → IsOutcome c d.tee d.dest (next h).0 (next h).1)
    → let a = go_on r d next in IsOutcome c d.tee d.dest a.0 a.1
go_on-IsOutcome c at d (err e) next p h f = (refl, p)
go_on-IsOutcome c at d (ok x) next p (t, o, e) f = f x t o e

module _ (c : Str) (faults : Faults) (r : Response) where
  pub receive_body-IsOutcome :
      (at : ℕ) (d : Disk)
      → IsPrefix c d.tmp
      → length (start_of at d) ≡ at
      → (r.copy_error ≡ none → start_of at d ++ r.body ≡ c)
      → let a = receive_body faults r at d in IsOutcome c d.tee d.dest a.0 a.1
  unfolding receive_body
  receive_body-IsOutcome at d p l h =
      go_on-IsOutcome c at d (hash_resumed_prefix faults.open_prefix at d)
        (open_and_copy faults.open_tmp faults.rename r at) p
        (hash_resumed_prefix-IsHashed faults.open_prefix at d l)
        (λ x t o e.
          let same : start_of at x ≡ start_of at d =
            ap (λ q. if ltb 0 at then stored q else []) t in
          open_and_copy-IsOutcome c d.tee d.dest r faults.open_tmp faults.rename at x o
            (subst (IsPrefix c) (sym t) p) (e ∙ ap (fed d.tee) (sym same)) (ap length same ∙ l)
            (λ q. ap (λ w. w ++ r.body) same ∙ h q))
