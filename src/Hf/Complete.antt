-- ===== src/Hf/Complete.antt =====
-- What a download that succeeds has written, and what it has given to the tee.
use hali_client.Base.{
  ==_iff, ℕ, ◌≤◌, ◌<◌, ◌≡◌, refl, sym, ap, ◌∙◌, Bool, true, false, [], ◌∷◌, ◌++◌, Str, Option, none,
  some, Option-cases, length, take, drop, take-append-drop, take_all, ltb, ◌==◌, if◌then◌else◌,
  Bool-cases, inl, inr, Result, ok, err, arith,
}
use hali_client.Hf.{
  already_complete, fed, stored, go_on, on_response, Disk, Faults, Response, resume_at,
  hash_resumed_prefix, finish, receive_body, on_status, download_once,
}
use hali_client.Hf.Copy.{
  IsHonest, IsPrefix, IsOutcome, start_of, rename_tmp-IsOutcome, hash_resumed_prefix-IsHashed,
  go_on-IsOutcome, receive_body-IsOutcome,
}

-- A .tmp file with the first bytes, and its size
prefix_stored :
    (c : Str) (tmp : Option Str) → IsPrefix c tmp → stored tmp ≡ take (length (stored tmp)) c
prefix_stored c none p = refl
prefix_stored c (some w) p = p

nil_of_length : (w : Str) → ltb 0 (length w) ≡ false → w ≡ []
nil_of_length [] h = refl
nil_of_length (x ∷ xs) h = absurd (ground arith)

start_resume : (d : Disk) → start_of (resume_at d) d ≡ stored d.tmp
start_resume d = elim (Bool-cases (ltb 0 (length (stored d.tmp)))) [
  | inl more ↦ rw more refl
  | inr empty ↦ rw empty (sym (nil_of_length (stored d.tmp) empty))
]

resumed :
    (c : Str) (d : Disk) (body : Str)
    → IsPrefix c d.tmp
    → body ≡ drop (resume_at d) c
    → start_of (resume_at d) d ++ body ≡ c
resumed c d body p e = rw e (
    ap (λ w. w ++ drop (resume_at d) c) (start_resume d ∙ prefix_stored c d.tmp p)
    ∙ take-append-drop (resume_at d) c)

whole_tmp :
    (c : Str) (tmp : Option Str)
    → IsPrefix c tmp
    → 0 < length (stored tmp)
    → length c ≤ length (stored tmp)
    → tmp ≡ some c
whole_tmp c none p h k = absurd (omega (arith, h))
whole_tmp c (some w) p h k = ap some (p ∙ take_all c (length w) k)

module _ (c : Str) (faults : Faults) (r : Response) where
  full-IsOutcome :
      (restart : Bool) (d : Disk)
      → IsPrefix c d.tmp
      → (r.copy_error ≡ none → r.body ≡ c)
      → let a = receive_body faults r 0 (if restart then record d { tmp = none } else d) in
        IsOutcome c d.tee d.dest a.0 a.1
  full-IsOutcome true d p h =
      receive_body-IsOutcome c faults r 0 (record d { tmp = none }) tt refl h
  full-IsOutcome false d p h = receive_body-IsOutcome c faults r 0 d p refl h

  over-IsOutcome :
      (wrap : Str → Str) (d : Disk)
      → IsPrefix c d.tmp
      → (0 < resume_at d) × (length c ≤ resume_at d)
      → let a =
          go_on
            (hash_resumed_prefix faults.open_prefix (resume_at d) d)
            d
            (finish faults.rename wrap (resume_at d)) in
        IsOutcome c d.tee d.dest a.0 a.1
  over-IsOutcome wrap d p (h, k) =
      let whole = whole_tmp c d.tmp p h k in
      let content : stored d.tmp ≡ c = ap stored whole in
      go_on-IsOutcome c (resume_at d) d (hash_resumed_prefix faults.open_prefix (resume_at d) d)
        (finish faults.rename wrap (resume_at d)) p
        (hash_resumed_prefix-IsHashed faults.open_prefix (resume_at d) d
          (ap length (start_resume d)))
        (λ x t o e.
          rename_tmp-IsOutcome c d.tee d.dest faults.rename x.tmp wrap (resume_at d) x o
            (ap length content) (t ∙ whole) (e ∙ ap (fed d.tee) (start_resume d ∙ content)))

  on_status-IsOutcome :
      (d : Disk)
      → IsPrefix c d.tmp
      → IsHonest c (resume_at d) r
      → let a = on_status faults r (resume_at d) d in IsOutcome c d.tee d.dest a.0 a.1
  unfolding on_status
  on_status-IsOutcome d p (full, rest, over) = elim (Bool-cases (r.status == 200)) [
    | inl e ↦ rw e (full-IsOutcome (ltb 0 (resume_at d)) d p (full ((==_iff r.status 200).0 e)))
    | inr e ↦ rw e (elim (Bool-cases (r.status == 206)) [
      | inl f ↦ rw f (
          receive_body-IsOutcome c faults r (resume_at d) d p (ap length (start_resume d))
            (λ q. resumed c d r.body p (rest ((==_iff r.status 206).0 f) q)))
      | inr f ↦ rw f (elim (Bool-cases (r.status == 416)) [
        | inl g ↦ rw g (over-IsOutcome already_complete d p (over ((==_iff r.status 416).0 g)))
        | inr g ↦ rw g (refl, p)
      ])
    ])
  ]

on_response-IsOutcome :
    (c : Str) (faults : Faults) (q : Result Str Response) (d : Disk)
    → IsPrefix c d.tmp
    → ((r : Response) → q ≡ ok r → IsHonest c (resume_at d) r)
    → let a = on_response faults q (resume_at d) d in IsOutcome c d.tee d.dest a.0 a.1
on_response-IsOutcome c faults (err e) d p h = (refl, p)
on_response-IsOutcome c faults (ok r) d p h = on_status-IsOutcome c faults r d p (h r refl)

-- A server that is honest about one content, whatever request it gets.
abbrev pub IsServerOf : Str → (ℕ → Result Str Response) → Type 0
IsServerOf c server = (at : ℕ) (r : Response) → server at ≡ ok r → IsHonest c at r

-- One attempt against a server that is honest about a content, from a .tmp file that has the first
-- bytes of it: an attempt that succeeds leaves the content at the destination and no .tmp file, it
-- returns the content's length, and the tee has been given the content exactly once, prefix and
-- all; an attempt that fails leaves the destination as it was, and a .tmp file that has the first
-- bytes of the content, or none.
pub download_once-IsOutcome :
    (c : Str) (faults : Faults) (server : ℕ → Result Str Response) (d : Disk)
    → IsPrefix c d.tmp
    → IsServerOf c server
    → IsOutcome c d.tee d.dest (download_once faults server d).0 (download_once faults server d).1
unfolding download_once
download_once-IsOutcome c faults server d p h = elim (Option-cases faults.mkdir_all) [
  | inl fine ↦ rw fine (on_response-IsOutcome c faults (server (resume_at d)) d p (h (resume_at d)))
  | inr broken ↦ rw (broken.1) (refl, p)
]
