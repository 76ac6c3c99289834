-- ===== src/Pull/Poll/Ends.antt =====
-- When the loops that poll the daemon end, and with what.
use hali_client.Base.{
  ℕ, ◌<◌, ◌≤◌, Bool, true, false, not, [], ◌∷◌, Str, is_empty, Option, Option-cases, none, some,
  Dict, Result, ok, err, ◌≡◌, refl, ap, ◌∙◌, sym, ◌⊎◌, inl, inr, Bool-cases, join_path,
  if◌then◌else◌, subst,
}
use hali_client.Cache.{Metadata, save}
use hali_client.Daemon.Server.{Response, JobStatusData, kept_disk}
use hali_client.Pull.Poll.{
  Tick, Wanted, Finish, finish_round, finish_download_job, judged, decoded, answered, hashed,
  stopped, FinishError, canceled, download_error, download_failed, hash_failed,
}
use hali_client.Pull.Poll.Loop.{IsSome, zero_plus, poll_until-ends, poll_until-round}

-- The answer of a round ends the loop: the request failed, or the job has an error or is done.
abbrev pub EndsJob : Option JobStatusData → Type 0
EndsJob none = ⊥
EndsJob (some js) = (is_empty js.error ≡ false) ⊎ (js.done ≡ true)

module _ {Bytes : Type 0} (w : Wanted Bytes) where
  abbrev pub AnswerEnds : Result Str Response → Type 0
  AnswerEnds (err e) = Unit
  AnswerEnds (ok resp) = EndsJob (w.json.job_status resp.payload)

  abbrev pub EndsWait : Tick → Type 0
  EndsWait t = (t.ended ≡ true) ⊎ AnswerEnds t.answer

  judged-IsSome :
      (js : JobStatusData) (disk : Dict Bytes) → EndsJob (some js) → IsSome (judged w js disk)
  judged-IsSome js disk (inl h) = rw h tt
  judged-IsSome js disk (inr h) = elim (Bool-cases (is_empty js.error)) [
    | inl k ↦ rw (k, h) tt
    | inr k ↦ rw k tt
  ]

  decoded-IsSome :
      (o : Option JobStatusData) (disk : Dict Bytes) → EndsJob o → IsSome (decoded w o disk)
  decoded-IsSome (some js) disk h = judged-IsSome js disk h
  decoded-IsSome none disk h = h

  answered-IsSome :
      (r : Result Str Response) (disk : Dict Bytes) → AnswerEnds r → IsSome (answered w r disk)
  answered-IsSome (err e) disk h = tt
  answered-IsSome (ok resp) disk h = decoded-IsSome (w.json.job_status resp.payload) disk h

  finish_round-IsSome : (t : Tick) (disk : Dict Bytes) → EndsWait t → IsSome (finish_round w t disk)
  unfolding finish_round
  finish_round-IsSome t disk (inl h) = rw h tt
  finish_round-IsSome t disk (inr h) = elim (Bool-cases t.ended) [
    | inl k ↦ rw k tt
    | inr k ↦ rw k (answered-IsSome t.answer disk h)
  ]

  -- When the context ends in some round, or the daemon's answer to it fails, or tells of an error or
  -- of the job's end, FinishDownloadJob returns, at the latest in that round.
  pub finish_download_job-ends :
      (ticks : ℕ → Tick) (fuel n : ℕ) (disk : Dict Bytes)
      → EndsWait (ticks n)
      → n < fuel
      → (f : Finish Bytes) × (m : ℕ) × (m ≤ n)
        × (finish_round w (ticks m) disk ≡ some f)
        × (finish_download_job w ticks fuel disk ≡ some f)
  unfolding finish_download_job
  finish_download_job-ends ticks fuel n disk e h =
      let rounds : ℕ → Option (Finish Bytes) = λ k. finish_round w (ticks k) disk in
      let (f, m, le, r, q) = poll_until-ends rounds fuel n 0 h (
        subst (λ i. IsSome (rounds i)) (sym (zero_plus n))
          (finish_round-IsSome (ticks n) disk e)) in
      (f, m, le, sym (ap rounds (zero_plus m)) ∙ r, q)

  abbrev finished : JobStatusData → Dict Bytes → Finish Bytes
  finished js disk = hashed w js (w.hash_file (join_path (w.model_dir ∷ js.filename ∷ []))) disk

  abbrev EndedBy : Dict Bytes → Finish Bytes → JobStatusData → Type 0
  EndedBy disk f js = (js.done ≡ true) × (is_empty js.error ≡ true) × (f ≡ finished js disk)

  -- The metadata of a downloaded file with a hash
  abbrev pub meta_of_job : JobStatusData → Str → Metadata
  meta_of_job js hash = record {
    model_id = [];
    hf_repo = w.hf_repo;
    hf_revision = w.hf_revision;
    hf_snapshot = hash;
    infohash = w.infohash;
    infohash_v2 = w.infohash_v2;
    identity_seal = [];
    files = js.filename ∷ [];
    size = js.total;
    downloaded_at = [];
  }

  -- The end of a download whose job is done without an error: the hash is that of the job's file, the
  -- store has been asked to save the metadata, the job is not canceled and its event is sent.
  abbrev pub Finished : Dict Bytes → Finish Bytes → JobStatusData → Str → Type 0
  Finished disk f js hash =
      (js.done ≡ true)
      × (is_empty js.error ≡ true)
      × (w.hash_file (join_path (w.model_dir ∷ js.filename ∷ [])) ≡ ok hash)
      × (f.disk
          ≡ kept_disk disk
              (save w.codec w.root w.is_under_root w.faults w.now w.id (meta_of_job js hash) disk))
      × (f.cancel_sent ≡ false)
      × (f.ingested ≡ some js)

  both_tests :
      (e d : Bool) (o : Option (Finish Bytes)) (f : Finish Bytes)
      → e ≡ true
      → d ≡ true
      → (if not e then o else if not d then none else some f) ≡ some f
  both_tests e d o f h k = rw (h, k) refl

  Result-cases : (r : Result Str Str) → ((hash : Str) × (r ≡ ok hash)) ⊎ ((e : Str) × (r ≡ err e))
  Result-cases (ok hash) = inl (hash, refl)
  Result-cases (err e) = inr (e, refl)

  ok_eq : {a b : Str} → ◌≡◌ {A = Result FinishError Str} (ok a) (ok b) → a ≡ b
  ok_eq h = cc h

  some_eq : {f g : Finish Bytes} → some f ≡ some g → f ≡ g
  some_eq h = cc h

  not_stopped :
      (c : Bool) (e : FinishError) (disk : Dict Bytes) (f : Finish Bytes) (hash : Str)
      → some (stopped w c e disk) ≡ some f
      → f.result ≡ ok hash
      → ⊥
  not_stopped c e disk f hash h k = cc (ap (λ (g : Finish Bytes). g.result) (some_eq h) ∙ k)

  hashed-Finished :
      (js : JobStatusData) (disk : Dict Bytes) (f : Finish Bytes) (hash : Str)
      → EndedBy disk f js
      → f.result ≡ ok hash
      → Finished disk f js hash
  hashed-Finished js disk f hash (d, e, g) k =
      elim (Result-cases (w.hash_file (join_path (w.model_dir ∷ js.filename ∷ [])))) [
        | inr (x, h) ↦ absurd (
            not_stopped false (hash_failed x) disk f hash
              (ap some (sym (g ∙ ap (λ r. hashed w js r disk) h))) k)
        | inl (y, h) ↦
            let run = g ∙ ap (λ r. hashed w js r disk) h in
            let same : y ≡ hash =
              ok_eq {a = y} {b = hash} (sym (ap (λ (x : Finish Bytes). x.result) run) ∙ k) in
            (
              d,
              e,
              h ∙ ap ok same,
              ap (λ (x : Finish Bytes). x.disk) run
                  ∙ ap
                      (λ z. kept_disk disk (
                        save w.codec w.root w.is_under_root w.faults w.now w.id (meta_of_job js z)
                          disk))
                      same,
              ap (λ (x : Finish Bytes). x.cancel_sent) run,
              ap (λ (x : Finish Bytes). x.ingested) run,
            )
      ]

  judged-Finished :
      (js : JobStatusData) (disk : Dict Bytes) (f : Finish Bytes) (hash : Str)
      → judged w js disk ≡ some f
      → f.result ≡ ok hash
      → Finished disk f js hash
  judged-Finished js disk f hash h k = elim (Bool-cases (is_empty js.error)) [
    | inr e ↦ absurd (not_stopped false (download_failed js.error) disk f hash (rw e at h) k)
    | inl e ↦ elim (Bool-cases js.done) [
      | inl d ↦
          hashed-Finished js disk f hash
            (d, e, sym (some_eq (sym (both_tests _ _ _ (finished js disk) e d) ∙ h))) k
      | inr d ↦ cc (rw (e, d) at h)
    ]
  ]

  -- An answer that ends the loop without an error
  abbrev pub AnswersDone : Dict Bytes → Finish Bytes → Str → Result Str Response → Type 0
  AnswersDone disk f hash r =
      (resp : Response) × (js : JobStatusData) × (r ≡ ok resp)
      × (w.json.job_status resp.payload ≡ some js)
      × Finished disk f js hash

  answered-AnswersDone :
      (r : Result Str Response) (disk : Dict Bytes) (f : Finish Bytes) (hash : Str)
      → answered w r disk ≡ some f
      → f.result ≡ ok hash
      → AnswersDone disk f hash r
  answered-AnswersDone (err e) disk f hash h k =
      absurd (not_stopped false (download_error e) disk f hash h k)
  answered-AnswersDone (ok resp) disk f hash h k =
      elim (Option-cases (w.json.job_status resp.payload)) [
        | inl e ↦ cc (ap (λ o. decoded w o disk) (sym e) ∙ h)
        | inr (js, e) ↦ (
          resp,
          js,
          refl,
          e,
          judged-Finished js disk f hash (ap (λ o. decoded w o disk) (sym e) ∙ h) k,
        )
      ]

  round-AnswersDone :
      (t : Tick) (disk : Dict Bytes) (f : Finish Bytes) (hash : Str)
      → finish_round w t disk ≡ some f
      → f.result ≡ ok hash
      → AnswersDone disk f hash t.answer
  unfolding finish_round
  round-AnswersDone t disk f hash h k = elim (Bool-cases t.ended) [
    | inl e ↦ absurd (not_stopped w.daemon_runs canceled disk f hash (rw e at h) k)
    | inr e ↦ answered-AnswersDone t.answer disk f hash (rw e at h) k
  ]

  -- FinishDownloadJob returns a hash only when some answer of the daemon tells of a job that is done
  -- and has no error. The hash is then that of the file that the job names; the store has been asked
  -- to save it as the snapshot of the metadata, with the source and the infohashes that were asked for
  -- and the name and the size of the job; the event is of that job, and no cancellation was sent.
  pub finish_download_job-Finished :
      (ticks : ℕ → Tick) (fuel : ℕ) (disk : Dict Bytes) (f : Finish Bytes) (hash : Str)
      → finish_download_job w ticks fuel disk ≡ some f
      → f.result ≡ ok hash
      → (k : ℕ) × AnswersDone disk f hash (ticks k).answer
  unfolding finish_download_job
  finish_download_job-Finished ticks fuel disk f hash h k =
      let (m, e) = poll_until-round (λ k. finish_round w (ticks k) disk) fuel 0 f h in
      (m, round-AnswersDone (ticks m) disk f hash e k)
