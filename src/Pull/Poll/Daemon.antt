-- ===== src/Pull/Poll/Daemon.antt =====
-- The polling loops of the pull command against the daemon's handlers.
use hali_client.Base.{
  ℕ, ◌<◌, ◌≤◌, Bool, true, false, ◌++◌, Str, codes, is_empty, none, some, Dict, lookup, ok, ◌≡◌,
  refl, subst, ◌∙◌, sym, inr,
}
use hali_client.Daemon.Server.{
  cmd_job_status, Request, Response, no_data, job_status_data, failure, Server, World,
}
use hali_client.Daemon.Server.Handle.{handle}
use hali_client.Daemon.Server.Answers.{asks, handle_known_job, handle_unknown_job}
use hali_client.Torrent.Engine.{Task}
use hali_client.Pull.Poll.{Tick, Wanted, Finish, finish_round, finish_download_job, zero_job_status}
use hali_client.Pull.Poll.Ends.{EndsJob, finish_download_job-ends}
use hali_client.Pull.Poll.Loop.{poll_until-goes_on}

-- The rounds of a loop whose requests reach the daemon: `servers k` is the daemon when it gets
-- request k, and `worlds k` is what that request meets.
abbrev pub rounds :
    {Bytes : Type 0} → (ℕ → World Bytes) → (ℕ → Server Bytes) → (ℕ → Bool) → Request → ℕ → Tick
rounds worlds servers ended req k = record {
  ended = ended k;
  answer = ok (handle (worlds k) req (servers k)).1;
}

-- A refusal does not end the loop, when nil decodes as the zero status.
quiet_round :
    {Bytes : Type 0} (w : Wanted Bytes) (disk : Dict Bytes) (b : Bool) (r : Response) (e : Str)
    → w.json.job_status no_data ≡ some zero_job_status
    → b ≡ false
    → r ≡ failure e
    → finish_round w (record { ended = b; answer = ok r }) disk ≡ none
unfolding finish_round
quiet_round w disk b r e decodes h k = rw (h, k) (rw decodes refl)

module _ {Bytes : Type 0} (worlds : ℕ → World Bytes) (servers : ℕ → Server Bytes) (ended : ℕ → Bool)
    (w : Wanted Bytes) (id dir : Str) where
  -- A job with an id that is in the daemon's table and done ends FinishDownloadJob, when the client
  -- decodes the daemon's answers: it returns at the latest in the round that meets the job like this.
  pub finish_download_job_done :
      (fuel n : ℕ) (t : Task) (disk : Dict Bytes)
      → ((js : _) → w.json.job_status (job_status_data js) ≡ some js)
      → is_empty id ≡ false
      → lookup id (servers n).engine.jobs ≡ some t
      → t.job.done ≡ true
      → n < fuel
      → (f : Finish Bytes) × (m : ℕ) × (m ≤ n)
        × (finish_download_job w
              (rounds worlds servers ended (asks cmd_job_status id dir))
              fuel
              disk
            ≡ some f)
  finish_download_job_done fuel n t disk decodes named found done h =
      let (js, e, d) = handle_known_job (worlds n) (servers n) id dir named t found in
      let (f, m, le, _, e) =
        finish_download_job-ends w (rounds worlds servers ended (asks cmd_job_status id dir)) fuel n
          disk
          (inr (
            subst (λ p. EndsJob (w.json.job_status p)) (sym e)
              (subst EndsJob (sym (decodes js)) (inr (d ∙ done)))))
          h in
      (f, m, le, e)

  -- A job that is not in the daemon's table, as after a restart of the daemon, is polled for as long
  -- as the context does not end, when the refusal, which carries no data, decodes as a job that is not
  -- done and has no error.
  pub finish_download_job_unknown :
      (fuel : ℕ) (disk : Dict Bytes)
      → w.json.job_status no_data ≡ some zero_job_status
      → is_empty id ≡ false
      → ((k : ℕ) → ended k ≡ false)
      → ((k : ℕ) → lookup id (servers k).engine.jobs ≡ none)
      → finish_download_job w (rounds worlds servers ended (asks cmd_job_status id dir)) fuel disk
        ≡ none
  unfolding finish_download_job
  finish_download_job_unknown fuel disk decodes named going unknown =
      poll_until-goes_on
        (λ k. finish_round w (rounds worlds servers ended (asks cmd_job_status id dir) k) disk) fuel
        0
        (λ k.
          quiet_round w disk (ended k) _ (codes "job not found: " ++ id) decodes (going k)
            (handle_unknown_job (worlds k) (servers k) id dir named (unknown k)))
