-- ===== src/Torrent/Engine/Steps.antt =====
-- The engine's download jobs as a step relation: the goroutines and the callers take turns in any
-- order, each step between two uses of the engine's lock.
use hali_client.Base.{
  ℕ, ◌≡◌, ◌≢◌, refl, Bool, true, false, [], Str, none, some, lookup, List, Dict, ◌∙◌,
}
use hali_client.Base.Int.{ℤ}
use hali_client.Torrent.Engine.{
  Engine, Task, DownloadJob, Signal, TorrentEntry, PeerCounts, no_error, returned, cancel_download,
  job_status, set_max_concurrent_downloads, shutdown,
}
use hali_client.Torrent.Engine.Run.{run, panicked}
use hali_client.Torrent.Engine.Start.{add_job}
use hali_client.Torrent.Engine.Keeps.{
  Keeps, KeepsCount, same_jobs-KeepsCount, same_jobs-Keeps, Keeps-trans, run-KeepsCount,
  cancel_download-KeepsCount, job_status-KeepsCount, panicked-KeepsCount, add_job-Keeps, settled,
  lookup-AllConsistent, same_jobs,
}

abbrev pub empty_engine : ℤ → Engine
empty_engine limit = record { entries = []; jobs = []; max_dl_jobs = limit; closed = false }

-- One step: a stretch of a goroutine, or its panic; a cancellation, a look at a job, a shutdown; and
-- whatever the seeds of the engine do to the entries. StartDownload adds a new job under a new name
-- in its second critical section, and the limit on the downloads may change.
module _ (valid_utf8 : Str → Bool) (escape : Str → Str) (rate : ℤ → ℕ → ℤ) (from_hex : Str → List ℕ)
    (meta_timeout : ℕ) where
  pub data Turn : Engine → Engine → Type 0 where
    ran :
        (now : ℕ) (event : Signal) (id : Str) (e : Engine)
        → Turn e (run valid_utf8 escape rate from_hex meta_timeout now event id e)
    crashed :
        (value id : Str) (t : Task) (e : Engine)
        → lookup id e.jobs ≡ some t
        → t.phase ≢ returned
        → Turn e (panicked value id e)
    canceled : (id : Str) (e : Engine) → Turn e (cancel_download id e).1
    asked :
        (now : ℕ) (stats : PeerCounts) (id : Str) (e : Engine)
        → Turn e (job_status now stats id e).1
    closing : (e : Engine) → Turn e (shutdown e)
    seeded : (entries : Dict TorrentEntry) (e : Engine) → Turn e (record e { entries = entries })

  pub data Step : Engine → Engine → Type 0 where
    turn : {e f : Engine} → Turn e f → Step e f
    added :
        (now : ℕ) (job : DownloadJob) (e : Engine)
        → job.done ≡ false
        → lookup job.id e.jobs ≡ none
        → Step e (add_job now meta_timeout job e)
    limited : (limit : ℤ) (e : Engine) → Step e (set_max_concurrent_downloads limit e)

  -- The engines that an engine can become.
  pub data Run (e : Engine) : Engine → Type 0 where
    here : Run e e
    next : {f g : Engine} → Run e f → Step f g → Run e g

  pub Turn-KeepsCount : {e f : Engine} → Turn e f → KeepsCount e f
  Turn-KeepsCount (ran now event id e) =
      run-KeepsCount valid_utf8 escape rate from_hex meta_timeout now event id e
  Turn-KeepsCount (crashed value id t e h n) = panicked-KeepsCount value id t e h n
  Turn-KeepsCount (canceled id e) = cancel_download-KeepsCount id e
  Turn-KeepsCount (asked now stats id e) = job_status-KeepsCount now stats id e
  Turn-KeepsCount (closing e) = same_jobs-KeepsCount e (shutdown e) refl refl
  Turn-KeepsCount (seeded entries e) =
      same_jobs-KeepsCount e (record e { entries = entries }) refl refl

  Step-Keeps : {e f : Engine} → Step e f → Keeps e f
  Step-Keeps (turn t) = (Turn-KeepsCount t).0
  Step-Keeps (added now job e still_open fresh) =
      add_job-Keeps now meta_timeout job e still_open fresh
  Step-Keeps (limited limit e) = same_jobs-Keeps e (set_max_concurrent_downloads limit e) refl

  pub Run-Keeps : {e f : Engine} → Run e f → Keeps e f
  Run-Keeps {e} here = (λ h. h, same_jobs e)
  Run-Keeps {e} (next {f} {g} r s) = Keeps-trans e f g (Run-Keeps r) (Step-Keeps s)

  -- Whatever order the goroutines and the callers take turns in: once the goroutine of a job of
  -- StartDownload has returned, the job is done; and a job that is done without an error has written
  -- all its bytes, and its goroutine has returned.
  pub Run-IsConsistent :
      (limit : ℤ) (e : Engine)
      → Run (empty_engine limit) e
      → (id : Str) (t : Task) → lookup id e.jobs ≡ some t
      → (t.phase ≡ returned → t.job.done ≡ true)
        × (t.job.done ≡ true
            → t.job.error ≡ no_error
            → (t.phase ≡ returned) × (t.job.written ≡ t.job.total))
  Run-IsConsistent limit e r id t h =
      settled t.job t.phase (lookup-AllConsistent e id t ((Run-Keeps r).0 tt) h)

  -- A job that is done stays done through all further steps, with the identity that it had; and once
  -- it is done without an error it stays so with the same count of bytes: a complete download is never
  -- reported as canceled or failed later.
  pub Run-absorbs :
      (limit : ℤ) (e f : Engine)
      → Run (empty_engine limit) e
      → Run e f
      → (id : Str) (t : Task) → lookup id e.jobs ≡ some t
      → t.job.done ≡ true
      → (u : Task) × (lookup id f.jobs ≡ some u)
        × (u.job.done ≡ true)
        × (u.job.identity ≡ t.job.identity)
        × (t.job.error ≡ no_error → (u.job.error ≡ no_error) × (u.job.written ≡ t.job.written))
  Run-absorbs limit e f r s id t h d =
      let (u, k, l) = (Run-Keeps s).1 id t h in
      (
        u,
        k,
        l.still_done d,
        l.same_identity,
        λ n.
            let p = ((Run-IsConsistent limit e r id t h).1 d n).0 in
            (l.same_error p d ∙ n, l.same_written p),
      )
