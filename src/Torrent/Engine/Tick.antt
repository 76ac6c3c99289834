-- ===== src/Torrent/Engine/Tick.antt =====
-- How a download completes: the entry of its torrent.
use hali_client.Base.{
  ℕ, ◌≡◌, ◌≢◌, refl, Bool, true, false, [], Str, Option, none, some, lookup, insert, lookup-insert,
  if◌then◌else◌, List, str_eq_refl, ap, ◌∙◌, not,
}
use hali_client.Base.Int.{ℤ, pos, eqb_ℤ}
use hali_client.Torrent.Magnet.{build_magnet}
use hali_client.Torrent.Engine.{
  engine_shutdown, idle, shut_down, ticked, got_info, window_over, Engine, Task, DownloadJob, Phase,
  Signal, JobError, TorrentEntry, no_error, returned, failing, looking, testing, selecting,
  counting, polling, timing, choosing, expiring, arrived, named, stopping, fail,
}
use hali_client.Torrent.Engine.Run.{
  advance, run, counted, count_bytes, progress, with_uri, seeding_entry,
}
use hali_client.Torrent.Engine.Later.{with_uri_kept}
use hali_client.Torrent.Engine.Jobs.{IsConsistent}
use hali_client.Torrent.Engine.Keeps.{lookup-AllConsistent}
use hali_client.Torrent.Engine.Steps.{Run, empty_engine, Run-Keeps}

-- A job that is complete after a stretch of its goroutine comes with its entry.
abbrev HasEntry : Task × Option TorrentEntry → Type 0
HasEntry r = r.0.job.done ≡ true → r.0.job.error ≡ no_error → r.1 ≡ some (seeding_entry r.0.job)

unchanged :
    (job : DownloadJob) → job.done ≡ false → HasEntry (record { job = job; phase = returned }, none)
unchanged job o = λ d n. absurd (cc (o, d))

failed :
    (job : DownloadJob) (e : JobError)
    → e ≢ no_error
    → HasEntry (record { job = fail e job; phase = returned }, none)
failed job e h = λ d n. absurd (h n)

counted-HasEntry :
    (done complete : Bool) (total : ℤ) (job next : DownloadJob)
    → job.done ≡ false
    → next.done ≡ job.done
    → HasEntry (counted done complete total job next)
counted-HasEntry true complete total job next o d = unchanged job o
counted-HasEntry false true total job next o d = λ c n. refl
counted-HasEntry false false total job next o d = unchanged next (d ∙ o)

stopped-HasEntry :
    (done : Bool) (job : DownloadJob)
    → job.done ≡ false
    → HasEntry (
      record { job = if not done then fail engine_shutdown job else job; phase = returned },
      none,
    )
stopped-HasEntry true job o = unchanged job o
stopped-HasEntry false job o = failed job engine_shutdown (λ q. cc q)

module _ (valid_utf8 : Str → Bool) (escape : Str → Str) (rate : ℤ → ℕ → ℤ) where
  advance-HasEntry :
      (ih : List ℕ) (meta_timeout now : ℕ) (closed : Bool) (event : Signal) (job : DownloadJob)
      (p : Phase)
      → job.done ≡ false
      → IsConsistent job p
      → HasEntry (advance valid_utf8 escape rate ih meta_timeout now closed event job p)
  unfolding advance count_bytes progress
  advance-HasEntry ih meta_timeout now closed event job (polling d m) o h = unchanged job o
  advance-HasEntry ih meta_timeout now closed event job (timing d m) o h = unchanged job o
  advance-HasEntry ih meta_timeout now closed (got_info info) job (choosing d m) o h =
      unchanged job o
  advance-HasEntry ih meta_timeout now closed (window_over n) job (choosing d m) o h =
      unchanged job o
  advance-HasEntry ih meta_timeout now closed shut_down job (choosing d m) o h = unchanged job o
  advance-HasEntry ih meta_timeout now closed idle job (choosing d m) o h = unchanged job o
  advance-HasEntry ih meta_timeout now closed (ticked missing) job (choosing d m) o h =
      unchanged job o
  advance-HasEntry ih meta_timeout now closed event job expiring o h = unchanged job o
  advance-HasEntry ih meta_timeout now closed event job (failing e) o h = failed job e h.0
  advance-HasEntry ih meta_timeout now closed event job (arrived info) o h = unchanged job o
  advance-HasEntry ih meta_timeout now closed event job (named info) o h =
      unchanged
        (with_uri (build_magnet escape ih job.identity.infohash_v2 info.best_name [] [])
          (record job { total = info.total_length; filename = info.best_name }))
        ((with_uri_kept (build_magnet escape ih job.identity.infohash_v2 info.best_name [] [])
            (record job { total = info.total_length; filename = info.best_name })).0
          ∙ o)
  advance-HasEntry ih meta_timeout now closed event job (looking total) o h = unchanged job o
  advance-HasEntry ih meta_timeout now closed event job (testing total) o h = unchanged job o
  advance-HasEntry ih meta_timeout now closed shut_down job (selecting total) o h = unchanged job o
  advance-HasEntry ih meta_timeout now closed (ticked missing) job (selecting total) o h =
      unchanged job o
  advance-HasEntry ih meta_timeout now closed idle job (selecting total) o h = unchanged job o
  advance-HasEntry ih meta_timeout now closed (got_info info) job (selecting total) o h =
      unchanged job o
  advance-HasEntry ih meta_timeout now closed (window_over n) job (selecting total) o h =
      unchanged job o
  advance-HasEntry ih meta_timeout now closed event job stopping o h =
      stopped-HasEntry job.done job o
  advance-HasEntry ih meta_timeout now closed event job (counting total missing) o h =
      counted-HasEntry job.done (eqb_ℤ missing (pos 0)) total job
        (progress valid_utf8 escape rate now total missing job) o refl
  advance-HasEntry ih meta_timeout now closed event job returned o h = unchanged job o

  module _ (from_hex : Str → List ℕ) (meta_timeout : ℕ) where
    pub run_jobs :
        (now : ℕ) (event : Signal) (id : Str) (e : Engine) (t : Task)
        → lookup id e.jobs ≡ some t
        → (run valid_utf8 escape rate from_hex meta_timeout now event id e).jobs
          ≡ insert id
              (advance valid_utf8 escape rate
                (from_hex t.job.identity.infohash_v1)
                meta_timeout
                now
                e.closed
                event
                t.job
                t.phase).0
              e.jobs
    unfolding run
    run_jobs now event id e t h = rw (run, h) refl

    pub run_entries :
        (now : ℕ) (event : Signal) (id : Str) (e : Engine) (t : Task) (entry : TorrentEntry)
        → lookup id e.jobs ≡ some t
        → (advance valid_utf8 escape rate
            (from_hex t.job.identity.infohash_v1)
            meta_timeout
            now
            e.closed
            event
            t.job
            t.phase).1
          ≡ some entry
        → (run valid_utf8 escape rate from_hex meta_timeout now event id e).entries
          ≡ insert t.job.model_id entry e.entries
    unfolding run
    run_entries now event id e t entry h k = rw (run, h, k) refl

    -- A job becomes complete only together with its entry: when a stretch of its goroutine leaves a
    -- job done without an error that was not done before, the engine has under the job's model an
    -- entry that is seeding, with the job's identity and magnet URI.
    run-seeding_entry :
        (limit : ℤ) (e : Engine)
        → Run valid_utf8 escape rate from_hex meta_timeout (empty_engine limit) e
        → (now : ℕ) (event : Signal) (id : Str) (t u : Task) → lookup id e.jobs ≡ some t
        → t.job.done ≡ false
        → let f = run valid_utf8 escape rate from_hex meta_timeout now event id e in
          lookup id f.jobs ≡ some u
          → u.job.done ≡ true
          → u.job.error ≡ no_error
          → lookup t.job.model_id f.entries ≡ some (seeding_entry u.job)
    run-seeding_entry limit e reach now event id t u h o k d n =
        let r =
          advance valid_utf8 escape rate (from_hex t.job.identity.infohash_v1) meta_timeout now
            e.closed event t.job t.phase in
        let stored : lookup id (insert id r.0 e.jobs) ≡ some r.0 =
          lookup-insert id id r.0 e.jobs ∙ rw str_eq_refl refl in
        let same : r.0 ≡ u = cc (stored, run_jobs now event id e t h, k) in
        let fits =
          lookup-AllConsistent e id t
            ((Run-Keeps valid_utf8 escape rate from_hex meta_timeout reach).0 tt) h in
        let made : r.1 ≡ some (seeding_entry r.0.job) =
          advance-HasEntry (from_hex t.job.identity.infohash_v1) meta_timeout now e.closed event
            t.job t.phase o fits (ap (λ (x : Task). x.job.done) same ∙ d)
            (ap (λ (x : Task). x.job.error) same ∙ n) in
        rw (run_entries now event id e t (seeding_entry r.0.job) h made) (
          lookup-insert t.job.model_id t.job.model_id (seeding_entry r.0.job) e.entries
          ∙ rw str_eq_refl (ap (λ (x : Task). some (seeding_entry x.job)) same))
