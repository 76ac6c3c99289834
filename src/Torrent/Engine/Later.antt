-- ===== src/Torrent/Engine/Later.antt =====
-- What one step of a job's goroutine, or of a caller, does to the job.
use hali_client.Base.{
  ℕ, ◌≡◌, ◌≢◌, refl, Bool, true, false, [], Str, if◌then◌else◌, List, not, Result, ok, err, ◌∙◌,
}
use hali_client.Base.Int.{ℤ, pos, eqb_ℤ}
use hali_client.Torrent.Magnet.{MagnetError, build_magnet}
use hali_client.Torrent.Engine.{
  engine_shutdown, idle, shut_down, ticked, got_info, window_over, Task, DownloadJob, Phase, Signal,
  JobError, returned, failing, looking, testing, selecting, counting, polling, timing, choosing,
  expiring, arrived, named, stopping, fail, refreshed, canceled_by_user,
}
use hali_client.Torrent.Engine.Run.{count_bytes, progress, with_uri, counted, finished, advance}

-- What a step does to a job that was there: a job that is done stays done, and once its goroutine has
-- returned its result stays as it is.
pub record IsLater (t t' : Task) : Type 0 where
  pub still_done : t.job.done ≡ true → t'.job.done ≡ true
  pub same_phase : t.phase ≡ returned → t'.phase ≡ returned
  pub same_error : t.phase ≡ returned → t.job.done ≡ true → t'.job.error ≡ t.job.error
  pub same_written : t.phase ≡ returned → t'.job.written ≡ t.job.written
  pub same_identity : t'.job.identity ≡ t.job.identity

pub later_refl : (t : Task) → IsLater t t
later_refl t = record {
  still_done = λ d. d;
  same_phase = λ p. p;
  same_error = λ p d. refl;
  same_written = λ p. refl;
  same_identity = refl;
}

-- A goroutine that has not returned leaves its job done if it was, and with its identity.
pub moved :
    (job job' : DownloadJob) (p q : Phase)
    → (job.done ≡ true → job'.done ≡ true)
    → job'.identity ≡ job.identity
    → p ≢ returned
    → IsLater (record { job = job; phase = p }) (record { job = job'; phase = q })
moved job job' p q d i n = record {
  still_done = d;
  same_phase = λ r. absurd (n r);
  same_error = λ r. absurd (n r);
  same_written = λ r. absurd (n r);
  same_identity = i;
}

pub canceled_later :
    (done : Bool) (t : Task)
    → t.job.done ≡ done
    → IsLater t (record t { job = if not done then fail canceled_by_user t.job else t.job })
canceled_later true t d = later_refl t
canceled_later false t d = record {
  still_done = λ r. refl;
  same_phase = λ r. r;
  same_error = λ r c. absurd (cc (d, c));
  same_written = λ r. refl;
  same_identity = refl;
}

stopped_later :
    (done : Bool) (e : JobError) (job : DownloadJob)
    → IsLater
        (record { job = job; phase = stopping })
        (record { job = if not done then fail e job else job; phase = returned })
stopped_later true e job = moved job job stopping returned (λ d. d) refl (λ r. cc r)
stopped_later false e job = moved job (fail e job) stopping returned (λ d. refl) refl (λ r. cc r)

pub refreshed_later : (now : ℕ) (t : Task) → IsLater t (record t { job = refreshed now t.job })
refreshed_later now t = record {
  still_done = λ d. d;
  same_phase = λ p. p;
  same_error = λ p d. refl;
  same_written = λ p. refl;
  same_identity = refl;
}

pub with_uri_kept :
    (r : Result MagnetError Str) (job : DownloadJob)
    → ((with_uri r job).done ≡ job.done) × ((with_uri r job).identity ≡ job.identity)
with_uri_kept (ok uri) job = (refl, refl)
with_uri_kept (err e) job = (refl, refl)

counted_later :
    (done complete : Bool) (total missing : ℤ) (job next : DownloadJob)
    → next.done ≡ job.done
    → next.identity ≡ job.identity
    → IsLater
        (record { job = job; phase = counting total missing })
        (counted done complete total job next).0
counted_later true complete total missing job next d i =
    moved job job (counting total missing) returned (λ d. d) refl (λ r. cc r)
counted_later false true total missing job next d i =
    moved job (finished next) (counting total missing) returned (λ r. refl) i (λ r. cc r)
counted_later false false total missing job next d i =
    moved job next (counting total missing) (looking total) (λ r. d ∙ r) i (λ r. cc r)

module _ (valid_utf8 : Str → Bool) (escape : Str → Str) (rate : ℤ → ℕ → ℤ) where
  pub advance_later :
      (ih : List ℕ) (meta_timeout now : ℕ) (closed : Bool) (event : Signal) (job : DownloadJob)
      (p : Phase)
      → IsLater
          (record { job = job; phase = p })
          (advance valid_utf8 escape rate ih meta_timeout now closed event job p).0
  unfolding advance count_bytes progress
  advance_later ih meta_timeout now closed event job (polling d m) =
      moved job job _ _ (λ d. d) refl (λ r. cc r)
  advance_later ih meta_timeout now closed event job (timing d m) =
      moved job job _ _ (λ d. d) refl (λ r. cc r)
  advance_later ih meta_timeout now closed (got_info info) job (choosing d m) =
      moved job job _ _ (λ d. d) refl (λ r. cc r)
  advance_later ih meta_timeout now closed (window_over n) job (choosing d m) =
      moved job job _ _ (λ d. d) refl (λ r. cc r)
  advance_later ih meta_timeout now closed shut_down job (choosing d m) =
      moved job job _ _ (λ d. d) refl (λ r. cc r)
  advance_later ih meta_timeout now closed idle job (choosing d m) = later_refl _
  advance_later ih meta_timeout now closed (ticked missing) job (choosing d m) = later_refl _
  advance_later ih meta_timeout now closed event job expiring =
      moved job job _ _ (λ d. d) refl (λ r. cc r)
  advance_later ih meta_timeout now closed event job (failing e) =
      moved job (fail e job) _ _ (λ d. refl) refl (λ r. cc r)
  advance_later ih meta_timeout now closed event job (arrived info) =
      moved job job _ _ (λ d. d) refl (λ r. cc r)
  advance_later ih meta_timeout now closed event job (named info) =
      let (d, i) =
        with_uri_kept (build_magnet escape ih job.identity.infohash_v2 info.best_name [] [])
          (record job { total = info.total_length; filename = info.best_name }) in
      moved job _ _ _ (λ r. d ∙ r) i (λ r. cc r)
  advance_later ih meta_timeout now closed event job (looking total) =
      moved job job _ _ (λ d. d) refl (λ r. cc r)
  advance_later ih meta_timeout now closed event job (testing total) =
      moved job job _ _ (λ d. d) refl (λ r. cc r)
  advance_later ih meta_timeout now closed shut_down job (selecting total) =
      moved job job _ _ (λ d. d) refl (λ r. cc r)
  advance_later ih meta_timeout now closed (ticked missing) job (selecting total) =
      moved job job _ _ (λ d. d) refl (λ r. cc r)
  advance_later ih meta_timeout now closed idle job (selecting total) = later_refl _
  advance_later ih meta_timeout now closed (got_info info) job (selecting total) = later_refl _
  advance_later ih meta_timeout now closed (window_over n) job (selecting total) = later_refl _
  advance_later ih meta_timeout now closed event job stopping =
      stopped_later job.done engine_shutdown job
  advance_later ih meta_timeout now closed event job (counting total missing) =
      counted_later job.done (eqb_ℤ missing (pos 0)) total missing job
        (progress valid_utf8 escape rate now total missing job) refl refl
  advance_later ih meta_timeout now closed event job returned = later_refl _
