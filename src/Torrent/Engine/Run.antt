-- ===== src/Torrent/Engine/Run.antt =====
-- internal/torrent/engine.go: the goroutine of StartDownload.
use hali_client.Base.{
  true, false, Result, ok, err, ℕ, ◌-◌, Bool, true, not, List, [], Str, Option, none, some, lookup,
  insert, ltb, leb, if◌then◌else◌, ok, err,
}
use hali_client.Base.Int.{ℤ, pos, ◌-ℤ◌, eqb_ℤ}
use hali_client.Safepath.{is_safe_filename}
use hali_client.Torrent.Magnet.{MagnetError, build_magnet}
use hali_client.Torrent.Stats.{Status, at_least_zero}
use hali_client.Torrent.Engine.{
  TorrentEntry, DownloadJob, TorrentInfo, Phase, Signal, Task, Engine, fail, fail_open, is_canceled,
  elapsed_since, time_left, has_estimate, extended_deadline, metadata_timeout, engine_shutdown,
  unsafe_filename, internal_panic, polling, timing, choosing, expiring, failing, arrived, named,
  looking, testing, selecting, stopping, counting, returned, shut_down, ticked, got_info,
  window_over,
}

-- A successful build replaces the magnet URI.
abbrev pub with_uri : Result MagnetError Str → DownloadJob → DownloadJob
with_uri (ok uri) job = record job { magnet_uri = uri }
with_uri (err e) job = job

-- The job with the metadata, and its new magnet URI if there is one
abbrev pub with_info : (Str → Str) → List ℕ → TorrentInfo → DownloadJob → DownloadJob
with_info escape ih info job =
    with_uri (build_magnet escape ih job.identity.infohash_v2 info.best_name [] [])
      (record job { total = info.total_length; filename = info.best_name })

abbrev pub with_eta : ℤ → DownloadJob → DownloadJob
with_eta total job = record job {
  eta_seconds =
      if has_estimate total job.written job.rate_bps
      then time_left total job.written job.rate_bps
      else 0;
}

abbrev pub finished : DownloadJob → DownloadJob
finished job = record job { done = true; eta_seconds = 0 }

abbrev pub seeding_entry : DownloadJob → TorrentEntry
seeding_entry job = record {
  model_id = job.model_id;
  identity = job.identity;
  magnet_uri = job.magnet_uri;
  status = Status.seeding;
  error = [];
  handle = job.handle;
}

-- A place that writes no entry
abbrev pub at : DownloadJob → Phase → Task × Option TorrentEntry
at job p = (record { job = job; phase = p }, none)

-- A tick of a job that is done or not, with bytes missing or not: the task, and the entry of a
-- download that is complete
abbrev pub counted : Bool → Bool → ℤ → DownloadJob → DownloadJob → Task × Option TorrentEntry
counted true complete total job moved = at job returned
counted false true total job moved =
    (record { job = finished moved; phase = returned }, some (seeding_entry (finished moved)))
counted false false total job moved = at moved (looking total)

-- valid_utf8, url.QueryEscape and the conversion of bytes over a time.
module _ (valid_utf8 : Str → Bool) (escape : Str → Str) (rate : ℤ → ℕ → ℤ) where
  abbrev pub with_rate : ℕ → DownloadJob → DownloadJob
  with_rate now job =
      let newer = ltb job.last_rate_at now in
      let delta = at_least_zero (job.written -ℤ job.last_rate_bytes) in
      record job {
        rate_bps = if newer then rate delta (now - job.last_rate_at) else job.rate_bps;
        last_rate_at = if newer then now else job.last_rate_at;
        last_rate_bytes = if newer then job.written else job.last_rate_bytes;
      }

  -- One tick of a job that is not done, up to the test for completion
  unfoldable pub progress : ℕ → ℤ → ℤ → DownloadJob → DownloadJob
  progress now total missing job = with_eta total (
      with_rate now
        (record job { written = total -ℤ missing; elapsed_sec = elapsed_since job.started_at now }))

  unfoldable pub count_bytes : ℕ → ℤ → ℤ → DownloadJob → Task × Option TorrentEntry
  count_bytes now total missing job =
      counted job.done (eqb_ℤ missing (pos 0)) total job (progress now total missing job)

  -- One stretch of the goroutine of a job for the infohash `ih`.
  unfoldable pub advance :
      List ℕ → ℕ → ℕ → Bool → Signal → DownloadJob → Phase → Task × Option TorrentEntry
  unfolding count_bytes
  advance ih meta_timeout now closed event job (polling d m) =
      at job (if is_canceled job then returned else (timing d m))
  advance ih meta_timeout now closed event job (timing d m) =
      at job (if leb d now then expiring else choosing d m)
  advance ih meta_timeout now closed event job expiring =
      at job (if is_canceled job then returned else (failing metadata_timeout))
  advance ih meta_timeout now closed (got_info info) job (choosing d m) = at job (arrived info)
  advance ih meta_timeout now closed (window_over active_peers) job (choosing d m) =
      at job (polling (extended_deadline meta_timeout active_peers now d m) m)
  advance ih meta_timeout now closed shut_down job (choosing d m) = at job (failing engine_shutdown)
  advance ih meta_timeout now closed event job (choosing d m) = at job (choosing d m)
  advance ih meta_timeout now closed event job (failing e) = at (fail e job) returned
  advance ih meta_timeout now closed event job (arrived info) = at job (
      if closed
      then failing engine_shutdown
      else if not (is_safe_filename valid_utf8 info.best_name)
      then failing (unsafe_filename info.best_name)
      else named info)
  advance ih meta_timeout now closed event job (named info) =
      at (with_info escape ih info job) (looking info.total_length)
  advance ih meta_timeout now closed event job (looking total) =
      at job (if is_canceled job then returned else (testing total))
  advance ih meta_timeout now closed event job (testing total) =
      at job (if closed then stopping else selecting total)
  advance ih meta_timeout now closed shut_down job (selecting total) = at job stopping
  advance ih meta_timeout now closed (ticked missing) job (selecting total) =
      at job (counting total missing)
  advance ih meta_timeout now closed event job (selecting total) = at job (selecting total)
  advance ih meta_timeout now closed event job stopping =
      at (fail_open engine_shutdown job) returned
  advance ih meta_timeout now closed event job (counting total missing) =
      count_bytes now total missing job
  advance ih meta_timeout now closed event job returned = at job returned

  -- The goroutine of job `id` runs on from its place.
  unfoldable pub run : (Str → List ℕ) → ℕ → ℕ → Signal → Str → Engine → Engine
  run from_hex meta_timeout now event id e = elim (lookup id e.jobs) [
    | none ↦ e
    | some t ↦
        let (task, entry) =
          advance (from_hex t.job.identity.infohash_v1) meta_timeout now e.closed event t.job
            t.phase in
        record e {
          jobs = insert id task e.jobs;
          entries = elim entry [
            | none ↦ e.entries
            | some made ↦ insert t.job.model_id made e.entries
          ];
        }
  ]

-- The recovery of a panic in the goroutine
unfoldable pub panicked : Str → Str → Engine → Engine
panicked value id e = elim (lookup id e.jobs) [
  | none ↦ e
  | some t ↦ record e {
    jobs = insert id (record { job = fail (internal_panic value) t.job; phase = returned }) e.jobs;
  }
]
