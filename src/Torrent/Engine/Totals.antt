-- ===== src/Torrent/Engine/Totals.antt =====
-- internal/torrent/engine.go: the totals that the statistics read from the engine. The client's
-- counters of a torrent are parameters.
use hali_client.Base.{
  ℕ, ◌+◌, ◌≡◌, refl, sym, ap, ◌∙◌, Bool, false, List, [], ◌∷◌, Str, Option, none, some, Dict,
  lookup, insert, str_eq, Bool-cases, inl, inr, arith,
}
use hali_client.Base.Int.{ℤ, pos}
use hali_client.Torrent.Engine.{Engine, Task, DownloadJob, TorrentEntry, Signal, counting}
use hali_client.Torrent.Engine.Run.{finished, run, advance, count_bytes, progress, seeding_entry}
use hali_client.Torrent.Engine.Tick.{run_jobs, run_entries}

-- The counters of a torrent: the bytes of its data read and written
pub record Counters : Type 0 where
  pub down : ℕ
  pub up : ℕ

abbrev pub of_handle : (ℕ → ℕ) → Option ℕ → ℕ
of_handle counter none = 0
of_handle counter (some h) = counter h

unfoldable pub entries_total : (ℕ → ℕ) → Dict TorrentEntry → ℕ
entries_total counter [] = 0
entries_total counter ((id, e) ∷ d) = of_handle counter e.handle + entries_total counter d

unfoldable pub jobs_total : (ℕ → ℕ) → Dict Task → ℕ
jobs_total counter [] = 0
jobs_total counter ((id, t) ∷ d) = of_handle counter t.job.handle + jobs_total counter d

-- TotalBytes
unfoldable pub total_bytes : (ℕ → Counters) → Engine → ℕ × ℕ
total_bytes stats e = (
  entries_total (λ h. (stats h).down) e.entries + jobs_total (λ h. (stats h).down) e.jobs,
  entries_total (λ h. (stats h).up) e.entries + jobs_total (λ h. (stats h).up) e.jobs,
)

entries_total-insert :
    (counter : ℕ → ℕ) (id : Str) (e : TorrentEntry) (d : Dict TorrentEntry)
    → lookup id d ≡ none
    → entries_total counter (insert id e d) ≡ of_handle counter e.handle + entries_total counter d
unfolding entries_total lookup insert
entries_total-insert counter id e [] h = refl
entries_total-insert counter id e ((j, x) ∷ d) h = elim (Bool-cases (str_eq j id)) [
  | inl same ↦ absurd (cc (rw same at h))
  | inr other ↦
      let rest = entries_total-insert counter id e d (rw other at h) in
      rw other (omega (arith, rest))
]

jobs_total-insert :
    (counter : ℕ → ℕ) (id : Str) (t u : Task) (d : Dict Task)
    → lookup id d ≡ some t
    → u.job.handle ≡ t.job.handle
    → jobs_total counter (insert id u d) ≡ jobs_total counter d
unfolding jobs_total lookup insert
jobs_total-insert counter id t u [] h k = absurd (cc h)
jobs_total-insert counter id t u ((j, x) ∷ d) h k = elim (Bool-cases (str_eq j id)) [
  | inl same ↦
      let g : some x ≡ some t = rw same at h in
      let w : x ≡ t = cc g in
      let v : u.job.handle ≡ x.job.handle = k ∙ ap (λ (y : Task). y.job.handle) (sym w) in
      rw same (ap (λ (y : Option ℕ). of_handle counter y + jobs_total counter d) v)
  | inr other ↦
      let rest = jobs_total-insert counter id t u d (rw other at h) k in
      rw other (omega (arith, rest))
]

module _ (valid_utf8 : Str → Bool) (escape : Str → Str) (rate : ℤ → ℕ → ℤ) (from_hex : Str → List ℕ)
    (meta_timeout : ℕ) where
  completed :
      (ih : List ℕ) (now : ℕ) (closed : Bool) (event : Signal) (job : DownloadJob) (total : ℤ)
      → job.done ≡ false
      → let r =
          advance valid_utf8 escape rate ih meta_timeout now closed event job
            (counting total (pos 0)) in
        (u : DownloadJob) × (r.0.job.handle ≡ job.handle)
        × (r.1 ≡ some (seeding_entry u))
        × (u.handle ≡ job.handle)
  unfolding advance count_bytes progress
  completed ih now closed event job total o =
      (finished (progress valid_utf8 escape rate now total (pos 0) job), rw o refl, rw o refl, refl)

  -- When a download of a model without an entry completes, the total of the bytes that the engine
  -- reports rises by all bytes of its torrent at once: from then on the torrent counts twice, as the
  -- job's and as the entry's.
  total_bytes-run :
      (stats : ℕ → Counters) (e : Engine) (now handle : ℕ) (event : Signal) (id : Str)
      (job : DownloadJob) (total : ℤ)
      → lookup id e.jobs ≡ some (record { job = job; phase = counting total (pos 0) })
      → job.done ≡ false
      → job.handle ≡ some handle
      → lookup job.model_id e.entries ≡ none
      → let f = run valid_utf8 escape rate from_hex meta_timeout now event id e in
        ((total_bytes stats f).0 ≡ (stats handle).down + (total_bytes stats e).0)
        × ((total_bytes stats f).1 ≡ (stats handle).up + (total_bytes stats e).1)
  unfolding total_bytes
  total_bytes-run stats e now handle event id job total h o k a =
      let (u, same, made, held) =
        completed (from_hex job.identity.infohash_v1) now e.closed event job total o in
      let jobs =
        run_jobs valid_utf8 escape rate from_hex meta_timeout now event id e
          (record { job = job; phase = counting total (pos 0) }) h in
      let entries =
        run_entries valid_utf8 escape rate from_hex meta_timeout now event id e
          (record { job = job; phase = counting total (pos 0) }) (seeding_entry u) h made in
      let count : (counter : ℕ → ℕ)
          → entries_total counter
                (run valid_utf8 escape rate from_hex meta_timeout now event id e).entries
              + jobs_total counter
                  (run valid_utf8 escape rate from_hex meta_timeout now event id e).jobs
            ≡ counter handle + (entries_total counter e.entries + jobs_total counter e.jobs) =
        λ counter.
          rw (entries, jobs)
            (omega (
              arith,
              entries_total-insert counter job.model_id (seeding_entry u) e.entries a,
              ap (of_handle counter) (held ∙ k),
              jobs_total-insert counter id (record { job = job; phase = counting total (pos 0) })
                  (advance valid_utf8 escape rate (from_hex job.identity.infohash_v1) meta_timeout
                    now e.closed event job (counting total (pos 0))).0
                  e.jobs h same,
            )) in
      (count (λ x. (stats x).down), count (λ x. (stats x).up))
