-- ===== src/Torrent/Engine.antt =====
-- internal/torrent/engine.go: the engine's tables and its download jobs. Times are nanoseconds, byte
-- counts are integers without a bound. A job stands in the table with the place that its goroutine
-- has reached, and each place is a stretch of the goroutine between two uses of the engine's lock.
-- The torrent client, and the conversion of bytes over a time through float64, are parameters.
pub mod Run
pub mod Start
pub mod Jobs
pub mod Limit
pub mod Wait
pub mod Tick
pub mod Seeds
pub mod Totals
mod Tests
pub mod Later
pub mod Keeps
pub mod Steps
use hali_client.Base.{
  ℕ, suc, ◌+◌, ◌-◌, ◌*◌, ◌/◌, Bool, true, false, not, ◌&&◌, List, [], ◌∷◌, Str, is_empty,
  trim_space, to_lower, Option, none, some, Dict, lookup, insert, ltb, leb, if◌then◌else◌, Result,
  ok, err, refuse, ◌>>◌, ◌>>=◌,
}
use hali_client.Base.Int.{ℤ, pos, pos_part, ◌-ℤ◌, ltb_ℤ, leb_ℤ, eqb_ℤ}
use hali_client.Torrent.Identity.{TorrentIdentity}
use hali_client.Torrent.Stats.{Status, at_least_zero}

pub record TorrentEntry : Type 0 where
  pub model_id : Str
  pub identity : TorrentIdentity
  pub magnet_uri : Str
  pub status : Status
  pub error : Str
  pub handle : Option ℕ

-- The texts of a job's Error field; the unsafe name and the panic value are quoted in theirs.
pub data JobError : Type 0 where
  no_error metadata_timeout engine_shutdown canceled_by_user : JobError
  unsafe_filename internal_panic : Str → JobError

-- The counts of peers, which only the copies of a job carry
pub record PeerCounts : Type 0 where
  pub active : ℕ
  pub pending : ℕ
  pub half_open : ℕ
  pub total : ℕ

abbrev pub no_peers : PeerCounts
no_peers = record { active = 0; pending = 0; half_open = 0; total = 0 }

pub record DownloadJob : Type 0 where
  pub id : Str
  pub model_id : Str
  pub identity : TorrentIdentity
  pub magnet_uri : Str
  pub filename : Str
  pub total : ℤ
  pub written : ℤ
  pub rate_bps : ℤ
  pub elapsed_sec : ℕ
  pub eta_seconds : ℕ
  pub peers : PeerCounts
  pub done : Bool
  pub error : JobError
  pub handle : Option ℕ
  pub started_at : ℕ
  pub last_rate_at : ℕ
  pub last_rate_bytes : ℤ

-- What the goroutine uses of a torrent's metadata
pub record TorrentInfo : Type 0 where
  pub total_length : ℤ
  pub best_name : Str

-- The places of a job's goroutine, in the order of the code: the head of the loop that waits for
-- the metadata, its deadline, its second look at the cancellation, its select, the assignments that
-- end a job, the tests behind the loop, and the loop of the ticker.
pub data Phase : Type 0 where
  polling timing choosing : (deadline max_deadline : ℕ) → Phase
  expiring : Phase
  failing : JobError → Phase
  arrived named : TorrentInfo → Phase
  looking testing selecting : ℤ → Phase
  stopping : Phase
  counting : (total missing : ℤ) → Phase
  returned : Phase

-- What the environment decides at a place: the clock, and the case that a select takes.
pub data Signal : Type 0 where
  idle shut_down : Signal
  ticked : (missing : ℤ) → Signal
  got_info : TorrentInfo → Signal
  window_over : (active_peers : ℕ) → Signal

-- A job and its goroutine
pub record Task : Type 0 where
  pub job : DownloadJob
  pub phase : Phase

pub record Engine : Type 0 where
  pub entries : Dict TorrentEntry
  pub jobs : Dict Task
  pub max_dl_jobs : ℤ
  pub closed : Bool

abbrev pub second : ℕ
second = 1000000000

-- The longest wait of the select
abbrev pub window_limit : ℕ
window_limit = 5 * second

-- activeDownloadJobsLocked
unfoldable pub active_download_jobs : Dict Task → ℕ
active_download_jobs [] = 0
active_download_jobs ((id, t) ∷ d) =
    let rest = active_download_jobs d in if t.job.done then rest else suc rest

-- The test at the head of StartDownload
unfoldable pub has_room : Engine → Bool
has_room e =
    not (ltb_ℤ (pos 0) e.max_dl_jobs && leb_ℤ e.max_dl_jobs (pos (active_download_jobs e.jobs)))

-- job.Done = true; job.Error = e
abbrev pub fail : JobError → DownloadJob → DownloadJob
fail e job = record job { done = true; error = e }

abbrev pub fail_open : JobError → DownloadJob → DownloadJob
fail_open e job = if not job.done then fail e job else job

abbrev pub is_canceled_error : JobError → Bool
is_canceled_error canceled_by_user = true
is_canceled_error _ = false

abbrev pub is_canceled : DownloadJob → Bool
is_canceled job = job.done && is_canceled_error job.error

-- isDownloadCancelled
unfoldable pub is_download_canceled : Str → Engine → Bool
is_download_canceled id e = elim (lookup id e.jobs) [ none ↦ false | some t ↦ is_canceled t.job ]

-- CancelDownload, with the torrent that is dropped
unfoldable pub cancel_download : Str → Engine → (Bool × Option ℕ) × Engine
cancel_download id e = elim (lookup id e.jobs) [
  | none ↦ ((false, none), e)
  | some t ↦ (
    (true, t.job.handle),
    record e { jobs = insert id (record t { job = fail_open canceled_by_user t.job }) e.jobs },
  )
]

-- int64(time.Since(started).Seconds()), zero for a time in the future
abbrev pub elapsed_since : ℕ → ℕ → ℕ
elapsed_since started now = (now - started) / second

abbrev pub time_left : ℤ → ℤ → ℤ → ℕ
time_left total written rate_bps = pos_part (total -ℤ written) / pos_part rate_bps

abbrev pub has_estimate : ℤ → ℤ → ℤ → Bool
has_estimate total written rate_bps = ltb_ℤ (pos 0) rate_bps && ltb_ℤ written total

-- The job as JobStatus leaves it in the table
abbrev pub refreshed : ℕ → DownloadJob → DownloadJob
refreshed now job = record job {
  elapsed_sec = elapsed_since job.started_at now;
  eta_seconds =
      if has_estimate job.total job.written job.rate_bps
      then time_left job.total job.written job.rate_bps
      else if job.done
      then 0
      else job.eta_seconds;
}

-- JobStatus: the copy that is returned, and the engine
unfoldable pub job_status : ℕ → PeerCounts → Str → Engine → Option DownloadJob × Engine
job_status now stats id e = elim (lookup id e.jobs) [
  | none ↦ (none, e)
  | some t ↦
      let job = refreshed now t.job in
      (
        some (elim job.handle [ none ↦ job | some h ↦ record job { peers = stats } ]),
        record e { jobs = insert id (record t { job = job }) e.jobs },
      )
]

-- The deadline of the wait after a window, when peers are connected
abbrev pub extended_deadline : ℕ → ℕ → ℕ → ℕ → ℕ → ℕ
extended_deadline meta_timeout active_peers now deadline max_deadline =
    let later =
      if ltb max_deadline (now + meta_timeout) then max_deadline else now + meta_timeout in
    if ltb 0 active_peers && ltb deadline later then later else deadline

abbrev pub window_of : ℕ → ℕ → ℕ
window_of now deadline = if ltb window_limit (deadline - now) then window_limit else deadline - now

-- SetMaxConcurrentDownloads
abbrev pub set_max_concurrent_downloads : ℤ → Engine → Engine
set_max_concurrent_downloads limit e = record e { max_dl_jobs = limit }

-- Shutdown, as the jobs see it
abbrev pub shutdown : Engine → Engine
shutdown e = record e { closed = true }
