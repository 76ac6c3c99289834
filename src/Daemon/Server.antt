-- ===== src/Daemon/Server.antt =====
-- internal/daemon/server.go: the dispatch of the requests of internal/daemon/protocol.go, over the
-- engine, the LAN index, the cache, the event queue and the activity log. What the request finds
-- outside the program is a parameter: the clock, the disk's faults, the torrent client, the peers.
pub mod Seed
pub mod Job
pub mod Handle
pub mod Answers
pub mod Tests
use hali_client.Base.{
  ℕ, Bool, true, false, not, ◌&&◌, ◌||◌, List, [], ◌∷◌, ◌++◌, Str, codes, is_empty, to_lower,
  trim_space, Option, none, some, Dict, insert, Result, ok, err, if◌then◌else◌,
}
use hali_client.Base.Int.{ℤ}
use hali_client.Cache.{Codec}
use hali_client.Cache as Cache
use hali_client.Daemon.Activity.{ActivityBuffer}
use hali_client.Daemon.Lan.{LanIndex}
use hali_client.Daemon.Lan.Observed.{LanQueryData, Readings}
use hali_client.Daemon.Lan.Summary.{LanEntry, LanSeenEntry}
use hali_client.Events.{ModelPullEvent}
use hali_client.Torrent.Engine.{Engine, DownloadJob, JobError, PeerCounts}
use hali_client.Torrent.Engine.Start.{Client, StartError}
use hali_client.Torrent.Engine.Seeds.{Seeds, SeedJob}
use hali_client.Torrent.Stats.{Status, StatsSnapshot}

pub data Cmd : Type 0 where
  cmd_status cmd_list cmd_seed cmd_seed_from_file cmd_seed_collection cmd_seed_status : Cmd
  cmd_enqueue_event cmd_lan_query cmd_lan_seen cmd_download cmd_cancel_job cmd_job_status : Cmd
  cmd_stats cmd_stop : Cmd
  other_cmd : Str → Cmd

-- Request, without the token, which the connection checks, and the piece hashes, which the engine
-- gets with a seed
pub record Request : Type 0 where
  pub cmd : Cmd
  pub model_id : Str
  pub dir : Str
  pub filename : Str
  pub infohash : Str
  pub infohash_v2 : Str
  pub peer_addrs : List Str
  pub job_id : Str
  pub allow_unreachable_publish : Bool
  pub event : Option ModelPullEvent

pub record SeedInfo : Type 0 where
  pub model_id : Str
  pub infohash : Str
  pub infohash_v2 : Str
  pub magnet_uri : Str
  pub status : Status
  pub peers : Option ℕ

-- StatusData, without the process and the network
pub record StatusData : Type 0 where
  pub seeding : List SeedInfo
  pub lan : List LanEntry
  pub managed : Bool

pub record SeedStatusData : Type 0 where
  pub job_id : Str
  pub model_id : Str
  pub infohash : Str
  pub magnet_uri : Str
  pub done : Bool
  pub error : Str

pub record JobStatusData : Type 0 where
  pub job_id : Str
  pub model_id : Str
  pub magnet_uri : Str
  pub filename : Str
  pub written : ℤ
  pub total : ℤ
  pub rate_bps : ℤ
  pub elapsed_sec : ℕ
  pub eta_seconds : ℕ
  pub peers : PeerCounts
  pub done : Bool
  pub error : Str

-- The values of a Response's Data field; `no_data` is its nil
pub data Data : Type 0 where
  no_data : Data
  status_data : StatusData → Data
  stats_data : StatsSnapshot → Data
  seed_started : (status job_id : Str) → Data
  seed_status_data : SeedStatusData → Data
  lan_query_data : LanQueryData → Data
  lan_seen_data : List LanSeenEntry → Data
  download_started : (job_id : Str) → List Str → Data
  job_status_data : JobStatusData → Data
  job_canceled : (job_id : Str) → Data
  event_status : Str → Data

pub record Response : Type 0 where
  pub is_ok : Bool
  pub payload : Data
  pub error : Str

abbrev pub success : Data → Response
success d = record { is_ok = true; payload = d; error = [] }

abbrev pub failure : Str → Response
failure e = record { is_ok = false; payload = no_data; error = e }

-- TorrentPublishedEvent, as far as the daemon fills it
pub record Published : Type 0 where
  pub info_hash : Str
  pub content_dir : Str

pub record Server (Bytes : Type 0) : Type 0 where
  pub engine : Engine
  pub seeds : Seeds
  pub lan : LanIndex
  pub disk : Dict Bytes
  pub queue : Dict ModelPullEvent
  pub activity : ActivityBuffer
  pub published : List Published
  pub stopping : Bool

-- What one request meets: safepath.Canonical below the store's root, utf8.ValidString, the configuration as
-- LoadService gives it with telemetry on or off, the queue's next file or the error of writing it,
-- the texts of errors, and the engine's clock and client.
pub record World (Bytes : Type 0) : Type 0 where
  pub codec : Codec Bytes
  pub faults : Cache.Faults
  pub canonical : Str → Result Str Str
  pub valid_utf8 : Str → Bool
  pub new_id : Str
  pub telemetry : Result Str Bool
  pub has_worker : Bool
  pub queue_path : Result Str Str
  pub client : Client
  pub meta_timeout : ℕ
  pub start_error : StartError → Str
  pub job_error : JobError → Str
  pub now : ℕ
  pub readings : Readings
  pub summarized_at : ℕ
  pub peers : PeerCounts
  pub active_peers : ℕ → ℕ
  pub managed : Bool
  pub stats : StatsSnapshot

-- A store that may refuse: the error is not looked at.
abbrev pub kept_disk {ℓ κ} : {E : Type ℓ} {A : Type κ} → A → Result E A → A
kept_disk old (ok disk) = disk
kept_disk old (err e) = old
