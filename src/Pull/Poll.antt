-- ===== src/Pull/Poll.antt =====
-- cmd/pull.go: the loops that poll the daemon, FinishDownloadJob and pollSeedJob, with the requests
-- that start them. Tick k of a loop is what its k-th round meets: whether the context has ended, and
-- the daemon's answer. encoding/json is a parameter.
pub mod Loop
pub mod Ends
pub mod Daemon
pub mod Tests
use hali_client.Base.{
  ℕ, zero, suc, Bool, true, false, not, ◌&&◌, ◌||◌, List, [], ◌∷◌, ◌++◌, Str, codes, is_empty,
  to_lower, trim_space, Option, none, some, Dict, Result, ok, err, if◌then◌else◌, ltb, join_path,
  drop, ◌-◌, length,
}
use hali_client.Base.Int.{ℤ, pos}
use hali_client.Cache.{Codec, Metadata, save}
use hali_client.Cache as Cache
use hali_client.Daemon.Lan.Observed.{LanQueryData}
use hali_client.Daemon.Server.{Response, Data, JobStatusData, SeedStatusData, kept_disk}
use hali_client.Model.{ModelId}
use hali_client.Torrent.Engine.{no_peers}

pub record Tick : Type 0 where
  pub ended : Bool
  pub answer : Result Str Response

abbrev pub or_next {ℓ} : {O : Type ℓ} → Option O → Option O → Option O
or_next none rest = rest
or_next (some o) rest = some o

-- A loop of rounds from round k on, with fuel for the number of them; none when it is still going on
unfoldable pub poll_until {ℓ} : {O : Type ℓ} → (ℕ → Option O) → ℕ → ℕ → Option O
poll_until round zero k = none
poll_until round (suc fuel) k = or_next (round k) (poll_until round fuel (suc k))

abbrev pub zero_job_status : JobStatusData
zero_job_status = record {
  job_id = [];
  model_id = [];
  magnet_uri = [];
  filename = [];
  written = pos 0;
  total = pos 0;
  rate_bps = pos 0;
  elapsed_sec = 0;
  eta_seconds = 0;
  peers = no_peers;
  done = false;
  error = [];
}

-- json.Marshal of the data and json.Unmarshal into a zero value of the wanted type; none when one of
-- them fails
pub record Json : Type 0 where
  pub job_status : Data → Option JobStatusData
  pub seed_status : Data → Option SeedStatusData
  pub lan_query : Data → Option LanQueryData
  pub job_id : Data → Option Str

pub data FinishError : Type 0 where
  canceled : FinishError
  download_error download_failed hash_failed : Str → FinishError

-- What FinishDownloadJob does when it returns: its result, the metadata on disk, whether it has sent
-- cancel_job, and the status with which it has queued an event
pub record Finish (Bytes : Type 0) : Type 0 where
  pub result : Result FinishError Str
  pub disk : Dict Bytes
  pub cancel_sent : Bool
  pub ingested : Option JobStatusData

-- The download that is waited for, and what FinishDownloadJob meets at its end
pub record Wanted (Bytes : Type 0) : Type 0 where
  pub json : Json
  pub codec : Codec Bytes
  pub root : Str
  pub is_under_root : Str → Bool
  pub faults : Cache.Faults
  pub now : Str
  pub hash_file : Str → Result Str Str
  pub daemon_runs : Bool
  pub id : ModelId
  pub model_dir : Str
  pub hf_repo : Str
  pub hf_revision : Str
  pub infohash : Str
  pub infohash_v2 : Str

module _ {Bytes : Type 0} (w : Wanted Bytes) where
  abbrev pub downloaded_meta : JobStatusData → Str → Metadata
  downloaded_meta js hash = record {
    model_id = [];
    hf_repo = w.hf_repo;
    hf_revision = w.hf_revision;
    hf_snapshot = hash;
    infohash = w.infohash;
    infohash_v2 = w.infohash_v2;
    files = js.filename ∷ [];
    size = js.total;
    downloaded_at = [];
    identity_seal = [];
  }

  abbrev pub stopped : Bool → FinishError → Dict Bytes → Finish Bytes
  stopped cancel e disk = record {
    result = err e;
    disk = disk;
    cancel_sent = cancel;
    ingested = none;
  }

  -- A warning is all that comes of metadata that cannot be saved.
  abbrev pub hashed : JobStatusData → Result Str Str → Dict Bytes → Finish Bytes
  hashed js (err e) disk = stopped false (hash_failed e) disk
  hashed js (ok hash) disk = record {
    result = ok hash;
    disk =
        kept_disk disk
          (save w.codec w.root w.is_under_root w.faults w.now w.id (downloaded_meta js hash) disk);
    cancel_sent = false;
    ingested = some js;
  }

  abbrev pub judged : JobStatusData → Dict Bytes → Option (Finish Bytes)
  judged js disk =
      if not (is_empty js.error)
      then some (stopped false (download_failed js.error) disk)
      else if not js.done
      then none
      else some (hashed js (w.hash_file (join_path (w.model_dir ∷ js.filename ∷ []))) disk)

  abbrev pub decoded : Option JobStatusData → Dict Bytes → Option (Finish Bytes)
  decoded none disk = none
  decoded (some js) disk = judged js disk

  -- The answer's field OK is not looked at.
  abbrev pub answered : Result Str Response → Dict Bytes → Option (Finish Bytes)
  answered (err e) disk = some (stopped false (download_error e) disk)
  answered (ok resp) disk = decoded (w.json.job_status resp.payload) disk

  -- One round of FinishDownloadJob, none when it goes on
  unfoldable pub finish_round : Tick → Dict Bytes → Option (Finish Bytes)
  unfolding is_empty save
  finish_round t disk =
      if t.ended then some (stopped w.daemon_runs canceled disk) else answered t.answer disk

  -- FinishDownloadJob
  unfoldable pub finish_download_job : (ℕ → Tick) → ℕ → Dict Bytes → Option (Finish Bytes)
  unfolding poll_until finish_round
  finish_download_job ticks fuel disk = poll_until (λ k. finish_round (ticks k) disk) fuel 0

pub data SeedError : Type 0 where
  seed_canceled not_running missing_job_id unreadable : SeedError
  seed_failed : Str → SeedError

module _ (json : Json) where
  abbrev pub seed_judged : SeedStatusData → Option (Result SeedError SeedStatusData)
  seed_judged sd =
      if not sd.done
      then none
      else if not (is_empty sd.error)
      then some (err (seed_failed sd.error))
      else some (ok sd)

  abbrev pub seed_decoded : Option SeedStatusData → Option (Result SeedError SeedStatusData)
  seed_decoded none = none
  seed_decoded (some sd) = seed_judged sd

  abbrev pub seed_answered : Result Str Response → Option (Result SeedError SeedStatusData)
  seed_answered (err e) = some (err (seed_failed e))
  seed_answered (ok resp) =
      if not resp.is_ok
      then some (err (seed_failed (trim_space resp.error)))
      else seed_decoded (json.seed_status resp.payload)

  unfoldable pub seed_round : Tick → Option (Result SeedError SeedStatusData)
  unfolding is_empty trim_space
  seed_round t = if t.ended then some (err seed_canceled) else seed_answered t.answer

  -- pollSeedJob
  unfoldable pub poll_seed_job : (ℕ → Tick) → ℕ → Option (Result SeedError SeedStatusData)
  unfolding poll_until seed_round
  poll_seed_job ticks fuel = poll_until (λ k. seed_round (ticks k)) fuel 0

  abbrev pub labeled : Str → SeedError → SeedError
  labeled label (seed_failed e) = seed_failed (label ++ (codes ": " ++ e))
  labeled label e = e

  abbrev pub waited :
      Str → Option (Result SeedError SeedStatusData) → Option (Result SeedError SeedStatusData)
  waited label none = none
  waited label (some (ok sd)) = some (ok sd)
  waited label (some (err e)) = some (err (labeled label e))

  abbrev pub with_job : Str → Option Str → (ℕ → Tick) → ℕ → Option (Result SeedError SeedStatusData)
  with_job label none ticks fuel = some (err unreadable)
  with_job label (some id) ticks fuel =
      if is_empty (trim_space id)
      then some (err missing_job_id)
      else waited label (poll_seed_job ticks fuel)

  abbrev pub or_reason : Str → Str → Str
  or_reason reason default = if is_empty reason then default else reason

  abbrev pub seed_started_with :
      Str → Result Str Response → (ℕ → Tick) → ℕ → Option (Result SeedError SeedStatusData)
  seed_started_with label (err e) ticks fuel = some (err (labeled label (seed_failed e)))
  seed_started_with label (ok resp) ticks fuel =
      if not resp.is_ok
      then some (
          err (
            labeled label
              (seed_failed (or_reason (trim_space resp.error) (codes "daemon rejected request")))))
      else with_job label (json.job_id resp.payload) ticks fuel

  -- startSeedJobAndWait, with the answer to its request and the rounds behind it
  unfoldable pub start_seed_job_and_wait :
      Bool → Str → Result Str Response → (ℕ → Tick) → ℕ → Option (Result SeedError SeedStatusData)
  unfolding poll_seed_job is_empty trim_space
  start_seed_job_and_wait runs label started ticks fuel =
      if not runs then some (err not_running) else seed_started_with label started ticks fuel
