-- ===== src/Pull/Lan.antt =====
-- cmd/pull.go: the download of a file from the LAN by tryLanDownload.
pub mod Revision
use hali_client.Base.{
  ltb, length, ℕ, Bool, true, false, not, ◌&&◌, ◌||◌, List, [], ◌∷◌, ◌++◌, Str, codes, is_empty,
  trim_space, join_path, Option, none, some, Dict, Result, ok, err, if◌then◌else◌,
}
use hali_client.Base.Int.{ℤ, pos, ◌+ℤ◌, ◌-ℤ◌, ltb_ℤ, leb_ℤ}
use hali_client.Cache.{Codec, Metadata, CacheError, is_blank, save, set_infohash, dir_of}
use hali_client.Cache as Cache
use hali_client.Daemon.Lan.Observed.{LanQueryData}
use hali_client.Daemon.Server.{Response, Data, no_data, SeedStatusData, kept_disk}
use hali_client.Hf.Files.{File, base}
use hali_client.Model.{ModelId}
use hali_client.Pull.Names.{model_id_for_download}
use hali_client.Pull.Poll.{
  Tick, Json, Wanted, Finish, FinishError, SeedError, finish_download_job, or_reason,
}

-- lan_panics stands for the panic at q.Infohash[:8].
pub data LanError : Type 0 where
  lan_panics : LanError
  lan_failed : Str → LanError
  lan_unreadable : LanError
  lan_finish : FinishError → LanError

abbrev pub with_infohash : Option LanQueryData → Option LanQueryData
with_infohash none = none
with_infohash (some q) = if is_blank q.infohash then none else some q

abbrev pub data_of : Json → Data → Option LanQueryData
data_of json no_data = none
data_of json d = with_infohash (json.lan_query d)

-- The answer to lan_query, if it names a torrent
abbrev pub candidate : Json → Result Str Response → Option LanQueryData
candidate json (err e) = none
candidate json (ok resp) = if not resp.is_ok then none else data_of json resp.payload

abbrev pub or_trimmed : Str → Str → Str
or_trimmed asked observed = if is_blank asked then trim_space observed else asked

module _ {Bytes : Type 0} (w : Wanted Bytes) where
  -- The download with what the hint adds to it
  unfoldable pub with_hint : LanQueryData → Wanted Bytes
  unfolding is_empty trim_space
  with_hint q = record w {
    hf_repo = or_trimmed w.hf_repo q.hf_repo;
    hf_revision = or_trimmed w.hf_revision q.revision;
    infohash = q.infohash;
    infohash_v2 = q.infohash_v2;
  }

  abbrev pub finished_lan : Option (Finish Bytes) → Option (Dict Bytes × Result LanError Bool)
  finished_lan none = none
  finished_lan (some f) =
      some (f.disk, elim f.result [ ok hash ↦ ok true | err e ↦ err (lan_finish e) ])

  abbrev pub lan_job :
      Wanted Bytes
      → Option Str
      → (ℕ → Tick)
      → ℕ
      → Dict Bytes
      → Option (Dict Bytes × Result LanError Bool)
  lan_job v none ticks fuel disk = some (disk, err lan_unreadable)
  lan_job v (some id) ticks fuel disk =
      if is_blank id
      then some (disk, err (lan_failed (codes "missing job id")))
      else finished_lan (finish_download_job v ticks fuel disk)

  abbrev pub lan_started :
      Wanted Bytes
      → Result Str Response
      → (ℕ → Tick)
      → ℕ
      → Dict Bytes
      → Option (Dict Bytes × Result LanError Bool)
  lan_started v (err e) ticks fuel disk = some (disk, err (lan_failed e))
  lan_started v (ok resp) ticks fuel disk =
      if not resp.is_ok
      then some (
        disk,
        err (
            lan_failed (
              or_reason v.json (trim_space resp.error) (codes "daemon rejected download request"))),
      )
      else lan_job v (v.json.job_id resp.payload) ticks fuel disk

  abbrev pub from_hint :
      Option LanQueryData
      → Result Str Response
      → (ℕ → Tick)
      → ℕ
      → Dict Bytes
      → Option (Dict Bytes × Result LanError Bool)
  from_hint none started ticks fuel disk = some (disk, ok false)
  from_hint (some q) started ticks fuel disk =
      let v = with_hint q in
      if is_blank v.hf_repo || is_blank v.hf_revision
      then some (disk, ok false)
      else if ltb (length v.infohash) 8
      then some (disk, err lan_panics)
      else lan_started v started ticks fuel disk

  -- tryLanDownload, with the daemon's answers to lan_query and to download, and the rounds of
  -- FinishDownloadJob; none while it still polls
  unfoldable pub try_lan_download :
      Result Str Response
      → Result Str Response
      → (ℕ → Tick)
      → ℕ
      → Dict Bytes
      → Option (Dict Bytes × Result LanError Bool)
  unfolding with_hint is_empty trim_space finish_download_job
  try_lan_download queried started ticks fuel disk =
      if not w.daemon_runs
      then some (disk, ok false)
      else from_hint (candidate w.json queried) started ticks fuel disk
