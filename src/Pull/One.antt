-- ===== src/Pull/One.antt =====
-- cmd/pull.go: the download of one file in downloadOneFile. The results of the transfers and of the
-- loops that poll the daemon are given.
pub mod Stored
mod Tests
use hali_client.Base.{
  ltb, length, ℕ, Bool, true, false, not, ◌&&◌, ◌||◌, List, [], ◌∷◌, ◌++◌, Str, codes, is_empty,
  trim_space, join_path, Option, none, some, Dict, Result, ok, err, if◌then◌else◌,
}
use hali_client.Base.Int.{ℤ, pos, ◌+ℤ◌, ◌-ℤ◌, ltb_ℤ, leb_ℤ}
use hali_client.Cache.{Codec, Metadata, CacheError, is_blank, save, set_infohash, dir_of}
use hali_client.Cache as Cache
use hali_client.Daemon.Lan.Observed.{LanQueryData}
use hali_client.Daemon.Server.{Response, Data, no_data, SeedStatusData, kept_disk}
use hali_client.Hf.Files.{File, base}
use hali_client.Model.{ModelId}
use hali_client.Pull.Names.{model_id_for_download}
use hali_client.Pull.Poll.{
  Tick, Json, Wanted, Finish, FinishError, SeedError, finish_download_job, or_reason,
}
use hali_client.Pull.Lan.{LanError}

pub data OneError : Type 0 where
  one_canceled : OneError
  one_lan : LanError → OneError
  one_download one_hash : Str → OneError
  one_save : CacheError → OneError
  one_seed : SeedError → OneError

-- The fields of downloadedArtifact that the callers read
pub record Artifact : Type 0 where
  pub file_name : Str
  pub file_size : ℤ
  pub model_id : ModelId
  pub model_path : Str
  pub snapshot_hash : Str
  pub infohash : Str

-- What the download of a file meets: the store with its faults, the context, tryLanDownload with
-- the disk it leaves, client.Download with the bytes written, hashFileSHA256 and seedAndWait
pub record World (Bytes : Type 0) : Type 0 where
  pub codec : Codec Bytes
  pub root : Str
  pub is_under_root : Str → Bool
  pub save_faults : Cache.Faults
  pub set_faults : Cache.Faults
  pub now : Str
  pub ended : Bool
  pub lan : Dict Bytes → Dict Bytes × Result LanError Bool
  pub downloaded : Result Str ℤ
  pub hash_file : Str → Result Str Str
  pub seeded : Result SeedError SeedStatusData

module _ {Bytes : Type 0} (w : World Bytes) (repo_id revision : Str) (selected : File) where
  abbrev pub id_of_file : ModelId
  id_of_file = model_id_for_download repo_id revision selected

  abbrev pub model_dir : Str
  model_dir = dir_of w.codec w.root w.is_under_root id_of_file

  abbrev pub artifact : ℤ → Str → Str → Artifact
  artifact size hash infohash = record {
    file_name = base selected.name;
    file_size = size;
    model_id = id_of_file;
    model_path = join_path (model_dir ∷ base selected.name ∷ []);
    snapshot_hash = hash;
    infohash = infohash;
  }

  abbrev pub meta_of : ℤ → Str → Metadata
  meta_of written hash = record {
    model_id = [];
    hf_repo = repo_id;
    hf_revision = revision;
    hf_snapshot = hash;
    infohash = [];
    infohash_v2 = [];
    identity_seal = [];
    files = base selected.name ∷ [];
    size = written;
    downloaded_at = [];
  }

  abbrev pub after_seed :
      ℤ → Str → Result SeedError SeedStatusData → Dict Bytes → Dict Bytes × Result OneError Artifact
  after_seed written hash (err e) disk = (disk, err (one_seed e))
  after_seed written hash (ok sd) disk = (
    (if not (is_empty sd.infohash)
        then kept_disk disk (set_infohash w.codec w.set_faults model_dir sd.infohash disk)
        else disk),
    ok (artifact written hash sd.infohash),
  )

  abbrev pub after_save :
      ℤ → Str → Result CacheError (Dict Bytes) → Dict Bytes → Dict Bytes × Result OneError Artifact
  after_save written hash (err e) disk = (disk, err (one_save e))
  after_save written hash (ok saved) disk = after_seed written hash w.seeded saved

  abbrev pub after_hash : ℤ → Result Str Str → Dict Bytes → Dict Bytes × Result OneError Artifact
  after_hash written (err e) disk = (disk, err (one_hash e))
  after_hash written (ok hash) disk =
      after_save written hash
        (save w.codec w.root w.is_under_root w.save_faults w.now id_of_file (meta_of written hash)
          disk)
        disk

  abbrev pub after_download : Result Str ℤ → Dict Bytes → Dict Bytes × Result OneError Artifact
  after_download (err e) disk = (disk, err (one_download e))
  after_download (ok written) disk =
      after_hash written (w.hash_file (join_path (model_dir ∷ base selected.name ∷ []))) disk

  abbrev pub after_lan : Dict Bytes × Result LanError Bool → Dict Bytes × Result OneError Artifact
  after_lan (disk, err e) = (disk, err (one_lan e))
  after_lan (disk, ok true) = (disk, ok (artifact selected.size [] []))
  after_lan (disk, ok false) = after_download w.downloaded disk

  -- downloadOneFile
  unfoldable pub download_one_file : Dict Bytes → Dict Bytes × Result OneError Artifact
  unfolding model_id_for_download save set_infohash base is_empty
  download_one_file disk = if w.ended then (disk, err one_canceled) else after_lan (w.lan disk)
