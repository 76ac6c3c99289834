-- ===== src/Pull/One/Stored.antt =====
-- What a download from Hugging Face leaves in the store.
use hali_client.Base.{true, false, [], ◌∷◌, Str, is_empty, Dict, insert, ok, ◌≡◌, join_path}
use hali_client.Base.Int.{ℤ}
use hali_client.Cache.{Metadata, no_faults, is_blank, sealed}
use hali_client.Cache.Identity.{IsFaithful}
use hali_client.Daemon.Server.{SeedStatusData}
use hali_client.Hf.Files.{File, base}
use hali_client.Model.{to_string}
use hali_client.Pull.Names.{model_id_for_download}
use hali_client.Pull.One.{World, Artifact, id_of_file, model_dir, meta_of}

module _ {Bytes : Type 0} (w : World Bytes) (repo_id revision : Str) (selected : File)
    (lan disk : Dict Bytes) (written : ℤ) (hash : Str) (sd : SeedStatusData) where
  -- The LAN has no torrent of the file, Hugging Face and the daemon do their part, and no call of the
  -- store fails.
  pub record GoesWell : Type 0 where
    pub faithful : IsFaithful w.codec
    pub goes_on : w.ended ≡ false
    pub no_lan : w.lan disk ≡ (lan, ok false)
    pub downloads : w.downloaded ≡ ok written
    pub hashes :
        w.hash_file (join_path (model_dir w repo_id revision selected ∷ base selected.name ∷ []))
        ≡ ok hash
    pub saves : w.save_faults ≡ no_faults
    pub sets : w.set_faults ≡ no_faults
    pub seeds : w.seeded ≡ ok sd
    pub inside : w.is_under_root (model_dir w repo_id revision selected) ≡ true
    pub has_repo : is_blank repo_id ≡ false
    pub has_revision : is_blank revision ≡ false
    pub has_hash : is_blank hash ≡ false
    pub has_infohash : is_empty sd.infohash ≡ false

  -- The metadata of the file with the model's id, its source, the hash of its bytes, their number, the
  -- time and the infohash of its torrent
  abbrev pub stored_meta : Metadata
  stored_meta = record {
    model_id = to_string (model_id_for_download repo_id revision selected);
    hf_repo = repo_id;
    hf_revision = revision;
    hf_snapshot = hash;
    infohash = sd.infohash;
    infohash_v2 = [];
    identity_seal = [];
    files = base selected.name ∷ [];
    size = written;
    downloaded_at = w.now;
  }

  -- What downloadOneFile returns of the file
  abbrev pub stored_artifact : Artifact
  stored_artifact = record {
    file_name = base selected.name;
    file_size = written;
    model_id = model_id_for_download repo_id revision selected;
    model_path = join_path (model_dir w repo_id revision selected ∷ base selected.name ∷ []);
    snapshot_hash = hash;
    infohash = sd.infohash;
  }

  abbrev dir : Str
  dir = model_dir w repo_id revision selected

  abbrev first_meta : Metadata
  first_meta = record (meta_of w repo_id revision selected written hash) {
    model_id = to_string (id_of_file w repo_id revision selected);
    downloaded_at = w.now;
  }

  abbrev saved : Dict Bytes
  saved = insert dir (w.codec.marshal (sealed w.codec first_meta)) lan

  abbrev last_meta : Metadata
  last_meta = record (sealed w.codec first_meta) { infohash = sd.infohash }

  abbrev last : Dict Bytes
  last = insert dir (w.codec.marshal (sealed w.codec last_meta)) saved
