-- ===== src/Pull/Collection.antt =====
-- cmd/pull.go: the collection of a pulled repository, with the metadata object of
-- internal/registry/torrent_metadata.go that its key is made of. The digests and the text of a number
-- are parameters; a directory of a collection is a map from the names in it to what they link to.
pub mod Key
pub mod Reuse
mod Tests
use hali_client.Base.{
  ℕ, Bool, true, false, not, ◌&&◌, List, [], ◌∷◌, ◌++◌, Str, codes, str_eq, str_lt, is_empty,
  to_lower, trim_space, equal_fold, join, join_path, sort, Option, none, some, Dict, lookup, insert,
  Result, ok, err, if◌then◌else◌, map,
}
use hali_client.Base.Int.{ℤ, pos, ltb_ℤ}
use hali_client.Daemon.Server.{SeedStatusData}
use hali_client.Hf.Files.{base}
use hali_client.Pull.{is_gguf_name, name_less}
use hali_client.Pull.Names.{sanitize_collection_part}
use hali_client.Pull.Poll.{SeedError}

pub record DownloadedArtifact : Type 0 where
  pub file_name : Str
  pub file_size : ℤ
  pub model_path : Str
  pub snapshot_hash : Str

pub record Digests : Type 0 where
  pub sha1_hex : Str → Str
  pub sha256_hex : Str → Str
  pub decimal : ℤ → Str

abbrev pub line_end : ℕ
line_end = 10

module _ (d : Digests) where
  -- BuildDeterministicTorrentMetadata, its infohash
  unfoldable pub metadata_infohash : Str → Str → Str → ℤ → Str
  unfolding trim_space
  metadata_infohash repo_id revision file_name file_size =
      let size = if ltb_ℤ file_size (pos 0) then pos 0 else file_size in
      d.sha1_hex (
        trim_space repo_id
        ++ (line_end
            ∷ (trim_space revision
                ++ (line_end ∷ (trim_space file_name ++ (line_end ∷ d.decimal size))))))

  abbrev pub key_part : Str → Str → DownloadedArtifact → Str
  key_part repo_id revision a = metadata_infohash repo_id revision a.file_name a.file_size

  -- buildCollectionKey
  unfoldable pub build_collection_key : Str → Str → List DownloadedArtifact → Str
  unfolding metadata_infohash sort join trim_space
  build_collection_key repo_id revision artifacts = d.sha1_hex (
      trim_space repo_id
      ++ (line_end
          ∷ (trim_space revision
              ++ (line_end
                  ∷ join line_end (sort str_lt (map (key_part repo_id revision) artifacts))))))

  -- artifactByName: the last artifact of a name stays
  unfoldable pub by_file_name :
      List DownloadedArtifact → Dict DownloadedArtifact → Dict DownloadedArtifact
  unfolding insert trim_space
  by_file_name [] m = m
  by_file_name (a ∷ xs) m = by_file_name xs (insert (trim_space a.file_name) a m)

  abbrev pub no_artifact : DownloadedArtifact
  no_artifact = record { file_name = []; file_size = pos 0; model_path = []; snapshot_hash = [] }

  abbrev pub or_zero : Option DownloadedArtifact → DownloadedArtifact
  or_zero none = no_artifact
  or_zero (some a) = a

  abbrev pub hash_part : Dict DownloadedArtifact → Str → Str
  hash_part m file =
      let name = trim_space file in
      let a = or_zero (lookup name m) in
      name ++ (line_end ∷ (trim_space a.snapshot_hash ++ (line_end ∷ d.decimal a.file_size)))

  abbrev pub hash_of_parts : Str → List Str → Str
  hash_of_parts infohash [] = to_lower (trim_space infohash)
  hash_of_parts infohash (p ∷ ps) = d.sha256_hex (join line_end (p ∷ ps))

  -- buildCollectionLocalHash, for a collection's infohash and files
  unfoldable pub build_collection_local_hash : Str → List Str → List DownloadedArtifact → Str
  unfolding by_file_name sort join to_lower trim_space
  build_collection_local_hash infohash files artifacts =
      hash_of_parts infohash (sort str_lt (map (hash_part (by_file_name artifacts [])) files))

pub record CollectionState : Type 0 where
  pub key : Str
  pub infohash : Str
  pub files : List Str

pub record CollectionResult : Type 0 where
  pub collection_key : Str
  pub repo_dir : Str
  pub files : List Str
  pub infohash : Str
  pub magnet_uri : Str

-- The collections on disk: the links and the state files, by their paths
pub record Collections : Type 0 where
  pub links : Dict Str
  pub states : Dict CollectionState

pub data CollectionError : Type 0 where
  no_artifacts no_gguf mkdir_failed : CollectionError
  link_failed : Str → CollectionError
  seed_error : SeedError → CollectionError

-- What a collection meets: the digests, the store's root, failures of the disk, and how the daemon
-- answers when it is asked to seed from a torrent file, by its infohash, or a directory
pub record World : Type 0 where
  pub digests : Digests
  pub root : Str
  pub mkdir_fails : Bool
  pub link_fails : Str → Bool
  pub write_fails : Bool
  pub seed_from_file : Str → Result SeedError SeedStatusData
  pub seed_collection : Result SeedError SeedStatusData

unfoldable pub gguf_names : List DownloadedArtifact → List Str
unfolding is_gguf_name
gguf_names [] = []
gguf_names (a ∷ xs) =
    let rest = gguf_names xs in if not (is_gguf_name a.file_name) then rest else a.file_name ∷ rest

unfoldable pub is_there : {V : Type 0} → Str → Dict V → Bool
is_there path d = elim (lookup path d) [ none ↦ false | some v ↦ true ]

abbrev pub target_of : Str → DownloadedArtifact → Str
target_of repo_dir a = join_path (repo_dir ∷ base a.file_name ∷ [])

-- The loop that links the artifacts, and the name of the artifact at which it stops, if it does
unfoldable pub link_all :
    (Str → Bool) → Str → List DownloadedArtifact → Dict Str → Dict Str × Option Str
unfolding is_there base insert
link_all fails repo_dir [] links = (links, none)
link_all fails repo_dir (a ∷ xs) links =
    let target = target_of repo_dir a in
    let there = is_there target links in
    let rest =
      link_all fails repo_dir xs (if there then links else insert target a.model_path links) in
    if not there && fails target then (links, some a.file_name) else rest

module _ (w : World) (repo_id revision : Str) where
  abbrev pub collection_base : Str → Str
  collection_base key = join_path (
      w.root
      ∷ codes "_collections"
      ∷ sanitize_collection_part repo_id
      ∷ sanitize_collection_part revision
      ∷ key
      ∷ [])

  abbrev pub repo_dir_of : Str → Str
  repo_dir_of key = join_path (collection_base key ∷ codes "repo" ∷ [])

  abbrev pub state_path_of : Str → Str
  state_path_of key = join_path (collection_base key ∷ codes "collection.json" ∷ [])

  abbrev pub collection_of : Str → List Str → SeedStatusData → CollectionResult
  collection_of key files sd = record {
    collection_key = key;
    repo_dir = repo_dir_of key;
    files = files;
    infohash = sd.infohash;
    magnet_uri = sd.magnet_uri;
  }

  abbrev pub freshly_seeded :
      Str
      → List Str
      → Result SeedError SeedStatusData
      → Collections
      → Collections × Result CollectionError CollectionResult
  freshly_seeded key files (err e) c = (c, err (seed_error e))
  freshly_seeded key files (ok sd) c = (
    (if w.write_fails then c else record c {
      states =
          insert (state_path_of key) (record { key = key; infohash = sd.infohash; files = files })
            c.states;
    }),
    ok (collection_of key files sd),
  )

  abbrev pub or_reused :
      Str
      → List Str
      → Result SeedError SeedStatusData
      → Collections
      → Collections × Result CollectionError CollectionResult
  or_reused key files (ok sd) c = (c, ok (collection_of key files sd))
  or_reused key files (err e) c = freshly_seeded key files w.seed_collection c

  -- The state file's torrent is used again when its key is this one and it has an infohash.
  abbrev pub seeded :
      Str
      → List Str
      → Option CollectionState
      → Collections
      → Collections × Result CollectionError CollectionResult
  seeded key files none c = freshly_seeded key files w.seed_collection c
  seeded key files (some st) c =
      if equal_fold (trim_space st.key) key && not (is_empty (trim_space st.infohash))
      then or_reused key files (w.seed_from_file (to_lower (trim_space st.infohash))) c
      else freshly_seeded key files w.seed_collection c

  abbrev pub linked :
      Str
      → List Str
      → Dict Str × Option Str
      → Collections
      → Collections × Result CollectionError CollectionResult
  linked key files (links, some name) c = (record c { links = links }, err (link_failed name))
  linked key files (links, none) c =
      seeded key files (lookup (state_path_of key) c.states) (record c { links = links })

  abbrev pub with_names :
      List DownloadedArtifact
      → List Str
      → Collections
      → Collections × Result CollectionError CollectionResult
  with_names artifacts [] c = (c, err no_gguf)
  with_names artifacts (n ∷ ns) c =
      let key = build_collection_key w.digests repo_id revision artifacts in
      if w.mkdir_fails
      then (c, err mkdir_failed)
      else linked key (n ∷ ns) (link_all w.link_fails (repo_dir_of key) artifacts c.links) c

  -- seedCollectionFromArtifacts
  unfoldable pub seed_collection_from_artifacts :
      List DownloadedArtifact → Collections → Collections × Result CollectionError CollectionResult
  unfolding gguf_names name_less sort build_collection_key link_all equal_fold lookup insert
      sanitize_collection_part to_lower trim_space is_empty
  seed_collection_from_artifacts [] c = (c, err no_artifacts)
  seed_collection_from_artifacts (a ∷ xs) c =
      with_names (a ∷ xs) (sort name_less (gguf_names (a ∷ xs))) c
