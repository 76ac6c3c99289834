-- ===== src/Pull/Collection/Tests.antt =====
-- Tests and witnesses for the collection of a pulled repository.
use mathlib.Core.List.{Permᴰ}
use hali_client.Base.{
  join_path, join_parts, clean, clean_text, fields_by, clean_segs, true, false, List, [], ◌∷◌, Str,
  codes, some, ok, err, ◌≡◌, refl, lookup, is_empty, trim_space, to_lower, sort, str_eq, str_lt,
  join,
}
use hali_client.Base.Int.{pos}
use hali_client.Daemon.Server.{SeedStatusData}
use hali_client.Pull.{name_less}
use hali_client.Pull.Collection.{
  DownloadedArtifact, Collections, World, no_artifacts, no_gguf, link_all, collection_of,
  build_collection_key, build_collection_local_hash, seed_collection_from_artifacts, gguf_names,
}
use hali_client.Pull.Collection.Reuse.{IsWilling, collection_reused}

abbrev artifact : Str → Str → DownloadedArtifact
artifact name path = record {
  file_name = name;
  file_size = pos 7;
  model_path = path;
  snapshot_hash = codes "c0";
}

abbrev one : DownloadedArtifact
one = artifact (codes "b.gguf") (codes "/models/b/b.gguf")

abbrev two : DownloadedArtifact
two = artifact (codes "A.gguf") (codes "/models/a/A.gguf")

abbrev seed_status : Str → SeedStatusData
seed_status magnet = record {
  job_id = codes "s1";
  model_id = codes "m";
  infohash = codes "AB01";
  magnet_uri = magnet;
  done = true;
  error = [];
}

abbrev sample : World
sample = record {
  digests = record {
    sha1_hex = λ s. codes "0123456789ab";
    sha256_hex = λ s. s;
    decimal = λ n. codes "7";
  };
  root = codes "/models";
  mkdir_fails = false;
  link_fails = λ path. false;
  write_fails = false;
  seed_from_file = λ infohash. ok (seed_status (codes "again"));
  seed_collection = ok (seed_status (codes "first"));
}

abbrev empty : Collections
empty = record { links = []; states = [] }

abbrev names : List Str
names = codes "A.gguf" ∷ codes "b.gguf" ∷ []

abbrev key : Str
key = codes "0123456789ab"

nothing_to_seed :
    (seed_collection_from_artifacts sample (codes "o/r") (codes "main") [] empty).1
    ≡ err no_artifacts
unfolding seed_collection_from_artifacts
nothing_to_seed = refl

only_text :
    (seed_collection_from_artifacts sample
      (codes "o/r")
      (codes "main")
      (artifact (codes "notes.txt") [] ∷ [])
      empty).1
    ≡ err no_gguf
unfolding seed_collection_from_artifacts
only_text = refl

-- A link that is there already is kept, and the link that fails ends the loop.
links_until_failure :
    link_all (λ path. str_eq path (codes "/c/A.gguf")) (codes "/c") (one ∷ one ∷ two ∷ []) []
    ≡ ((codes "/c/b.gguf", codes "/models/b/b.gguf") ∷ [], some (codes "A.gguf"))
unfolding link_all lookup join_path join_parts is_empty clean clean_text join fields_by clean_segs
links_until_failure = refl

-- The parts are sorted by their bytes, so a capital letter comes first.
local_hash :
    build_collection_local_hash sample.digests
      (codes " AB ")
      (codes "b.gguf" ∷ codes " A.gguf" ∷ [])
      (one ∷ two ∷ [])
    ≡ codes "A.gguf\nc0\n7\nb.gguf\nc0\n7"
unfolding build_collection_local_hash str_lt lookup
local_hash = refl

willing :
    IsWilling sample
      (codes "o/r")
      (codes "main")
      key
      (codes "A.gguf")
      (codes "b.gguf" ∷ [])
      (seed_status (codes "first"))
      (seed_status (codes "again"))
unfolding is_empty trim_space to_lower
willing = record {
  makes = refl;
  links = λ path. refl;
  writes = refl;
  seeds = refl;
  has_infohash = refl;
  seeds_again = refl;
  digest_trimmed = λ s. refl;
}

collection_reused_example :
    let first =
      seed_collection_from_artifacts sample (codes "o/r") (codes "main") (one ∷ two ∷ []) empty in
    let second =
      seed_collection_from_artifacts sample (codes "o/r") (codes "main") (two ∷ one ∷ []) first.0 in
    (first.1
      ≡ ok (
          collection_of sample
            (codes "o/r")
            (codes "main")
            key
            names
            (seed_status (codes "first"))))
    × (second.1
        ≡ ok (
            collection_of sample
              (codes "o/r")
              (codes "main")
              key
              names
              (seed_status (codes "again"))))
    × (second.0.states ≡ first.0.states)
unfolding sort gguf_names name_less build_collection_key lookup
collection_reused_example =
    collection_reused sample (codes "o/r") (codes "main") key (codes "A.gguf") (codes "b.gguf" ∷ [])
      (seed_status (codes "first")) (seed_status (codes "again")) one two (two ∷ []) (one ∷ [])
      empty willing (Permᴰ.swap refl refl) refl refl refl
