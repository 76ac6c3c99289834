-- ===== src/Pull/One/Tests.antt =====
-- Tests and witnesses for the download of one file.
use hali_client.Base.{
  if◌then◌else◌, ℕ, true, false, [], ◌∷◌, Str, codes, some, none, ok, err, ◌≡◌, refl, Option,
  Result, str_eq,
}
use hali_client.Base.Int.{◌+ℤ◌, ◌-ℤ◌, pos, ℤ}
use hali_client.Cache.{Metadata, no_faults}
use hali_client.Cache.Tests.{plain}
use hali_client.Daemon.Lan.Observed.{LanQueryData}
use hali_client.Daemon.Server.{
  Response, success, failure, lan_query_data, download_started, SeedStatusData,
}
use hali_client.Hf.Files.{File}
use hali_client.Pull.Poll.{Tick}
use hali_client.Pull.Poll.Tests.{sample_wanted}
use hali_client.Pull.Lan.{lan_panics, try_lan_download}
use hali_client.Pull.One.{World}
use hali_client.Pull.Disk.{ensure_enough_disk_space, unknown_sizes, insufficient}

abbrev file : File
file = record { name = codes "qwen2-7b-chat-q4_k_m.gguf"; size = pos 10 }

abbrev other : File
other = record { name = codes "b.gguf"; size = pos 5 }

-- A partial file of four bytes
abbrev stat : Str → Option ℤ
stat path = if str_eq path (codes "qwen2-7b-chat-q4_k_m.gguf.tmp") then some (pos 4) else none

abbrev path_of : File → Str
path_of f = f.name

-- The bytes of the partial file are not asked for again.
enough : ensure_enough_disk_space stat path_of (ok (pos 11)) (file ∷ other ∷ []) ≡ ok tt
unfolding ensure_enough_disk_space ◌+ℤ◌ ◌-ℤ◌ str_eq
enough = refl

too_little :
    ensure_enough_disk_space stat path_of (ok (pos 10)) (file ∷ other ∷ []) ≡ err insufficient
unfolding ensure_enough_disk_space ◌+ℤ◌ ◌-ℤ◌ str_eq
too_little = refl

unknown :
    ensure_enough_disk_space stat path_of (ok (pos 99)) (file ∷ record other { size = pos 0 } ∷ [])
    ≡ err (unknown_sizes (codes "b.gguf" ∷ []))
unfolding ensure_enough_disk_space
unknown = refl

abbrev seeds : SeedStatusData
seeds = record {
  job_id = codes "s1";
  model_id = codes "m";
  infohash = codes "aa";
  magnet_uri = codes "magnet:?xt=urn:btih:aa";
  done = true;
  error = [];
}

abbrev sample : World Metadata
sample = record {
  codec = plain;
  root = codes "/models";
  is_under_root = λ path. true;
  save_faults = no_faults;
  set_faults = no_faults;
  now = codes "t";
  ended = false;
  lan = λ disk. (disk, ok false);
  downloaded = ok (pos 10);
  hash_file = λ path. ok (codes "c0");
  seeded = ok seeds;
}

abbrev hint : LanQueryData
hint = record {
  model_id = codes "m";
  revision = codes "main";
  infohash = codes "aa00aa00aa";
  infohash_v2 = [];
  hf_repo = codes "o/r";
  artifact_key = codes "m@main";
  peer_count = 1;
  last_seen = pos 5;
  peer_addrs = [];
}

abbrev started : Result Str Response
started = ok (success (download_started (codes "j1") []))

abbrev not_known : ℕ → Tick
not_known k = record { ended = true; answer = ok (failure (codes "job not found")) }

-- The models of a daemon that is off are downloaded from Hugging Face.
no_daemon :
    try_lan_download
      (record sample_wanted { daemon_runs = false })
      (ok (success (lan_query_data hint)))
      started
      not_known
      3
      []
    ≡ some ([], ok false)
unfolding try_lan_download
no_daemon = refl

-- A hint whose infohash is shorter than eight bytes makes the pull panic.
short_infohash :
    try_lan_download sample_wanted
      (ok (success (lan_query_data (record hint { infohash = codes "aa" }))))
      started
      not_known
      3
      []
    ≡ some ([], err lan_panics)
unfolding try_lan_download
short_infohash = refl
