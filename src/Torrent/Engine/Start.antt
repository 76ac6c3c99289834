-- ===== src/Torrent/Engine/Start.antt =====
-- internal/torrent/engine.go: StartDownload.
use hali_client.Base.{
  ℕ, ◌+◌, ◌*◌, Bool, false, not, ◌&&◌, List, [], Str, is_empty, trim_space, to_lower, Option, none,
  some, insert, Result, ok, err, refuse, ◌>>◌, ◌>>=◌,
}
use hali_client.Base.Int.{pos}
use hali_client.Safepath.{is_valid_infohash_v2}
use hali_client.Torrent.Identity.{TorrentIdentity}
use hali_client.Torrent.Magnet.{MagnetError, build_magnet}
use hali_client.Torrent.Engine.{Task, no_peers, DownloadJob, Engine, has_room, no_error, polling}

-- The torrent client and the file system, as StartDownload uses them: the bytes of an infohash in
-- hexadecimal, the directory of the model, and the torrent of a magnet URI with its peers.
pub record Client : Type 0 where
  pub from_hex : Str → Option (List ℕ)
  pub mkdir_all : Str → Bool
  pub escape : Str → Str
  pub parses_magnet : Str → Bool
  pub add_torrent : Str → List Str → Option ℕ

pub data StartError : Type 0 where
  too_many_downloads invalid_infohash invalid_infohash_v2 mkdir_failed bad_magnet : StartError
  add_failed : StartError

abbrev pub or_error {ℓ} : {A : Type ℓ} → StartError → Option A → Result StartError A
or_error e none = err e
or_error e (some a) = ok a

abbrev pub magnet_or_error : Result MagnetError Str → Result StartError Str
magnet_or_error (ok uri) = ok uri
magnet_or_error (err e) = err bad_magnet

abbrev pub new_job : ℕ → Str → Str → TorrentIdentity → Str → ℕ → DownloadJob
new_job now id model_id identity magnet_uri handle = record {
  id = id;
  model_id = model_id;
  identity = identity;
  magnet_uri = magnet_uri;
  filename = [];
  total = pos 0;
  written = pos 0;
  rate_bps = pos 0;
  elapsed_sec = 0;
  eta_seconds = 0;
  peers = no_peers;
  done = false;
  error = no_error;
  handle = some handle;
  started_at = now;
  last_rate_at = now;
  last_rate_bytes = pos 0;
}

-- StartDownload between its two critical sections: the new job
unfoldable pub prepare :
    Client → ℕ → Str → Str → Str → Str → Str → List Str → Result StartError DownloadJob
prepare client now job_id model_dir model_id ih_hex ih_v2 peer_addrs =
    let v2 = trim_space (to_lower ih_v2) in
    or_error invalid_infohash (client.from_hex ih_hex) >>= λ ih.
    refuse (not (is_empty v2) && not (is_valid_infohash_v2 v2)) invalid_infohash_v2
    >> refuse (not (client.mkdir_all model_dir)) mkdir_failed
    >> magnet_or_error (build_magnet client.escape ih v2 model_id [] [])
    >>= λ uri.
        refuse (not (client.parses_magnet uri)) bad_magnet
        >> or_error add_failed (client.add_torrent uri peer_addrs)
        >>= λ handle. ok (
            new_job now job_id model_id (record { infohash_v1 = ih_hex; infohash_v2 = v2 }) uri
              handle)

-- The goroutine starts with its two deadlines.
abbrev pub new_task : ℕ → ℕ → DownloadJob → Task
new_task now meta_timeout job = record {
  job = job;
  phase = polling (now + meta_timeout) (now + 3 * meta_timeout);
}

-- The second critical section, and the start of the goroutine
unfoldable pub add_job : ℕ → ℕ → DownloadJob → Engine → Engine
add_job now meta_timeout job e = record e {
  jobs = insert job.id (new_task now meta_timeout job) e.jobs;
}

-- StartDownload as it runs alone
unfoldable pub start_download :
    Client → ℕ → ℕ → Str → Str → Str → Str → Str → List Str → Engine → Result StartError Engine
start_download client now meta_timeout job_id model_dir model_id ih_hex ih_v2 peer_addrs e =
    refuse (not (has_room e)) too_many_downloads
    >> prepare client now job_id model_dir model_id ih_hex ih_v2 peer_addrs
    >>= λ job. ok (add_job now meta_timeout job e)
