-- ===== src/Daemon/Server/Seed.antt =====
-- internal/daemon/server.go: the requests on seed jobs.
use hali_client.Base.{
  not, ◌&&◌, ◌||◌, [], ◌∷◌, ◌++◌, Str, codes, is_empty, Option, none, some, Result, ok, err,
  if◌then◌else◌,
}
use hali_client.Cache.{set_identity}
use hali_client.Daemon.Server.{
  Request, Response, SeedStatusData, seed_started, seed_status_data, success, failure, Server,
  World, kept_disk,
}
use hali_client.Safepath.{is_safe_filename}
use hali_client.Torrent.Engine.Seeds.{SeedJob, add_seed_job, seed_job_status}
use hali_client.Torrent.Identity.{TorrentIdentity}

abbrev pub seed_status_of : SeedJob → SeedStatusData
seed_status_of job = record {
  job_id = job.id;
  model_id = job.model_id;
  infohash = job.identity.infohash_v1;
  magnet_uri = job.magnet_uri;
  done = job.done;
  error = job.error;
}

abbrev pub invalid_dir : Str → Str
invalid_dir e = codes "invalid dir: " ++ e

module _ {Bytes : Type 0} (w : World Bytes) where
  -- StartSeed with its request: only the job is made here, and the rest runs in its goroutine.
  abbrev pub start_seed : Str → Request → Result Str Str → Server Bytes → Server Bytes × Response
  start_seed status req (err e) s = (s, failure (invalid_dir e))
  start_seed status req (ok dir) s = (
    record s { seeds = add_seed_job w.new_id req.model_id s.seeds },
    success (seed_started status w.new_id),
  )

  abbrev pub start_safe_seed : Request → Result Str Str → Server Bytes → Server Bytes × Response
  start_safe_seed req (err e) s = (s, failure (invalid_dir e))
  start_safe_seed req (ok dir) s =
      if not (is_safe_filename w.valid_utf8 req.filename)
      then (s, failure (codes "unsafe filename"))
      else start_seed (codes "hashing") req (ok dir) s

  unfoldable pub handle_seed : Request → Server Bytes → Server Bytes × Response
  unfolding is_safe_filename
  handle_seed req s =
      if is_empty req.dir || is_empty req.filename || is_empty req.model_id
      then (s, failure (codes "seed requires dir, filename, model_id"))
      else start_safe_seed req (w.canonical req.dir) s

  unfoldable pub handle_seed_from_file : Request → Server Bytes → Server Bytes × Response
  handle_seed_from_file req s =
      if is_empty req.dir || is_empty req.model_id || is_empty req.infohash
      then (s, failure (codes "seed_from_file requires dir, model_id, infohash"))
      else start_seed (codes "seeding") req (w.canonical req.dir) s

  unfoldable pub handle_seed_collection : Request → Server Bytes → Server Bytes × Response
  handle_seed_collection req s =
      if is_empty req.dir || is_empty req.model_id
      then (s, failure (codes "seed_collection requires dir, model_id"))
      else start_seed (codes "hashing") req (w.canonical req.dir) s

  abbrev pub stored_identity : Str → TorrentIdentity → Server Bytes → Server Bytes
  stored_identity dir id s = record s {
    disk = kept_disk s.disk (set_identity w.codec w.faults dir id s.disk);
  }

  -- A seed job that is done without an error, for a request with a directory: its identity is
  -- stored, and it is published if it has an infohash.
  abbrev pub seed_done : Str → SeedJob → Server Bytes → Server Bytes
  seed_done dir job s =
      let t = stored_identity dir job.identity s in
      if not (is_empty job.identity.infohash_v1)
      then record t {
        published =
            s.published ++ record { info_hash = job.identity.infohash_v1; content_dir = dir } ∷ [];
      }
      else t

  abbrev pub seed_status_answer : Request → Option SeedJob → Server Bytes → Server Bytes × Response
  seed_status_answer req none s = (s, failure (codes "seed job not found: " ++ req.job_id))
  seed_status_answer req (some job) s = (
    (if job.done && is_empty job.error && not (is_empty req.dir)
        then seed_done req.dir job s
        else s),
    success (seed_status_data (seed_status_of job)),
  )

  unfoldable pub handle_seed_status : Request → Server Bytes → Server Bytes × Response
  handle_seed_status req s =
      if is_empty req.job_id
      then (s, failure (codes "seed_status requires job_id"))
      else seed_status_answer req (seed_job_status req.job_id s.seeds) s
