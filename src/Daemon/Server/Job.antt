-- ===== src/Daemon/Server/Job.antt =====
-- internal/daemon/server.go: the requests on download jobs.
use hali_client.Base.{
  Bool, true, false, ◌&&◌, ◌||◌, List, [], ◌∷◌, ◌++◌, Str, codes, is_empty, trim_space, Option,
  none, some, Result, ok, err, if◌then◌else◌,
}
use hali_client.Daemon.Lan.Observed.{peer_addrs_for}
use hali_client.Daemon.Server.{
  Request, Response, JobStatusData, download_started, job_status_data, job_canceled, success,
  failure, Server, World,
}
use hali_client.Torrent.Engine.{DownloadJob, JobError, Engine, cancel_download, job_status}
use hali_client.Torrent.Engine.Start.{StartError, start_download}
use hali_client.Daemon.Server.Seed.{invalid_dir, stored_identity}

abbrev pub job_status_of : (JobError → Str) → DownloadJob → JobStatusData
job_status_of text job = record {
  job_id = job.id;
  model_id = job.model_id;
  magnet_uri = job.magnet_uri;
  filename = job.filename;
  written = job.written;
  total = job.total;
  rate_bps = job.rate_bps;
  elapsed_sec = job.elapsed_sec;
  eta_seconds = job.eta_seconds;
  peers = job.peers;
  done = job.done;
  error = text job.error;
}

-- The addresses of a download request without blanks
unfoldable pub trimmed_addrs : List Str → List Str
trimmed_addrs [] = []
trimmed_addrs (a ∷ addrs) =
    let rest = trimmed_addrs addrs in if is_empty (trim_space a) then rest else trim_space a ∷ rest

abbrev pub or_addrs : List Str → List Str → List Str
or_addrs [] observed = observed
or_addrs (a ∷ own) observed = a ∷ own

module _ {Bytes : Type 0} (w : World Bytes) where
  abbrev pub download_answer :
      List Str → Result StartError Engine → Server Bytes → Server Bytes × Response
  download_answer addrs (err e) s = (s, failure (w.start_error e))
  download_answer addrs (ok engine) s =
      (record s { engine = engine }, success (download_started w.new_id addrs))

  abbrev pub download_in : Request → Result Str Str → Server Bytes → Server Bytes × Response
  download_in req (err e) s = (s, failure (invalid_dir e))
  download_in req (ok dir) s =
      let addrs =
        or_addrs (trimmed_addrs req.peer_addrs)
          (peer_addrs_for s.lan req.model_id req.infohash w.now) in
      download_answer addrs
        (start_download w.client w.now w.meta_timeout w.new_id dir req.model_id req.infohash
          req.infohash_v2 addrs s.engine)
        s

  unfoldable pub handle_download : Request → Server Bytes → Server Bytes × Response
  unfolding trimmed_addrs peer_addrs_for start_download
  handle_download req s =
      if is_empty req.model_id || is_empty req.infohash || is_empty req.dir
      then (s, failure (codes "download requires model_id, infohash, dir"))
      else download_in req (w.canonical req.dir) s

  -- The answer on a job, and the identity of a job that is done without an error, which is stored in
  -- the directory of the request
  abbrev pub job_answer : Request → Option DownloadJob → Server Bytes → Server Bytes × Response
  job_answer req none s = (s, failure (codes "job not found: " ++ req.job_id))
  job_answer req (some job) s = (
    (if job.done && is_empty (w.job_error job.error)
        then stored_identity w req.dir job.identity s
        else s),
    success (job_status_data (job_status_of w.job_error job)),
  )

  unfoldable pub handle_job_status : Request → Server Bytes → Server Bytes × Response
  unfolding job_status
  handle_job_status req s =
      if is_empty req.job_id
      then (s, failure (codes "job_status requires job_id"))
      else (let r = job_status w.now w.peers req.job_id s.engine in
          job_answer req r.0 (record s { engine = r.1 }))

  abbrev pub cancel_answer : Str → Bool → Response
  cancel_answer id true = success (job_canceled id)
  cancel_answer id false = failure (codes "job not found: " ++ id)

  unfoldable pub handle_cancel_job : Request → Server Bytes → Server Bytes × Response
  unfolding cancel_download
  handle_cancel_job req s =
      if is_empty req.job_id
      then (s, failure (codes "cancel_job requires job_id"))
      else (let r = cancel_download req.job_id s.engine in
          (record s { engine = r.1 }, cancel_answer req.job_id r.0.0))
