-- ===== src/Daemon/Server/Answers.antt =====
-- What the daemon answers to each request, and that a request it refuses changes nothing.
use hali_client.Base.{
  ℕ, subst, sym, Bool, true, false, not, List, [], ◌++◌, Str, codes, is_empty, Option, Option-cases,
  none, some, Result, ok, err, lookup, ◌≡◌, refl, ◌⊎◌, inl, inr, Bool-cases, if◌then◌else◌,
}
use hali_client.Daemon.Lan.{ModelHint}
use hali_client.Daemon.Lan.Observed.{Readings, answer, handle_lan_query}
use hali_client.Daemon.Server.{
  Cmd, cmd_status, cmd_list, cmd_seed, cmd_seed_from_file, cmd_seed_collection, cmd_seed_status,
  cmd_enqueue_event, cmd_lan_query, cmd_lan_seen, cmd_download, cmd_cancel_job, cmd_job_status,
  cmd_stats, cmd_stop, other_cmd, Request, Response, JobStatusData, Data, no_data, status_data,
  stats_data, seed_started, seed_status_data, lan_query_data, lan_seen_data, download_started,
  job_status_data, job_canceled, event_status, success, failure, Server, World,
}
use hali_client.Daemon.Server.Handle.{
  handle_status, enqueued, with_config, enqueue_event, handle_enqueue_event, lan_answer, dispatch,
  handle,
}
use hali_client.Daemon.Server.Seed.{
  start_seed, start_safe_seed, handle_seed, handle_seed_from_file, handle_seed_collection,
  seed_status_answer, handle_seed_status,
}
use hali_client.Daemon.Server.Job.{
  download_answer, download_in, handle_download, job_answer, handle_job_status, cancel_answer,
  handle_cancel_job, job_status_of,
}
use hali_client.Events.{ModelPullEvent}
use hali_client.Safepath.{is_safe_filename}
use hali_client.Torrent.Engine.{
  DownloadJob, Engine, PeerCounts, Task, refreshed, cancel_download, job_status,
}
use hali_client.Torrent.Engine.Seeds.{SeedJob, seed_job_status}
use hali_client.Torrent.Engine.Start.{StartError}

pub job_status_missing :
    (now : ℕ) (peers : PeerCounts) (id : Str) (e : Engine)
    → lookup id e.jobs ≡ none
    → job_status now peers id e ≡ (none, e)
unfolding job_status
job_status_missing now peers id e h = rw (h, job_status) refl

-- The copy of a job, with the peers of its torrent
abbrev copied : PeerCounts → DownloadJob → DownloadJob
copied peers job = elim job.handle [ none ↦ job | some h ↦ record job { peers = peers } ]

copied-done : (peers : PeerCounts) (job : DownloadJob) → (copied peers job).done ≡ job.done
copied-done peers job = go job.handle
  where
    go :
        (o : Option ℕ)
        → (elim o as (λ _. DownloadJob) [ none ↦ job | some h ↦ record job { peers = peers } ]).done
          ≡ job.done
    go none = refl
    go (some h) = refl

pub job_status_found :
    (now : ℕ) (peers : PeerCounts) (id : Str) (e : Engine) (t : Task)
    → lookup id e.jobs ≡ some t
    → (job : DownloadJob) × ((job_status now peers id e).0 ≡ some job) × (job.done ≡ t.job.done)
unfolding job_status
job_status_found now peers id e t h =
    let job = copied peers (refreshed now t.job) in
    (job, rw (h, job_status) refl, copied-done peers (refreshed now t.job))

job_status-cases :
    (now : ℕ) (peers : PeerCounts) (id : Str) (e : Engine)
    → (job_status now peers id e ≡ (none, e))
      ⊎ ((job : DownloadJob) × ((job_status now peers id e).0 ≡ some job))
job_status-cases now peers id e = elim (Option-cases (lookup id e.jobs)) [
  | inl h ↦ inl (job_status_missing now peers id e h)
  | inr (t, h) ↦ let (job, k, _) = job_status_found now peers id e t h in inr (job, k)
]

cancel_download-cases :
    (id : Str) (e : Engine)
    → (cancel_download id e ≡ ((false, none), e)) ⊎ ((cancel_download id e).0.0 ≡ true)
unfolding cancel_download
cancel_download-cases id e = elim (Option-cases (lookup id e.jobs)) [
  | inl h ↦ inl (rw (h, cancel_download) refl)
  | inr (t, h) ↦ inr (rw (h, cancel_download) refl)
]

-- The data that an answer to a command carries
abbrev pub Fits : Cmd → Data → Type 0
Fits cmd_status (status_data d) = Unit
Fits cmd_seed (seed_started status id) = Unit
Fits cmd_seed_from_file (seed_started status id) = Unit
Fits cmd_seed_collection (seed_started status id) = Unit
Fits cmd_seed_status (seed_status_data d) = Unit
Fits cmd_enqueue_event (event_status status) = Unit
Fits cmd_lan_query (lan_query_data q) = Unit
Fits cmd_lan_query no_data = Unit
Fits cmd_lan_seen (lan_seen_data rows) = Unit
Fits cmd_download (download_started id addrs) = Unit
Fits cmd_cancel_job (job_canceled id) = Unit
Fits cmd_job_status (job_status_data d) = Unit
Fits cmd_stats (stats_data d) = Unit
Fits cmd_stop no_data = Unit
Fits _ _ = ⊥

module _ {Bytes : Type 0} (w : World Bytes) (s : Server Bytes) where
  -- An answer with the command's data and no error, or a refusal without data that leaves the daemon
  -- as it was
  abbrev pub IsAnswer : Cmd → Server Bytes × Response → Type 0
  IsAnswer c (t, r) =
      ((r.is_ok ≡ true) × (r.error ≡ []) × Fits c r.payload)
      ⊎ ((t ≡ s) × (r.is_ok ≡ false) × (r.payload ≡ no_data))

  refused : (c : Cmd) (e : Str) → IsAnswer c (s, failure e)
  refused c e = inr (refl, refl, refl)

  answers : (c : Cmd) (t : Server Bytes) (d : Data) → Fits c d → IsAnswer c (t, success d)
  answers c t d f = inl (refl, refl, f)

  -- A handler that first tests the request
  tested :
      (c : Cmd) (b : Bool) (e : Str) (a : Server Bytes × Response)
      → IsAnswer c a
      → IsAnswer c (if b then (s, failure e) else a)
  tested c true e a h = refused c e
  tested c false e a h = h

  module _ (c : Cmd) (status : Str) (req : Request)
      (f : Fits c (seed_started status w.new_id)) where
    start_seed-IsAnswer : (r : Result Str Str) → IsAnswer c (start_seed w status req r s)
    start_seed-IsAnswer (err e) = inr (refl, refl, refl)
    start_seed-IsAnswer (ok dir) = inl (refl, refl, f)

  start_safe_seed-IsAnswer :
      (req : Request) (r : Result Str Str) → IsAnswer cmd_seed (start_safe_seed w req r s)
  start_safe_seed-IsAnswer req (err e) = inr (refl, refl, refl)
  start_safe_seed-IsAnswer req (ok dir) =
      tested cmd_seed (not (is_safe_filename w.valid_utf8 req.filename)) _ _
        (start_seed-IsAnswer cmd_seed _ req tt (ok dir))

  seed_status-IsAnswer :
      (req : Request) (o : Option SeedJob) → IsAnswer cmd_seed_status (seed_status_answer w req o s)
  seed_status-IsAnswer req none = inr (refl, refl, refl)
  seed_status-IsAnswer req (some job) = inl (refl, refl, tt)

  enqueued-IsAnswer :
      (event : ModelPullEvent) (r : Result Str Str)
      → IsAnswer cmd_enqueue_event (enqueued w event r s)
  enqueued-IsAnswer event (err e) = inr (refl, refl, refl)
  enqueued-IsAnswer event (ok path) = inl (refl, refl, tt)

  with_config-IsAnswer :
      (req : Request) (event : ModelPullEvent) (r : Result Str Bool)
      → IsAnswer cmd_enqueue_event (with_config w req event r s)
  with_config-IsAnswer req event (err e) = inr (refl, refl, refl)
  with_config-IsAnswer req event (ok false) = inl (refl, refl, tt)
  with_config-IsAnswer req event (ok true) = enqueued-IsAnswer event w.queue_path

  enqueue_event-IsAnswer :
      (req : Request) (o : Option ModelPullEvent)
      → IsAnswer cmd_enqueue_event (enqueue_event w req o s)
  enqueue_event-IsAnswer req none = inr (refl, refl, refl)
  enqueue_event-IsAnswer req (some event) =
      tested cmd_enqueue_event (not w.has_worker) _ _ (with_config-IsAnswer req event w.telemetry)

  download_answer-IsAnswer :
      (addrs : List Str) (r : Result StartError Engine)
      → IsAnswer cmd_download (download_answer w addrs r s)
  download_answer-IsAnswer addrs (err e) = inr (refl, refl, refl)
  download_answer-IsAnswer addrs (ok engine) = inl (refl, refl, tt)

  download_in-IsAnswer :
      (req : Request) (r : Result Str Str) → IsAnswer cmd_download (download_in w req r s)
  download_in-IsAnswer req (err e) = inr (refl, refl, refl)
  download_in-IsAnswer req (ok dir) = download_answer-IsAnswer _ _

  lan_found-IsAnswer :
      (t : Server Bytes) (id : Str) (hs : List ModelHint) (r : Readings) (best : Option ModelHint)
      → IsAnswer cmd_lan_query (t, lan_answer w (ok (answer id hs r best)))
  lan_found-IsAnswer t id hs r none = inl (refl, refl, tt)
  lan_found-IsAnswer t id hs r (some best) = inl (refl, refl, tt)

  lan_query-IsAnswer : (req : Request) → IsAnswer cmd_lan_query (dispatch w cmd_lan_query req s)
  unfolding dispatch handle_lan_query
  lan_query-IsAnswer req = elim (Bool-cases (is_empty req.model_id)) [
    | inl h ↦ rw h (inr (refl, refl, refl))
    | inr h ↦ rw h (lan_found-IsAnswer _ req.model_id _ w.readings _)
  ]

  job_answer-IsAnswer :
      (req : Request) (r : Option DownloadJob × Engine)
      → (r ≡ (none, s.engine)) ⊎ ((job : DownloadJob) × (r.0 ≡ some job))
      → IsAnswer cmd_job_status (job_answer w req r.0 (record s { engine = r.1 }))
  job_answer-IsAnswer req r (inl e) =
      subst (λ q. IsAnswer cmd_job_status (job_answer w req q.0 (record s { engine = q.1 })))
        (sym e) (inr (refl, refl, refl))
  job_answer-IsAnswer req r (inr (job, e)) =
      subst (λ o. IsAnswer cmd_job_status (job_answer w req o (record s { engine = r.1 }))) (sym e)
        (inl (refl, refl, tt))

  job_status-IsAnswer : (req : Request) → IsAnswer cmd_job_status (handle_job_status w req s)
  unfolding handle_job_status
  job_status-IsAnswer req = tested cmd_job_status (is_empty req.job_id) _ _ (
      job_answer-IsAnswer req (job_status w.now w.peers req.job_id s.engine)
        (job_status-cases w.now w.peers req.job_id s.engine))

  cancel_answer-IsAnswer :
      (req : Request) (r : (Bool × Option ℕ) × Engine)
      → (r ≡ ((false, none), s.engine)) ⊎ (r.0.0 ≡ true)
      → IsAnswer cmd_cancel_job (record s { engine = r.1 }, cancel_answer w req.job_id r.0.0)
  cancel_answer-IsAnswer req r (inl e) =
      subst
        (λ q. IsAnswer cmd_cancel_job (record s { engine = q.1 }, cancel_answer w req.job_id q.0.0))
        (sym e) (inr (refl, refl, refl))
  cancel_answer-IsAnswer req r (inr e) =
      subst (λ b. IsAnswer cmd_cancel_job (record s { engine = r.1 }, cancel_answer w req.job_id b))
        (sym e) (inl (refl, refl, tt))

  cancel_job-IsAnswer : (req : Request) → IsAnswer cmd_cancel_job (handle_cancel_job w req s)
  unfolding handle_cancel_job
  cancel_job-IsAnswer req = tested cmd_cancel_job (is_empty req.job_id) _ _ (
      cancel_answer-IsAnswer req (cancel_download req.job_id s.engine)
        (cancel_download-cases req.job_id s.engine))

  dispatch-IsAnswer : (c : Cmd) (req : Request) → IsAnswer c (dispatch w c req s)
  unfolding dispatch handle_status handle_seed handle_seed_from_file handle_seed_collection
      handle_seed_status handle_enqueue_event handle_download
  dispatch-IsAnswer cmd_status req = inl (refl, refl, tt)
  dispatch-IsAnswer cmd_list req = inr (refl, refl, refl)
  dispatch-IsAnswer cmd_seed req =
      tested cmd_seed _ _ _ (start_safe_seed-IsAnswer req (w.canonical req.dir))
  dispatch-IsAnswer cmd_seed_from_file req =
      tested cmd_seed_from_file _ _ _
        (start_seed-IsAnswer cmd_seed_from_file _ req tt (w.canonical req.dir))
  dispatch-IsAnswer cmd_seed_collection req =
      tested cmd_seed_collection _ _ _
        (start_seed-IsAnswer cmd_seed_collection _ req tt (w.canonical req.dir))
  dispatch-IsAnswer cmd_seed_status req =
      tested cmd_seed_status _ _ _ (seed_status-IsAnswer req (seed_job_status req.job_id s.seeds))
  dispatch-IsAnswer cmd_enqueue_event req = enqueue_event-IsAnswer req req.event
  dispatch-IsAnswer cmd_lan_query req = lan_query-IsAnswer req
  dispatch-IsAnswer cmd_lan_seen req = inl (refl, refl, tt)
  dispatch-IsAnswer cmd_download req =
      tested cmd_download _ _ _ (download_in-IsAnswer req (w.canonical req.dir))
  dispatch-IsAnswer cmd_cancel_job req = cancel_job-IsAnswer req
  dispatch-IsAnswer cmd_job_status req = job_status-IsAnswer req
  dispatch-IsAnswer cmd_stats req = inl (refl, refl, tt)
  dispatch-IsAnswer cmd_stop req = inl (refl, refl, tt)
  dispatch-IsAnswer (other_cmd name) req = inr (refl, refl, refl)

-- The daemon answers each request either with data of the command's kind and no error, or it refuses
-- it without data, and then its jobs, its index, its store, its queue and its log are as before.
pub handle-IsAnswer :
    {Bytes : Type 0} (w : World Bytes) (s : Server Bytes) (req : Request)
    → IsAnswer w s req.cmd (handle w req s)
unfolding handle
handle-IsAnswer w s req = dispatch-IsAnswer w s req.cmd req

-- The request of FinishDownloadJob for a job, with the directory of its model
abbrev pub asks : Cmd → Str → Str → Request
asks cmd id dir = record {
  cmd = cmd;
  model_id = [];
  dir = dir;
  filename = [];
  infohash = [];
  infohash_v2 = [];
  peer_addrs = [];
  job_id = id;
  allow_unreachable_publish = false;
  event = none;
}

module _ {Bytes : Type 0} (w : World Bytes) (s : Server Bytes) (id dir : Str)
    (named : is_empty id ≡ false) where
  -- The status of a job that is in the table
  pub handle_known_job :
      (t : Task)
      → lookup id s.engine.jobs ≡ some t
      → (js : JobStatusData) × ((handle w (asks cmd_job_status id dir) s).1.payload
          ≡ job_status_data js)
        × (js.done ≡ t.job.done)
  unfolding handle dispatch handle_job_status
  handle_known_job t h =
      let (job, e, d) = job_status_found w.now w.peers id s.engine t h in
      (job_status_of w.job_error job, rw named (rw e refl), d)

  pub handle_unknown_job :
      lookup id s.engine.jobs ≡ none
      → (handle w (asks cmd_job_status id dir) s).1 ≡ failure (codes "job not found: " ++ id)
  unfolding handle dispatch handle_job_status
  handle_unknown_job h = rw named (rw (job_status_missing w.now w.peers id s.engine h) refl)
