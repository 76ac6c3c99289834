-- ===== src/Daemon/Server/Tests.antt =====
-- Tests and witnesses for the daemon's handlers.
use hali_client.Base.{
  ◌*◌, true, false, [], Str, codes, some, lookup, insert, Result, ok, ◌≡◌, refl, replicate,
  is_empty, str_eq,
}
use hali_client.Base.Int.{pos}
use hali_client.Cache.{Metadata, no_faults}
use hali_client.Cache.Tests.{plain}
use hali_client.Daemon.Activity.{empty_buffer}
use hali_client.Daemon.Lan.{new_lan_index}
use hali_client.Daemon.Server.{
  Server, World, cmd_job_status, cmd_cancel_job, cmd_seed, success, failure, job_canceled,
}
use hali_client.Daemon.Server.Answers.{IsAnswer, asks, handle-IsAnswer}
use hali_client.Daemon.Server.Handle.{handle, dispatch}
use hali_client.Daemon.Server.Seed.{handle_seed}
use hali_client.Daemon.Server.Job.{handle_cancel_job}
use hali_client.Torrent.Engine.{
  JobError, no_error, canceled_by_user, no_peers, second, cancel_download,
}
use hali_client.Torrent.Engine.Start.{StartError, new_job, add_job}
use hali_client.Torrent.Engine.Steps.{empty_engine}

abbrev pub start_text : StartError → Str
start_text e = codes "cannot start"

abbrev pub job_text : JobError → Str
job_text no_error = []
job_text canceled_by_user = codes "canceled by user"
job_text e = codes "failed"

abbrev pub inside_root : Str → Result Str Str
inside_root dir = ok dir

abbrev pub sample_world : World Metadata
sample_world = record {
  codec = plain;
  faults = no_faults;
  canonical = inside_root;
  valid_utf8 = λ name. true;
  new_id = codes "j2";
  telemetry = ok true;
  has_worker = true;
  queue_path = ok (codes "q1.json");
  client = record {
    from_hex = λ s. some (replicate 20 0);
    mkdir_all = λ dir. true;
    escape = λ s. s;
    parses_magnet = λ uri. true;
    add_torrent = λ uri peers. some 8;
  };
  meta_timeout = 60 * second;
  start_error = start_text;
  job_error = job_text;
  now = 5 * second;
  readings = record {
    pruned_at = 5 * second;
    selected_at = 5 * second;
    counted_at = 5 * second;
    listed_at = 5 * second;
  };
  summarized_at = 5 * second;
  peers = no_peers;
  active_peers = λ t. 1;
  managed = false;
  stats = record {
    totals = record { down = pos 0; up = pos 0; active_dls = 0; active_seeds = 0 };
    down_speed = pos 0;
    up_speed = pos 0;
    models = [];
    samples = [];
  };
}

-- A daemon with one download job
abbrev pub sample_server : Server Metadata
sample_server = record {
  engine =
      add_job 0 60
        (new_job 0 (codes "j1") (codes "m") (record { infohash_v1 = codes "aa"; infohash_v2 = [] })
          [] 7)
        (empty_engine (pos 2));
  seeds = record { cells = []; entries = []; seed_jobs = [] };
  lan = new_lan_index (codes "me");
  disk = [];
  queue = [];
  activity = empty_buffer;
  published = [];
  stopping = false;
}

-- The daemon behind the cancellation of its job
abbrev pub canceled_server : Server Metadata
canceled_server = (handle sample_world (asks cmd_cancel_job (codes "j1") []) sample_server).0

unknown_job :
    (handle sample_world (asks cmd_cancel_job (codes "j7") []) sample_server).1
    ≡ failure (codes "job not found: j7")
unfolding handle dispatch handle_cancel_job cancel_download lookup str_eq is_empty add_job insert
unknown_job = refl

canceled :
    (handle sample_world (asks cmd_cancel_job (codes "j1") []) sample_server).1
    ≡ success (job_canceled (codes "j1"))
unfolding handle dispatch handle_cancel_job cancel_download lookup str_eq is_empty add_job insert
canceled = refl

seed_without_file :
    (handle sample_world (asks cmd_seed [] (codes "/d")) sample_server).1
    ≡ failure (codes "seed requires dir, filename, model_id")
unfolding handle dispatch handle_seed is_empty
seed_without_file = refl

handle-IsAnswer_example :
    IsAnswer sample_world sample_server cmd_job_status
      (handle sample_world (asks cmd_job_status (codes "j1") []) sample_server)
handle-IsAnswer_example =
    handle-IsAnswer sample_world sample_server (asks cmd_job_status (codes "j1") [])
