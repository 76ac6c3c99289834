-- ===== src/Pull/Poll/Tests.antt =====
-- Tests and witnesses for the loops that poll the daemon.
use hali_client.Torrent.Engine.Start.{add_job, new_job}
use hali_client.Base.{
  ℕ, suc, ◌≤◌, Bool, true, false, [], Str, codes, Option, none, some, lookup, insert, ok, err, ◌≡◌,
  refl, arith, is_empty,
}
use hali_client.Base.Int.{pos}
use hali_client.Cache.{Metadata, no_faults}
use hali_client.Cache.Tests.{plain}
use hali_client.Daemon.Lan.Observed.{LanQueryData}
use hali_client.Daemon.Server.{
  Data, no_data, job_status_data, seed_status_data, lan_query_data, seed_started, download_started,
  JobStatusData, SeedStatusData, cmd_job_status, success, failure,
}
use hali_client.Daemon.Server.Answers.{asks}
use hali_client.Daemon.Server.Tests.{sample_world, sample_server, canceled_server}
use hali_client.Daemon.Server.Handle.{handle}
use hali_client.Torrent.Engine.{Task, fail, canceled_by_user, polling}
use hali_client.Pull.Poll.{
  Tick, Json, Wanted, Finish, finish_download_job, zero_job_status, poll_seed_job,
  start_seed_job_and_wait, SeedError,
}
use hali_client.Pull.Poll.Daemon.{rounds, finish_download_job_done, finish_download_job_unknown}
use hali_client.Pull.Poll.Ends.{AnswersDone, finish_download_job-Finished}

abbrev pub decode_job : Data → Option JobStatusData
decode_job (job_status_data js) = some js
decode_job no_data = some zero_job_status
decode_job d = none

abbrev decode_seed : Data → Option SeedStatusData
decode_seed (seed_status_data sd) = some sd
decode_seed d = none

abbrev pub decode_query : Data → Option LanQueryData
decode_query (lan_query_data q) = some q
decode_query d = none

abbrev decode_id : Data → Option Str
decode_id (seed_started status id) = some id
decode_id (download_started id addrs) = some id
decode_id d = some []

abbrev pub sample_json : Json
sample_json = record {
  job_status = decode_job;
  seed_status = decode_seed;
  lan_query = decode_query;
  job_id = decode_id;
}

abbrev pub sample_wanted : Wanted Metadata
sample_wanted = record {
  json = sample_json;
  codec = plain;
  root = codes "/models";
  is_under_root = λ path. true;
  faults = no_faults;
  now = codes "t";
  hash_file = λ path. ok (codes "h");
  daemon_runs = true;
  id = record {
    base = codes "m";
    size = codes "7b";
    variant = codes "chat";
    quant = codes "q8_0";
    format = codes "gguf";
    revision = codes "main";
  };
  model_dir = codes "/models/m";
  hf_repo = codes "o/r";
  hf_revision = codes "main";
  infohash = codes "aa";
  infohash_v2 = [];
}

abbrev status : Bool → JobStatusData
status done = record zero_job_status { done = done; filename = codes "m.gguf"; total = pos 10 }

-- The job is done in the third round.
abbrev third : ℕ → Tick
third (suc (suc k)) = record {
  ended = false;
  answer = ok (success (job_status_data (status true)));
}
third k = record { ended = false; answer = ok (success (job_status_data (status false))) }

abbrev end_of_third : Finish Metadata
end_of_third = elim (finish_download_job sample_wanted third 5 []) [
  | some f ↦ f
  | none ↦ record { result = ok []; disk = []; cancel_sent = false; ingested = none }
]

still_polls : finish_download_job sample_wanted third 2 [] ≡ none
unfolding finish_download_job
still_polls = refl

finishes : finish_download_job sample_wanted third 5 [] ≡ some end_of_third
unfolding finish_download_job
finishes = refl

hash_of_third : end_of_third.result ≡ ok (codes "h")
unfolding finish_download_job
hash_of_third = refl

-- A seed job that the daemon does not know is noticed, unlike a download job.
unknown_seed :
    poll_seed_job sample_json
      (λ k. record { ended = false; answer = ok (failure (codes "seed job not found: j")) })
      1
    ≡ some (err (SeedError.seed_failed (codes "seed job not found: j")))
unfolding poll_seed_job
unknown_seed = refl

no_daemon :
    start_seed_job_and_wait sample_json false (codes "seed") (err []) third 1
    ≡ some (err SeedError.not_running)
unfolding start_seed_job_and_wait
no_daemon = refl

finish_download_job-Finished_example :
    (k : ℕ) × AnswersDone sample_wanted [] end_of_third (codes "h") (third k).answer
finish_download_job-Finished_example =
    finish_download_job-Finished sample_wanted third 5 [] end_of_third (codes "h") finishes
      hash_of_third

abbrev canceled_task : Task
canceled_task = record {
  job = fail canceled_by_user (
      new_job 0 (codes "j1") (codes "m") (record { infohash_v1 = codes "aa"; infohash_v2 = [] }) []
        7);
  phase = polling 60 180;
}

finish_download_job_done_example :
    (f : Finish Metadata) × (m : ℕ) × (m ≤ 3)
    × (finish_download_job sample_wanted
          (rounds
            (λ k. sample_world)
            (λ k. canceled_server)
            (λ k. false)
            (asks cmd_job_status (codes "j1") (codes "/models/m")))
          4
          []
        ≡ some f)
unfolding is_empty lookup handle add_job insert
finish_download_job_done_example =
    finish_download_job_done (λ k. sample_world) (λ k. canceled_server) (λ k. false) sample_wanted
      (codes "j1") (codes "/models/m") 4 3 canceled_task [] (λ js. refl) refl refl refl
      (omega arith)

finish_download_job_unknown_example :
    finish_download_job sample_wanted
      (rounds
        (λ k. sample_world)
        (λ k. sample_server)
        (λ k. false)
        (asks cmd_job_status (codes "j7") (codes "/models/m")))
      100
      []
    ≡ none
unfolding is_empty lookup add_job insert
finish_download_job_unknown_example =
    finish_download_job_unknown (λ k. sample_world) (λ k. sample_server) (λ k. false) sample_wanted
      (codes "j7") (codes "/models/m") 100 [] refl refl (λ k. refl) (λ k. refl)
