-- ===== src/Daemon/Server/Handle.antt =====
-- internal/daemon/server.go: the dispatch of requests, with the handlers of the status, of events and
-- of the LAN.
use hali_client.Base.{
  ℕ, ◌-◌, Bool, true, false, not, ◌&&◌, List, [], ◌∷◌, ◌++◌, Str, codes, Option, none, some, Dict,
  insert, Result, ok, err, if◌then◌else◌,
}
use hali_client.Daemon.Activity.{append, no_event}
use hali_client.Daemon.Lan.{prune_older_than}
use hali_client.Daemon.Lan.Observed.{LanQueryData, lan_observed_hard_ttl, handle_lan_query}
use hali_client.Daemon.Lan.Summary.{summarize_lan_entries, handle_lan_seen}
use hali_client.Daemon.Server.{
  Cmd, cmd_status, cmd_list, cmd_seed, cmd_seed_from_file, cmd_seed_collection, cmd_seed_status,
  cmd_enqueue_event, cmd_lan_query, cmd_lan_seen, cmd_download, cmd_cancel_job, cmd_job_status,
  cmd_stats, cmd_stop, other_cmd, Request, Response, SeedInfo, no_data, status_data, stats_data,
  lan_query_data, lan_seen_data, event_status, success, failure, Server, World,
}
use hali_client.Events.{ModelPullEvent}
use hali_client.Torrent.Engine.{TorrentEntry}
use hali_client.Torrent.Engine.Seeds.{Seeds, entry_at}
use hali_client.Daemon.Server.Seed.{
  handle_seed, handle_seed_from_file, handle_seed_collection, handle_seed_status,
}
use hali_client.Daemon.Server.Job.{handle_download, handle_job_status, handle_cancel_job}

-- The number in the text of Peers, for an entry with a torrent
abbrev pub peers_of : (ℕ → ℕ) → Option ℕ → Option ℕ
peers_of active none = none
peers_of active (some t) = some (active t)

abbrev pub seed_info : (ℕ → ℕ) → TorrentEntry → SeedInfo
seed_info active e = record {
  model_id = e.model_id;
  infohash = e.identity.infohash_v1;
  infohash_v2 = e.identity.infohash_v2;
  magnet_uri = e.magnet_uri;
  status = e.status;
  peers = peers_of active e.handle;
}

-- Entries of the engine, as the rows of the status
unfoldable pub seed_infos : (ℕ → ℕ) → Seeds → Dict ℕ → List SeedInfo
seed_infos active s [] = []
seed_infos active s ((id, p) ∷ d) = seed_info active (entry_at p s) ∷ seed_infos active s d

module _ {Bytes : Type 0} (w : World Bytes) where
  unfoldable pub handle_status : Server Bytes → Server Bytes × Response
  unfolding seed_infos prune_older_than summarize_lan_entries
  handle_status s =
      let pruned = (prune_older_than s.lan (w.readings.pruned_at - lan_observed_hard_ttl)).0 in
      (
        record s { lan = pruned },
        success (
            status_data (record {
              seeding = seed_infos w.active_peers s.seeds s.seeds.entries;
              lan = summarize_lan_entries pruned.entries w.summarized_at;
              managed = w.managed;
            })),
      )

  abbrev pub enqueued : ModelPullEvent → Result Str Str → Server Bytes → Server Bytes × Response
  enqueued event (err e) s = (s, failure e)
  enqueued event (ok path) s = (
    record s {
      queue = insert path event s.queue;
      activity =
          append s.activity
            (record no_event {
              kind = codes "telemetry.enqueue";
              message = codes "queued model pull event";
              model_id = event.model_id;
            })
            w.now;
    },
    success (event_status (codes "queued")),
  )

  -- PublishRequiresConfirmation is constantly false.
  abbrev pub requires_confirmation : Bool
  requires_confirmation = false

  abbrev pub with_config :
      Request → ModelPullEvent → Result Str Bool → Server Bytes → Server Bytes × Response
  with_config req event (err e) s = (s, failure (codes "load config: " ++ e))
  with_config req event (ok false) s = (s, success (event_status (codes "disabled")))
  with_config req event (ok true) s =
      if requires_confirmation && not req.allow_unreachable_publish
      then (
        s,
        failure (
            codes
              "publishing requires internet reachability in current context; set --allow-unreachable-publish to override"),
      )
      else enqueued event w.queue_path s

  abbrev pub enqueue_event :
      Request → Option ModelPullEvent → Server Bytes → Server Bytes × Response
  enqueue_event req none s = (s, failure (codes "enqueue_event requires event"))
  enqueue_event req (some event) s =
      if not w.has_worker
      then (s, failure (codes "event worker not initialized"))
      else with_config req event w.telemetry s

  unfoldable pub handle_enqueue_event : Request → Server Bytes → Server Bytes × Response
  handle_enqueue_event req s = enqueue_event req req.event s

  abbrev pub lan_answer : Result Str (Option LanQueryData) → Response
  lan_answer (err e) = failure e
  lan_answer (ok none) = success no_data
  lan_answer (ok (some q)) = success (lan_query_data q)

  -- handle: the dispatch
  unfoldable pub dispatch : Cmd → Request → Server Bytes → Server Bytes × Response
  unfolding handle_status handle_seed handle_seed_from_file handle_seed_collection
      handle_seed_status handle_enqueue_event handle_lan_query handle_lan_seen handle_download
      handle_job_status handle_cancel_job
  dispatch cmd_status req s = handle_status s
  dispatch cmd_list req s =
      (s, failure (codes "list is not served by daemon IPC; use local cache list"))
  dispatch cmd_seed req s = handle_seed w req s
  dispatch cmd_seed_from_file req s = handle_seed_from_file w req s
  dispatch cmd_seed_collection req s = handle_seed_collection w req s
  dispatch cmd_seed_status req s = handle_seed_status w req s
  dispatch cmd_enqueue_event req s = handle_enqueue_event req s
  dispatch cmd_lan_query req s =
      let r = handle_lan_query s.lan req.model_id w.readings in
      (record s { lan = r.0 }, lan_answer r.1)
  dispatch cmd_lan_seen req s =
      let r = handle_lan_seen s.lan w.readings.pruned_at w.summarized_at in
      (record s { lan = r.0 }, success (lan_seen_data r.1))
  dispatch cmd_download req s = handle_download w req s
  dispatch cmd_cancel_job req s = handle_cancel_job w req s
  dispatch cmd_job_status req s = handle_job_status w req s
  dispatch cmd_stats req s = (s, success (stats_data w.stats))
  dispatch cmd_stop req s = (record s { stopping = true }, success no_data)
  dispatch (other_cmd name) req s = (s, failure (codes "unknown command: " ++ name))

  unfoldable pub handle : Request → Server Bytes → Server Bytes × Response
  unfolding dispatch
  handle req s = dispatch req.cmd req s
