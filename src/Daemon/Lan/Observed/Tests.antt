-- ===== src/Daemon/Lan/Observed/Tests.antt =====
-- Tests and witnesses for what the daemon reads from the hints.
use hali_client.Base.{
  take, InOrder, lookup, ok, ◌*◌, ℕ, ◌≤◌, length, All, [], ◌∷◌, ◌≡◌, refl, List, Str, codes, str_eq,
  is_empty, some, trim_space,
}
use hali_client.Base.Int.{pos}
use hali_client.Daemon.Lan.{
  ModelHint, LanIndex, second, prune_older_than, prune_entries, prune_hints, query,
}
use hali_client.Daemon.Lan.Observed.{
  pick_best_by_freshness, pick_loop, pick_step, younger, later, is_older, is_counted, count_loop,
  peer_count_and_last_seen, peer_addrs_from_hints, addrs_loop, add_addr, artifact_key, Readings,
  handle_lan_query, query_data,
}
use hali_client.Daemon.Lan.Observed.Youngest.{IsYoungest, pick_best_by_freshness-IsYoungest}
use hali_client.Daemon.Lan.Summary.{handle_lan_seen, LanSeenEntry}
use hali_client.Daemon.Lan.Summary.Rows.{IsLater, HasRows, HasPeers, handle_lan_seen-rows}

abbrev hint : Str → Str → ℕ → ModelHint
hint node addr seconds = record {
  identity = record { infohash_v1 = codes "aa"; infohash_v2 = [] };
  hf_repo = codes "o/r";
  revision = codes "main";
  pubkey_hash = node;
  peer_addr = addr;
  seen_at = seconds * second;
}

-- One hint is too old at 1,000 seconds, one is stale and two are fresh.
abbrev hints : List ModelHint
hints =
    hint (codes "n1") (codes "10.0.0.1:1") 50
    ∷ hint (codes "n2") (codes " 10.0.0.2:1 ") 300
    ∷ hint (codes "n3") (codes "10.0.0.2:1") 950
    ∷ hint (codes "n3") [] 900
    ∷ []

abbrev moment : ℕ
moment = 1_000 * second

picks_third :
    pick_best_by_freshness hints moment ≡ some (hint (codes "n3") (codes "10.0.0.2:1") 950)
unfolding pick_best_by_freshness pick_loop pick_step younger is_older
picks_third = refl

two_peers : peer_count_and_last_seen hints (codes "aa") moment ≡ (2, some (950 * second))
unfolding count_loop is_counted is_older later str_eq is_empty
two_peers = refl

one_addr : peer_addrs_from_hints hints (codes "aa") moment ≡ codes "10.0.0.2:1" ∷ []
unfolding addrs_loop add_addr is_older str_eq is_empty trim_space
one_addr = refl

key_with_revision : artifact_key (codes "m") (codes " r ") ≡ codes "m@r"
unfolding artifact_key is_empty trim_space
key_with_revision = refl

abbrev index : LanIndex
index = record { entries = (codes "m", hints) ∷ []; self_pubkey_hash = []; rate_limiter = [] }

abbrev readings : Readings
readings = record {
  pruned_at = moment;
  selected_at = moment;
  counted_at = moment;
  listed_at = moment;
}

answers :
    (handle_lan_query index (codes "m") readings).1
    ≡ ok (
        some (record {
          model_id = codes "m";
          revision = codes "main";
          infohash = codes "aa";
          infohash_v2 = [];
          hf_repo = codes "o/r";
          artifact_key = codes "m@main";
          peer_count = 2;
          last_seen = pos 950;
          peer_addrs = codes "10.0.0.2:1" ∷ [];
        }))
unfolding handle_lan_query prune_older_than prune_entries prune_hints query lookup query_data
    pick_best_by_freshness pick_loop pick_step younger is_older count_loop is_counted later
    addrs_loop add_addr artifact_key str_eq is_empty trim_space
answers = refl

pick_best_by_freshness-IsYoungest_example :
    IsYoungest moment hints (pick_best_by_freshness hints moment)
pick_best_by_freshness-IsYoungest_example = pick_best_by_freshness-IsYoungest moment hints

abbrev two_models : LanIndex
two_models = record {
  entries =
      (codes "old", hint (codes "n1") (codes "10.0.0.1:1") 300 ∷ []) ∷ (codes "m", hints) ∷ [];
  self_pubkey_hash = [];
  rate_limiter = [];
}

handle_lan_seen-rows_example :
    (all : List LanSeenEntry) × ((handle_lan_seen two_models moment moment).1 ≡ take 500 all)
    × (length (handle_lan_seen two_models moment moment).1 ≤ 500)
    × InOrder IsLater all
    × All HasPeers all
    × HasRows moment all (handle_lan_seen two_models moment moment).0.entries
handle_lan_seen-rows_example = handle_lan_seen-rows two_models moment moment
