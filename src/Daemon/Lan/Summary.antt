-- ===== src/Daemon/Lan/Summary.antt =====
-- internal/daemon/server.go: the summaries of the LAN index, and handleLanSeen. Go visits the models
-- in any order, and the sorts below leave the same rows in each.
pub mod Rows
use hali_client.Base.{
  ℕ, ◌-◌, Bool, true, false, List, [], ◌∷◌, Str, str_eq, str_lt, sort, take, ◌==◌, if◌then◌else◌,
  Option, none, some, Dict,
}
use hali_client.Base.Int.{ℤ, ltb_ℤ, eqb_ℤ}
use hali_client.Daemon.Lan.{LanIndex, ModelHint, prune_older_than}
use hali_client.Daemon.Lan.Observed.{
  lan_observed_hard_ttl, pick_best_by_freshness, peer_count_and_last_seen, peer_addrs_from_hints,
  artifact_key, unix_seconds,
}

abbrev pub max_lan_seen_rows : ℕ
max_lan_seen_rows = 500

pub record LanEntry : Type 0 where
  pub model_id : Str
  pub infohash : Str
  pub infohash_v2 : Str
  pub peers : ℕ

pub record LanSeenEntry : Type 0 where
  pub model_id : Str
  pub hf_repo : Str
  pub revision : Str
  pub infohash : Str
  pub infohash_v2 : Str
  pub artifact_key : Str
  pub peer_count : ℕ
  pub last_seen : ℤ
  pub peer_addrs : List Str

-- The row of one model, if it has one
abbrev pub lan_entry : Str → List ModelHint → ℕ → Option ModelHint → Option LanEntry
lan_entry id hs now none = none
lan_entry id hs now (some best) =
    let seen = peer_count_and_last_seen hs best.identity.infohash_v1 now in
    if seen.0 == 0
    then none
    else some (record {
      model_id = id;
      infohash = best.identity.infohash_v1;
      infohash_v2 = best.identity.infohash_v2;
      peers = seen.0;
    })

abbrev pub lan_seen_entry : Str → List ModelHint → ℕ → Option ModelHint → Option LanSeenEntry
lan_seen_entry id hs now none = none
lan_seen_entry id hs now (some best) =
    let seen = peer_count_and_last_seen hs best.identity.infohash_v1 now in
    if seen.0 == 0
    then none
    else some (record {
      model_id = id;
      hf_repo = best.hf_repo;
      revision = best.revision;
      infohash = best.identity.infohash_v1;
      infohash_v2 = best.identity.infohash_v2;
      artifact_key = artifact_key id best.revision;
      peer_count = seen.0;
      last_seen = unix_seconds seen.1;
      peer_addrs = peer_addrs_from_hints hs best.identity.infohash_v1 now;
    })

abbrev pub add_row {ℓ} : {A : Type ℓ} → Option A → List A → List A
add_row none rows = rows
add_row (some a) rows = a ∷ rows

unfoldable pub lan_entries : Dict (List ModelHint) → ℕ → List LanEntry
unfolding pick_best_by_freshness
lan_entries [] now = []
lan_entries ((id, hs) ∷ snap) now =
    add_row (lan_entry id hs now (pick_best_by_freshness hs now)) (lan_entries snap now)

unfoldable pub lan_seen_entries : Dict (List ModelHint) → ℕ → List LanSeenEntry
unfolding pick_best_by_freshness
lan_seen_entries [] now = []
lan_seen_entries ((id, hs) ∷ snap) now =
    add_row (lan_seen_entry id hs now (pick_best_by_freshness hs now)) (lan_seen_entries snap now)

abbrev pub entry_less : LanEntry → LanEntry → Bool
entry_less a b = str_lt a.model_id b.model_id

-- The latest first, and those of one time by their names
abbrev pub seen_less : LanSeenEntry → LanSeenEntry → Bool
seen_less a b =
    if eqb_ℤ a.last_seen b.last_seen
    then str_lt a.model_id b.model_id
    else ltb_ℤ b.last_seen a.last_seen

-- summarizeLANEntries
unfoldable pub summarize_lan_entries : Dict (List ModelHint) → ℕ → List LanEntry
unfolding lan_entries sort
summarize_lan_entries snap now = sort entry_less (lan_entries snap now)

-- summarizeLANSeen
unfoldable pub summarize_lan_seen : Dict (List ModelHint) → ℕ → List LanSeenEntry
unfolding lan_seen_entries sort
summarize_lan_seen snap now = sort seen_less (lan_seen_entries snap now)

-- handleLanSeen, with its two readings of the clock
unfoldable pub handle_lan_seen : LanIndex → ℕ → ℕ → LanIndex × List LanSeenEntry
unfolding prune_older_than summarize_lan_seen
handle_lan_seen idx pruned_at summarized_at =
    let pruned = (prune_older_than idx (pruned_at - lan_observed_hard_ttl)).0 in
    (pruned, take max_lan_seen_rows (summarize_lan_seen pruned.entries summarized_at))
