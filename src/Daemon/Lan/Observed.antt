-- ===== src/Daemon/Lan/Observed.antt =====
-- internal/daemon/server.go: what the daemon reads from the hints of a model: the hint that it
-- picks, the number of peers and their addresses. Two ages at one time compare as the times of the
-- hints do, the other way round.
pub mod Youngest
mod Tests
use hali_client.Base.{
  ℕ, ◌+◌, ◌-◌, ◌/◌, ◌-◌, ◌*◌, ◌≤◌, Bool, true, false, ◌&&◌, ◌||◌, not, List, [], ◌∷◌, ◌++◌, Str,
  codes, length, str_eq, is_empty, trim_space, Option, Result, ok, err, none, some, ltb,
  if◌then◌else◌, ◌≡◌, refl, ◌⊎◌, inl, inr, arith, All, Bool-cases,
}
use hali_client.Base.Int.{ℤ, pos, negsuc}
use hali_client.Daemon.Lan.{prune_older_than, ModelHint, LanIndex, second, query}

abbrev pub lan_observed_soft_ttl : ℕ
lan_observed_soft_ttl = 2 * (60 * second)

abbrev pub lan_observed_hard_ttl : ℕ
lan_observed_hard_ttl = 15 * (60 * second)

-- now.Sub(h.SeenAt) > ttl
unfoldable pub is_older : ℕ → ℕ → ModelHint → Bool
is_older ttl now h = ltb (h.seen_at + ttl) now

-- best == nil || age < bestAge
unfoldable pub younger : ModelHint → Option ModelHint → Option ModelHint
younger h none = some h
younger h (some b) = if ltb b.seen_at h.seen_at then some h else some b

-- The youngest fresh hint and the youngest stale one so far
pub record Picks : Type 0 where
  pub fresh : Option ModelHint
  pub stale : Option ModelHint

abbrev pub no_picks : Picks
no_picks = record { fresh = none; stale = none }

unfoldable pub pick_step : ℕ → ModelHint → Picks → Picks
pick_step now h p =
    if is_older lan_observed_hard_ttl now h
    then p
    else if not (is_older lan_observed_soft_ttl now h)
    then record p { fresh = younger h p.fresh }
    else record p { stale = younger h p.stale }

unfoldable pub pick_loop : ℕ → List ModelHint → Picks → Picks
pick_loop now [] p = p
pick_loop now (h ∷ hs) p = pick_loop now hs (pick_step now h p)

abbrev pub or_stale : Option ModelHint → Option ModelHint → Option ModelHint
or_stale none stale = stale
or_stale (some h) stale = some h

unfoldable pub pick_best_by_freshness : List ModelHint → ℕ → Option ModelHint
pick_best_by_freshness hs now = let p = pick_loop now hs no_picks in or_stale p.fresh p.stale

abbrev pub is_seen : Str → List Str → Bool
is_seen x [] = false
is_seen x (y ∷ ys) = str_eq x y || is_seen x ys

-- seenNodes[x] = struct{}{}
abbrev pub mark_seen : Str → List Str → List Str
mark_seen x ys = if is_seen x ys then ys else ys ++ (x ∷ [])

-- The zero time is none, and every other time is after it.
unfoldable pub later : ℕ → Option ℕ → Option ℕ
later t none = some t
later t (some s) = if ltb s t then some t else some s

-- Whether the hint counts for the torrent: its infohash matches, its node is named, and it is not
-- older than the hard limit.
unfoldable pub is_counted : Str → ℕ → ModelHint → Bool
is_counted infohash now h =
    str_eq h.identity.infohash_v1 infohash
    && (not (is_empty h.pubkey_hash) && not (is_older lan_observed_hard_ttl now h))

unfoldable pub count_loop : Str → ℕ → List ModelHint → List Str → Option ℕ → ℕ × Option ℕ
count_loop infohash now [] nodes last = (length nodes, last)
count_loop infohash now (h ∷ hs) nodes last =
    let c = is_counted infohash now h in
    count_loop infohash now hs (if c then mark_seen h.pubkey_hash nodes else nodes)
      (if c then later h.seen_at last else last)

abbrev pub peer_count_and_last_seen : List ModelHint → Str → ℕ → ℕ × Option ℕ
peer_count_and_last_seen hs infohash now = count_loop infohash now hs [] none

-- The addresses so far are the keys of the map seen, too.
unfoldable pub add_addr : Str → ℕ → ModelHint → List Str → List Str
add_addr infohash now h out =
    if not (str_eq h.identity.infohash_v1 infohash) || is_older lan_observed_hard_ttl now h
    then out
    else if is_empty (trim_space h.peer_addr)
    then out
    else mark_seen (trim_space h.peer_addr) out

unfoldable pub addrs_loop : Str → ℕ → List ModelHint → List Str → List Str
addrs_loop infohash now [] out = out
addrs_loop infohash now (h ∷ hs) out = addrs_loop infohash now hs (add_addr infohash now h out)

abbrev pub peer_addrs_from_hints : List ModelHint → Str → ℕ → List Str
peer_addrs_from_hints hs infohash now = addrs_loop infohash now hs []

unfoldable pub peer_addrs_for : LanIndex → Str → Str → ℕ → List Str
peer_addrs_for idx model_id infohash now = peer_addrs_from_hints (query idx model_id) infohash now

unfoldable pub artifact_key : Str → Str → Str
artifact_key model_id revision =
    if is_empty (trim_space revision)
    then model_id
    else model_id ++ (codes "@" ++ trim_space revision)

pub record LanQueryData : Type 0 where
  pub model_id : Str
  pub revision : Str
  pub infohash : Str
  pub infohash_v2 : Str
  pub hf_repo : Str
  pub artifact_key : Str
  pub peer_count : ℕ
  pub last_seen : ℤ
  pub peer_addrs : List Str

-- lastSeen.Unix(), where the zero time is the start of the year 1
abbrev pub unix_seconds : Option ℕ → ℤ
unix_seconds none = negsuc 62_135_596_799
unix_seconds (some t) = pos (t / second)

-- The four readings of the clock, in their order
pub record Readings : Type 0 where
  pub pruned_at : ℕ
  pub selected_at : ℕ
  pub counted_at : ℕ
  pub listed_at : ℕ

unfoldable pub query_data : Str → List ModelHint → Readings → ModelHint → LanQueryData
query_data id hs t best =
    let seen = peer_count_and_last_seen hs best.identity.infohash_v1 t.counted_at in
    record {
      model_id = id;
      revision = best.revision;
      infohash = best.identity.infohash_v1;
      infohash_v2 = best.identity.infohash_v2;
      hf_repo = best.hf_repo;
      artifact_key = artifact_key id best.revision;
      peer_count = seen.0;
      last_seen = unix_seconds seen.1;
      peer_addrs = peer_addrs_from_hints hs best.identity.infohash_v1 t.listed_at;
    }

abbrev pub answer : Str → List ModelHint → Readings → Option ModelHint → Option LanQueryData
answer id hs t none = none
answer id hs t (some best) = some (query_data id hs t best)

-- handleLanQuery: the index after pruning, and the error or the data, none for an unknown model
unfoldable pub handle_lan_query :
    LanIndex → Str → Readings → LanIndex × Result Str (Option LanQueryData)
unfolding prune_older_than pick_best_by_freshness
handle_lan_query idx model_id t =
    if is_empty model_id
    then (idx, err (codes "lan_query requires model_id"))
    else (let pruned = (prune_older_than idx (t.pruned_at - lan_observed_hard_ttl)).0 in
        let hs = query pruned model_id in
        (pruned, ok (answer model_id hs t (pick_best_by_freshness hs t.selected_at))))
