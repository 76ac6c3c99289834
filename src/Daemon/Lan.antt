-- ===== src/Daemon/Lan.antt =====
-- internal/daemon/lan.go: the cache of model hints that other nodes announce on the local network.
-- Times are nanoseconds since 1970 and are given to each operation that reads the clock.
pub mod Hints
pub mod Bounds
pub mod Rate
pub mod Prune
pub mod Receive
pub mod Observed
pub mod Summary
mod Tests
use hali_client.Base.{
  ℕ, zero, suc, ◌+◌, ◌-◌, ◌*◌, Bool, true, false, List, [], ◌∷◌, ◌++◌, ◌&&◌, ◌||◌, not, Str, codes,
  length, str_eq, is_empty, trim_space, Option, none, some, Dict, lookup, insert, Result, ok, err,
  ltb, leb, ◌==◌, if◌then◌else◌,
}
use hali_client.Base.Int.{ℤ, pos, negsuc, ltb_ℤ, eqb_ℤ, ◌-ℤ◌}
use hali_client.Model.{parse}
use hali_client.Safepath.{is_valid_infohash, is_valid_infohash_v2}
use hali_client.Torrent.Identity.{TorrentIdentity}

abbrev pub max_hints_per_model : ℕ
max_hints_per_model = 100

abbrev pub rate_limit : ℕ
rate_limit = 10

abbrev pub second : ℕ
second = 1_000_000_000

pub record LanModelAnnounce : Type 0 where
  pub model_id : Str
  pub infohash : Str
  pub infohash_v2 : Str
  pub hf_repo : Str
  pub revision : Str

pub record LanMessage : Type 0 where
  pub version : Str
  pub node_id : Str
  pub ts : ℤ
  pub port : ℤ
  pub models : List LanModelAnnounce
  pub sig : Str

pub record ModelHint : Type 0 where
  pub identity : TorrentIdentity
  pub hf_repo : Str
  pub revision : Str
  pub pubkey_hash : Str
  pub peer_addr : Str
  pub seen_at : ℕ

pub record RateBucket : Type 0 where
  pub count : ℕ
  pub reset : ℕ

pub record LanIndex : Type 0 where
  pub entries : Dict (List ModelHint)
  pub self_pubkey_hash : Str
  pub rate_limiter : Dict RateBucket

pub data Reason : Type 0 where
  no_reason invalid_node_id stale_or_future_timestamp self_announcement rate_limited : Reason
  all_models_invalid_or_filtered no_models : Reason

pub record UpdateResult : Type 0 where
  pub stored : ℕ
  pub dropped : ℕ
  pub reason : Reason

abbrev pub new_lan_index : Str → LanIndex
new_lan_index self = record { entries = []; self_pubkey_hash = self; rate_limiter = [] }

-- allowRate on the bucket of one node
unfoldable pub allow_bucket : Option RateBucket → ℕ → RateBucket × Bool
allow_bucket none now = (record { count = 1; reset = now + second }, true)
allow_bucket (some b) now =
    if ltb b.reset now
    then (record { count = 1; reset = now + second }, true)
    else if leb rate_limit b.count
    then (b, false)
    else (record b { count = b.count + 1 }, true)

unfoldable pub allow_rate : LanIndex → Str → ℕ → LanIndex × Bool
allow_rate idx pubkey_hash now =
    let r = allow_bucket (lookup pubkey_hash idx.rate_limiter) now in
    (record idx { rate_limiter = insert pubkey_hash r.0 idx.rate_limiter }, r.1)

-- time.Unix(ts, 0) in nanoseconds
abbrev pub unix : ℤ → ℤ
unix (pos n) = pos (second * n)
unix (negsuc n) = negsuc (second * n + (second - 1))

-- age > 30s || age < -5s
unfoldable pub is_stale : ℤ → ℕ → Bool
unfolding ◌-ℤ◌
is_stale ts now =
    let age = pos now -ℤ unix ts in
    ltb_ℤ (pos (30 * second)) age || ltb_ℤ age (negsuc (5 * second - 1))

abbrev pub or_kept : Str → Str → Str
or_kept old new = if not (is_empty new) then new else old

-- The update of a hint when its node announces the model again.
unfoldable pub renew : TorrentIdentity → Str → Str → Str → ℕ → ModelHint → ModelHint
renew incoming repo revision peer_addr now h = record {
  identity = record {
    infohash_v1 = incoming.infohash_v1;
    infohash_v2 = or_kept h.identity.infohash_v2 incoming.infohash_v2;
  };
  hf_repo = or_kept h.hf_repo repo;
  revision = revision;
  pubkey_hash = h.pubkey_hash;
  peer_addr = or_kept h.peer_addr peer_addr;
  seen_at = now;
}

-- The loop over the hints: the first one of the node is renewed, and the flag says whether there
-- was one.
unfoldable pub replace_hint : Str → (ModelHint → ModelHint) → List ModelHint → List ModelHint × Bool
replace_hint pubkey_hash f [] = ([], false)
replace_hint pubkey_hash f (h ∷ hs) =
    let r = replace_hint pubkey_hash f hs in
    if str_eq h.pubkey_hash pubkey_hash then (f h ∷ hs, true) else (h ∷ r.0, r.1)

abbrev pub or_empty : Option (List ModelHint) → List ModelHint
or_empty none = []
or_empty (some hs) = hs

-- idx.entries[id], a nil slice for a missing key
abbrev pub hints_of : Str → Dict (List ModelHint) → List ModelHint
hints_of model_id entries = or_empty (lookup model_id entries)

-- Renew or append; `none` when the model has its full number of hints.
unfoldable pub put_hint :
    ModelHint → (ModelHint → ModelHint) → List ModelHint → Option (List ModelHint)
put_hint hint f hints =
    let r = replace_hint hint.pubkey_hash f hints in
    if r.1
    then some r.0
    else if leb max_hints_per_model (length hints)
    then none
    else some (hints ++ hint ∷ [])

-- `incomingV2`
unfoldable pub checked_v2 : Str → Str
checked_v2 v2 = if not (is_empty v2) && not (is_valid_infohash_v2 v2) then [] else v2

abbrev pub is_ok {ℓ κ} : {E : Type ℓ} {A : Type κ} → Result E A → Bool
is_ok (ok a) = true
is_ok (err e) = false

-- One announced model: the new bucket of its id, or `none` when it is dropped.
unfoldable pub accept : Str → Str → ℕ → LanModelAnnounce → List ModelHint → Option (List ModelHint)
accept pubkey_hash peer_addr now m hints =
    let incoming : TorrentIdentity = record {
      infohash_v1 = m.infohash;
      infohash_v2 = checked_v2 m.infohash_v2;
    } in
    let repo = trim_space m.hf_repo in
    let hint : ModelHint = record {
      identity = incoming;
      hf_repo = repo;
      revision = m.revision;
      pubkey_hash = pubkey_hash;
      peer_addr = peer_addr;
      seen_at = now;
    } in
    if not (is_ok (parse m.model_id))
    then none
    else if not (is_valid_infohash m.infohash)
    then none
    else put_hint hint (renew incoming repo m.revision peer_addr now) hints

-- The entries and the counters of an update in progress.
pub record Tally : Type 0 where
  pub entries : Dict (List ModelHint)
  pub stored : ℕ
  pub dropped : ℕ

unfoldable pub tally : Str → Option (List ModelHint) → Tally → Tally
tally model_id none t = record t { dropped = t.dropped + 1 }
tally model_id (some hs) t = record t {
  entries = insert model_id hs t.entries;
  stored = t.stored + 1;
}

-- The loop over the announced models.
unfoldable pub store_models : Str → Str → ℕ → List LanModelAnnounce → Tally → Tally
store_models pubkey_hash peer_addr now [] t = t
store_models pubkey_hash peer_addr now (m ∷ ms) t =
    let hints = accept pubkey_hash peer_addr now m (hints_of m.model_id t.entries) in
    store_models pubkey_hash peer_addr now ms (tally m.model_id hints t)

unfoldable pub reason_for : ℕ → ℕ → Reason
reason_for stored dropped =
    if stored == 0
    then (if ltb 0 dropped then all_models_invalid_or_filtered else no_models)
    else no_reason

abbrev pub refused : Reason → UpdateResult
refused r = record { stored = 0; dropped = 0; reason = r }

-- The address of a datagram's sender, with the port that the message names. The rendering of an
-- address and a port (netip) is a parameter; `none` is an address of another length than 4 or 16.
module _ (addr_port : Str → ℕ → Option Str) where
  unfoldable pub peer_addr_of : Option Str → ℤ → Str
  peer_addr_of (some ip) (pos port) =
      if ltb 0 port && leb port 65535
      then elim (addr_port ip port) [ none ↦ [] | some a ↦ a ]
      else []
  peer_addr_of _ _ = []

  unfoldable pub update : LanIndex → LanMessage → Str → Option Str → ℕ → LanIndex × UpdateResult
  update idx msg pubkey_hash src now =
      let (rated, allowed) = allow_rate idx pubkey_hash now in
      let done =
        store_models pubkey_hash (peer_addr_of src msg.port) now msg.models
          (record { entries = rated.entries; stored = 0; dropped = 0 }) in
      if is_empty pubkey_hash || ltb 128 (length pubkey_hash)
      then (idx, refused invalid_node_id)
      else if not (eqb_ℤ msg.ts (pos 0)) && is_stale msg.ts now
      then (idx, refused stale_or_future_timestamp)
      else if str_eq pubkey_hash idx.self_pubkey_hash
      then (idx, refused self_announcement)
      else if not allowed
      then (rated, refused rate_limited)
      else (
        record rated { entries = done.entries },
        record {
          stored = done.stored;
          dropped = done.dropped;
          reason = reason_for done.stored done.dropped;
        },
      )

-- Query
unfoldable pub query : LanIndex → Str → List ModelHint
query idx model_id = hints_of model_id idx.entries

-- PruneOlderThan: the hints that stay, the empty buckets left out, and the number removed
unfoldable pub prune_hints : ℕ → List ModelHint → List ModelHint × ℕ
prune_hints cutoff [] = ([], 0)
prune_hints cutoff (h ∷ hs) =
    let r = prune_hints cutoff hs in if ltb h.seen_at cutoff then (r.0, r.1 + 1) else (h ∷ r.0, r.1)

abbrev pub cons_bucket : Str → List ModelHint → Dict (List ModelHint) → Dict (List ModelHint)
cons_bucket id [] d = d
cons_bucket id (h ∷ hs) d = (id, h ∷ hs) ∷ d

unfoldable pub prune_entries : ℕ → Dict (List ModelHint) → Dict (List ModelHint) × ℕ
unfolding prune_hints
prune_entries cutoff [] = ([], 0)
prune_entries cutoff ((id, hs) ∷ d) =
    let k = prune_hints cutoff hs in
    let r = prune_entries cutoff d in (cons_bucket id k.0 r.0, k.1 + r.1)

unfoldable pub prune_older_than : LanIndex → ℕ → LanIndex × ℕ
unfolding prune_entries
prune_older_than idx cutoff =
    let r = prune_entries cutoff idx.entries in (record idx { entries = r.0 }, r.1)
