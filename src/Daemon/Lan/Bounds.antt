-- ===== src/Daemon/Lan/Bounds.antt =====
-- What the hint cache holds: valid infohashes of other nodes, one hint for a node and a model, and
-- at most a hundred hints for a model.
use hali_client.Base.{
  ℕ, List, [], ◌∷◌, ◌≡◌, ◌⊎◌, inl, inr, refl, arith, All, Str, Option, none, some, Option-cases,
  Dict, lookup, All-insert, All-lookup, DistinctKeys, DistinctKeys-insert,
}
use hali_client.Daemon.Lan.{
  LanIndex, LanMessage, LanModelAnnounce, ModelHint, accept, hints_of, store_models, Tally, tally,
  allow_rate, peer_addr_of, update, new_lan_index,
}
use hali_client.Daemon.Lan.Hints.{IsGoodList, IsGoodBucket, IsSound, IsPeer, accept-IsGoodBucket}

hints_of-IsGoodList :
    (self id : Str) (entries : Dict (List ModelHint))
    → All (IsGoodBucket self) entries
    → IsGoodList self (hints_of id entries)
hints_of-IsGoodList self id entries all = elim (Option-cases (lookup id entries)) [
  | inl e ↦ rw e (record { bounded = omega arith; hints = tt; nodes = tt })
  | inr (hs, e) ↦ rw e (All-lookup (IsGoodBucket self) id hs entries all e).content
]

-- The entries of an update in progress are good.
abbrev IsGoodTally : Str → Tally → Type 0
IsGoodTally self t = All (IsGoodBucket self) t.entries × DistinctKeys t.entries

tally-IsGoodTally :
    (self id : Str) (hints : Option (List ModelHint)) (t : Tally)
    → ((hs : List ModelHint) → hints ≡ some hs → IsGoodBucket self (id, hs))
    → IsGoodTally self t
    → IsGoodTally self (tally id hints t)
unfolding tally
tally-IsGoodTally self id none t good g = g
tally-IsGoodTally self id (some hs) t good (b, k) = (
  All-insert (IsGoodBucket self) id hs t.entries b (good hs refl),
  DistinctKeys-insert id hs t.entries k,
)

module _ (self node addr : Str) (now : ℕ) (peer : IsPeer self node) where
  store_models-IsGoodTally :
      (ms : List LanModelAnnounce) (t : Tally)
      → IsGoodTally self t
      → IsGoodTally self (store_models node addr now ms t)
  unfolding store_models
  store_models-IsGoodTally [] t g = g
  store_models-IsGoodTally (m ∷ ms) t g = store_models-IsGoodTally ms _ (
      tally-IsGoodTally self m.model_id (accept node addr now m (hints_of m.model_id t.entries)) t
        (λ hs e.
          accept-IsGoodBucket self node addr now m (hints_of m.model_id t.entries) hs peer
            (hints_of-IsGoodList self m.model_id t.entries g.0) e)
        g)

pub new-IsSound : (self : Str) → IsSound (new_lan_index self)
new-IsSound self = record { buckets = tt; keys = tt }

-- The entries after a message of a peer that is within its rate.
abbrev pub stored_entries :
    (Str → ℕ → Option Str) → LanIndex → LanMessage → Str → Option Str → ℕ → Tally
stored_entries addr_port idx msg node src now =
    store_models node (peer_addr_of addr_port src msg.port) now msg.models
      (record { entries = idx.entries; stored = 0; dropped = 0 })

module _ (addr_port : Str → ℕ → Option Str) (idx : LanIndex) (msg : LanMessage) (node : Str)
    (src : Option Str) (now : ℕ) where
  self_pubkey_hash-update :
      (update addr_port idx msg node src now).0.self_pubkey_hash ≡ idx.self_pubkey_hash
  unfolding update allow_rate
  self_pubkey_hash-update = ground arith

  -- An update keeps the entries, or the sender is a peer and its models are stored.
  entries-update :
      ((update addr_port idx msg node src now).0.entries ≡ idx.entries)
      ⊎ (IsPeer idx.self_pubkey_hash node)
        × ((update addr_port idx msg node src now).0.entries
            ≡ (stored_entries addr_port idx msg node src now).entries)
  unfolding update allow_rate
  entries-update = ground arith

  -- Whatever message arrives, from whatever sender, the cache stays sound: every bucket has the name
  -- of a model, holds between one and a hundred hints, at most one from each node, none from this
  -- node, and only valid infohashes.
  pub update-IsSound : IsSound idx → IsSound (update addr_port idx msg node src now).0
  update-IsSound s = elim entries-update [
    | inl same ↦ record {
      buckets = rw (self_pubkey_hash-update, same) s.buckets;
      keys = rw same s.keys;
    }
    | inr (peer, e) ↦
        let g =
          store_models-IsGoodTally idx.self_pubkey_hash node (peer_addr_of addr_port src msg.port)
            now peer msg.models (record { entries = idx.entries; stored = 0; dropped = 0 })
            (s.buckets, s.keys) in
        record { buckets = rw (self_pubkey_hash-update, e) g.0; keys = rw e g.1 }
  ]
