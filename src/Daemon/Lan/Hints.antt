-- ===== src/Daemon/Lan/Hints.antt =====
-- internal/daemon/lan.go: the hints of one model, as the index keeps them when it accepts an
-- announcement.
use mathlib.Core.Bool.{false≢true}
use hali_client.Base.{
  ℕ, ◌≤◌, ◌<◌, Bool, true, false, List, [], ◌∷◌, ◌++◌, ◌||◌, ◌≡◌, ◌⊎◌, inl, inr, refl, ◌∙◌, arith,
  All, All-append, Str, length, length-append, str_eq, str_eq_iff, is_empty, is_empty-nil,
  trim_space, some, Bool-cases, DistinctKeys,
}
use hali_client.Model.{parse}
use hali_client.Safepath.{is_valid_infohash, is_valid_infohash_v2}
use hali_client.Torrent.Identity.{TorrentIdentity}
use hali_client.Daemon.Lan.{
  LanIndex, LanModelAnnounce, ModelHint, replace_hint, renew, put_hint, accept, checked_v2, is_ok,
  max_hints_per_model,
}

pub record IsGoodHint (self : Str) (h : ModelHint) : Type 0 where
  pub v1_valid : is_valid_infohash h.identity.infohash_v1 ≡ true
  pub v2_valid :
      (h.identity.infohash_v2 ≡ []) ⊎ (is_valid_infohash_v2 h.identity.infohash_v2 ≡ true)
  pub node_known : is_empty h.pubkey_hash ≡ false
  pub node_short : length h.pubkey_hash ≤ 128
  pub not_self : str_eq h.pubkey_hash self ≡ false

-- Some hint of the list comes from the node.
abbrev pub mentions : Str → List ModelHint → Bool
mentions node [] = false
mentions node (h ∷ hs) = str_eq h.pubkey_hash node || mentions node hs

abbrev pub OneEach : List ModelHint → Type 0
OneEach [] = Unit
OneEach (h ∷ hs) = (mentions h.pubkey_hash hs ≡ false) × OneEach hs

pub record IsGoodList (self : Str) (hs : List ModelHint) : Type 0 where
  pub bounded : length hs ≤ max_hints_per_model
  pub hints : All (IsGoodHint self) hs
  pub nodes : OneEach hs

pub record IsGoodBucket (self : Str) (b : Str × List ModelHint) : Type 0 where
  pub named : is_ok (parse b.0) ≡ true
  pub not_empty : 0 < length b.1
  pub content : IsGoodList self b.1

pub record IsSound (idx : LanIndex) : Type 0 where
  pub buckets : All (IsGoodBucket idx.self_pubkey_hash) idx.entries
  pub keys : DistinctKeys idx.entries

-- The node that sends a message which passes the first guards.
pub record IsPeer (self node : Str) : Type 0 where
  pub known : is_empty node ≡ false
  pub short : length node ≤ 128
  pub other : str_eq node self ≡ false

module _ (node : Str) (f : ModelHint → ModelHint)
    (same : (h : ModelHint) → (f h).pubkey_hash ≡ h.pubkey_hash) where
  length-replace_hint : (hs : List ModelHint) → length (replace_hint node f hs).0 ≡ length hs
  unfolding replace_hint
  length-replace_hint [] = refl
  length-replace_hint (h ∷ hs) = ground (arith, length-replace_hint hs)

  replace_hint-flag : (hs : List ModelHint) → (replace_hint node f hs).1 ≡ mentions node hs
  unfolding replace_hint
  replace_hint-flag [] = refl
  replace_hint-flag (h ∷ hs) = ground (arith, replace_hint-flag hs)

  mentions-replace_hint :
      (k : Str) (hs : List ModelHint) → mentions k (replace_hint node f hs).0 ≡ mentions k hs
  unfolding replace_hint
  mentions-replace_hint k [] = refl
  mentions-replace_hint k (h ∷ hs) = elim (Bool-cases (str_eq h.pubkey_hash node)) [
    | inl e ↦ rw e (rw (same h) refl)
    | inr e ↦ rw e (rw (mentions-replace_hint k hs) refl)
  ]

  OneEach-replace_hint : (hs : List ModelHint) → OneEach hs → OneEach (replace_hint node f hs).0
  unfolding replace_hint
  OneEach-replace_hint [] u = tt
  OneEach-replace_hint (h ∷ hs) (u, us) = elim (Bool-cases (str_eq h.pubkey_hash node)) [
    | inl e ↦ rw e (rw (same h) u, us)
    | inr e ↦ rw e (mentions-replace_hint h.pubkey_hash hs ∙ u, OneEach-replace_hint hs us)
  ]

  All-replace_hint :
      (P : ModelHint → Type 0)
      → ((h : ModelHint) → P h → P (f h))
      → (hs : List ModelHint) → All P hs
      → All P (replace_hint node f hs).0
  unfolding replace_hint
  All-replace_hint P keep [] u = tt
  All-replace_hint P keep (h ∷ hs) (u, us) = elim (Bool-cases (str_eq h.pubkey_hash node)) [
    | inl e ↦ rw e (keep h u, us)
    | inr e ↦ rw e (u, All-replace_hint P keep hs us)
  ]

mentions-append :
    (k : Str) (hs : List ModelHint) (h : ModelHint)
    → mentions k (hs ++ h ∷ []) ≡ (mentions k hs || str_eq h.pubkey_hash k)
mentions-append k [] h = ground arith
mentions-append k (x ∷ xs) h = ground (arith, mentions-append k xs h)

OneEach-append :
    (hs : List ModelHint) (h : ModelHint)
    → OneEach hs
    → mentions h.pubkey_hash hs ≡ false
    → OneEach (hs ++ h ∷ [])
OneEach-append [] h u m = (refl, tt)
OneEach-append (x ∷ xs) h (u, us) m = (
  ground (
    arith,
    mentions-append x.pubkey_hash xs h,
    str_eq_iff h.pubkey_hash x.pubkey_hash,
    str_eq_iff x.pubkey_hash h.pubkey_hash,
  ),
  OneEach-append xs h us (ground arith),
)

put_hint-IsGoodList :
    (self : Str) (hint : ModelHint) (f : ModelHint → ModelHint) (hs hs' : List ModelHint)
    → ((h : ModelHint) → (f h).pubkey_hash ≡ h.pubkey_hash)
    → ((h : ModelHint) → IsGoodHint self h → IsGoodHint self (f h))
    → IsGoodHint self hint
    → IsGoodList self hs
    → put_hint hint f hs ≡ some hs'
    → IsGoodList self hs' × (0 < length hs')
unfolding put_hint
put_hint-IsGoodList self hint f hs hs' same keep new g e = elim (Bool-cases (mentions node hs)) [
  | inl old ↦
      let kept : renewed ≡ hs' = ground (arith, replace_hint-flag node f same hs) in
      rw (← kept) (
        record {
          bounded = rw (length-replace_hint node f same hs) g.bounded;
          hints = All-replace_hint node f same (IsGoodHint self) keep hs g.hints;
          nodes = OneEach-replace_hint node f same hs g.nodes;
        },
        rw (length-replace_hint node f same hs) (nonempty hs old),
      )
  | inr fresh ↦
      let room : length hs < max_hints_per_model =
        ground (arith, replace_hint-flag node f same hs) in
      let added : hs ++ hint ∷ [] ≡ hs' = ground (arith, replace_hint-flag node f same hs) in
      rw (← added) (
        record {
          bounded = omega (arith, length-append hs (hint ∷ []));
          hints = All-append (IsGoodHint self) hs (hint ∷ []) g.hints (new, tt);
          nodes = OneEach-append hs hint g.nodes fresh;
        },
        omega (arith, length-append hs (hint ∷ [])),
      )
]
  where
    node : Str
    node = hint.pubkey_hash

    renewed : List ModelHint
    renewed = (replace_hint node f hs).0

    nonempty : (l : List ModelHint) → mentions node l ≡ true → 0 < length l
    nonempty [] m = absurd (false≢true m)
    nonempty (x ∷ xs) m = omega arith

checked_v2_valid : (v2 : Str) → (checked_v2 v2 ≡ []) ⊎ (is_valid_infohash_v2 (checked_v2 v2) ≡ true)
unfolding checked_v2
checked_v2_valid v2 = ground (arith, is_empty-nil v2)

renew-IsGoodHint :
    (self : Str) (id : TorrentIdentity) (repo revision addr : Str) (now : ℕ) (h : ModelHint)
    → is_valid_infohash id.infohash_v1 ≡ true
    → (id.infohash_v2 ≡ []) ⊎ (is_valid_infohash_v2 id.infohash_v2 ≡ true)
    → IsGoodHint self h
    → IsGoodHint self (renew id repo revision addr now h)
unfolding renew
renew-IsGoodHint self id repo revision addr now h v1 v2 g = ground arith

renew_same :
    (id : TorrentIdentity) (repo revision addr : Str) (now : ℕ) (h : ModelHint)
    → (renew id repo revision addr now h).pubkey_hash ≡ h.pubkey_hash
unfolding renew
renew_same id repo revision addr now h = refl

-- An accepted announcement leaves a good bucket under its model id.
pub accept-IsGoodBucket :
    (self node addr : Str) (now : ℕ) (m : LanModelAnnounce) (hs hs' : List ModelHint)
    → IsPeer self node
    → IsGoodList self hs
    → accept node addr now m hs ≡ some hs'
    → IsGoodBucket self (m.model_id, hs')
unfolding accept
accept-IsGoodBucket self node addr now m hs hs' peer g e =
    elim (Bool-cases (is_ok (parse m.model_id))) [
      | inr bad ↦ absurd (ground arith)
      | inl named ↦ elim (Bool-cases (is_valid_infohash m.infohash)) [
        | inr bad ↦ absurd (ground arith)
        | inl valid ↦
            let put =
              put_hint-IsGoodList self _ _ hs hs' (renew_same _ _ _ _ now)
                (λ h.
                  renew-IsGoodHint self
                    (record { infohash_v1 = m.infohash; infohash_v2 = checked_v2 m.infohash_v2 })
                    (trim_space m.hf_repo) m.revision addr now h valid
                    (checked_v2_valid m.infohash_v2))
                (record {
                  v1_valid = valid;
                  v2_valid = checked_v2_valid m.infohash_v2;
                  node_known = peer.known;
                  node_short = peer.short;
                  not_self = peer.other;
                })
                g (simp (named, valid) at e) in
            record { named = named; not_empty = put.1; content = put.0 }
      ]
    ]
