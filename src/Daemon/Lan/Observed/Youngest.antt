-- ===== src/Daemon/Lan/Observed/Youngest.antt =====
-- Which hint is picked.
use hali_client.Base.{
  ℕ, ◌≤◌, Bool, true, false, List, [], ◌∷◌, Option, none, some, ltb, ◌≡◌, refl, ◌⊎◌, inl, inr,
  arith, All, Bool-cases,
}
use hali_client.Daemon.Lan.{ModelHint}
use hali_client.Daemon.Lan.Observed.{
  lan_observed_hard_ttl, lan_observed_soft_ttl, is_older, younger, Picks, no_picks, pick_step,
  pick_loop, or_stale, pick_best_by_freshness,
}

abbrev pub IsAmong : ModelHint → List ModelHint → Type 0
IsAmong b [] = ⊥
IsAmong b (h ∷ hs) = (b ≡ h) ⊎ IsAmong b hs

abbrev pub IsAtMost : ModelHint → ModelHint → Type 0
IsAtMost b h = h.seen_at ≤ b.seen_at

-- No hint when all are older than fifteen minutes, and else one of the hints that are not, such
-- that no other of them is younger.
abbrev pub IsYoungest : ℕ → List ModelHint → Option ModelHint → Type 0
IsYoungest now hs none = All (λ h. is_older lan_observed_hard_ttl now h ≡ true) hs
IsYoungest now hs (some b) =
    IsAmong b hs
    × (is_older lan_observed_hard_ttl now b ≡ false)
    × All (λ h. (is_older lan_observed_hard_ttl now h ≡ true) ⊎ IsAtMost b h) hs

abbrev Reaches : Option ModelHint → ModelHint → Type 0
Reaches none h = ⊥
Reaches (some b) h = IsAtMost b h

abbrev OfAge : ℕ → Bool → (ModelHint → Type 0) → Option ModelHint → Type 0
OfAge now old P none = Unit
OfAge now old P (some b) =
    P b
    × (is_older lan_observed_hard_ttl now b ≡ false)
    × (is_older lan_observed_soft_ttl now b ≡ old)

-- The picks come from the hints with P, and each is of its age.
abbrev ArePicks : ℕ → (ModelHint → Type 0) → Picks → Type 0
ArePicks now P p = OfAge now false P p.fresh × OfAge now true P p.stale

abbrev Covers : ℕ → Picks → ModelHint → Type 0
Covers now p h =
    (is_older lan_observed_hard_ttl now h ≡ true)
    ⊎ ((is_older lan_observed_soft_ttl now h ≡ false) × Reaches p.fresh h)
    ⊎ ((is_older lan_observed_soft_ttl now h ≡ true) × Reaches p.stale h)

OfAge-younger :
    (now : ℕ) (old : Bool) (P : ModelHint → Type 0) (h : ModelHint) (o : Option ModelHint)
    → P h
    → is_older lan_observed_hard_ttl now h ≡ false
    → is_older lan_observed_soft_ttl now h ≡ old
    → OfAge now old P o
    → OfAge now old P (younger h o)
unfolding younger
OfAge-younger now old P h none p hard soft k = (p, hard, soft)
OfAge-younger now old P h (some b) p hard soft k = elim (Bool-cases (ltb b.seen_at h.seen_at)) [
  | inl e ↦ rw e (p, hard, soft)
  | inr e ↦ rw e k
]

younger-Reaches : (h : ModelHint) (o : Option ModelHint) → Reaches (younger h o) h
unfolding younger
younger-Reaches h none = omega arith
younger-Reaches h (some b) = ground arith

younger-keeps : (h g : ModelHint) (o : Option ModelHint) → Reaches o g → Reaches (younger h o) g
unfolding younger
younger-keeps h g none r = elim r [ ]
younger-keeps h g (some b) r = ground arith

pick_step-ArePicks :
    (now : ℕ) (P : ModelHint → Type 0) (h : ModelHint) (p : Picks)
    → P h
    → ArePicks now P p
    → ArePicks now P (pick_step now h p)
unfolding pick_step
pick_step-ArePicks now P h p ph (f, s) = elim (Bool-cases (is_older lan_observed_hard_ttl now h)) [
  | inl hard ↦ rw hard (f, s)
  | inr hard ↦ elim (Bool-cases (is_older lan_observed_soft_ttl now h)) [
    | inl soft ↦ rw hard (rw soft (f, OfAge-younger now true P h p.stale ph hard soft s))
    | inr soft ↦ rw hard (rw soft (OfAge-younger now false P h p.fresh ph hard soft f, s))
  ]
]

pick_step-Covers : (now : ℕ) (h : ModelHint) (p : Picks) → Covers now (pick_step now h p) h
unfolding pick_step
pick_step-Covers now h p = elim (Bool-cases (is_older lan_observed_hard_ttl now h)) [
  | inl hard ↦ inl hard
  | inr hard ↦ elim (Bool-cases (is_older lan_observed_soft_ttl now h)) [
    | inl soft ↦ inr (inr (soft, rw hard (rw soft (younger-Reaches h p.stale))))
    | inr soft ↦ inr (inl (soft, rw hard (rw soft (younger-Reaches h p.fresh))))
  ]
]

younger_fresh :
    (now : ℕ) (h g : ModelHint) (p : Picks)
    → Reaches p.fresh g
    → Reaches (pick_step now h p).fresh g
unfolding pick_step
younger_fresh now h g p r = elim (Bool-cases (is_older lan_observed_hard_ttl now h)) [
  | inl hard ↦ rw hard r
  | inr hard ↦ elim (Bool-cases (is_older lan_observed_soft_ttl now h)) [
    | inl soft ↦ rw hard (rw soft r)
    | inr soft ↦ rw hard (rw soft (younger-keeps h g p.fresh r))
  ]
]

younger_stale :
    (now : ℕ) (h g : ModelHint) (p : Picks)
    → Reaches p.stale g
    → Reaches (pick_step now h p).stale g
unfolding pick_step
younger_stale now h g p r = elim (Bool-cases (is_older lan_observed_hard_ttl now h)) [
  | inl hard ↦ rw hard r
  | inr hard ↦ elim (Bool-cases (is_older lan_observed_soft_ttl now h)) [
    | inl soft ↦ rw hard (rw soft (younger-keeps h g p.stale r))
    | inr soft ↦ rw hard (rw soft r)
  ]
]

pick_step_keeps :
    (now : ℕ) (h g : ModelHint) (p : Picks) → Covers now p g → Covers now (pick_step now h p) g
pick_step_keeps now h g p (inl hard) = inl hard
pick_step_keeps now h g p (inr (inl (soft, r))) = inr (inl (soft, younger_fresh now h g p r))
pick_step_keeps now h g p (inr (inr (soft, r))) = inr (inr (soft, younger_stale now h g p r))

pick_loop_keeps :
    (now : ℕ) (hs : List ModelHint) (g : ModelHint) (p : Picks)
    → Covers now p g
    → Covers now (pick_loop now hs p) g
unfolding pick_loop
pick_loop_keeps now [] g p c = c
pick_loop_keeps now (h ∷ hs) g p c =
    pick_loop_keeps now hs g (pick_step now h p) (pick_step_keeps now h g p c)

pick_loop-Covers :
    (now : ℕ) (hs : List ModelHint) (p : Picks) → All (Covers now (pick_loop now hs p)) hs
unfolding pick_loop
pick_loop-Covers now [] p = tt
pick_loop-Covers now (h ∷ hs) p = (
  pick_loop_keeps now hs h (pick_step now h p) (pick_step-Covers now h p),
  pick_loop-Covers now hs (pick_step now h p),
)

pick_loop-ArePicks :
    (now : ℕ) (P : ModelHint → Type 0) (hs : List ModelHint) (p : Picks)
    → All P hs
    → ArePicks now P p
    → ArePicks now P (pick_loop now hs p)
unfolding pick_loop
pick_loop-ArePicks now P [] p a k = k
pick_loop-ArePicks now P (h ∷ hs) p (x, a) k =
    pick_loop-ArePicks now P hs (pick_step now h p) a (pick_step-ArePicks now P h p x k)

older_seen :
    (now : ℕ) (h b : ModelHint)
    → is_older lan_observed_soft_ttl now h ≡ true
    → is_older lan_observed_soft_ttl now b ≡ false
    → IsAtMost b h
unfolding is_older
older_seen now h b old young = ground arith

abbrev IsBest : ℕ → Option ModelHint → ModelHint → Type 0
IsBest now none h = is_older lan_observed_hard_ttl now h ≡ true
IsBest now (some b) h = (is_older lan_observed_hard_ttl now h ≡ true) ⊎ IsAtMost b h

or_stale-IsBest :
    (now : ℕ) (P : ModelHint → Type 0) (fresh stale : Option ModelHint) (h : ModelHint)
    → OfAge now false P fresh
    → Covers now (record { fresh = fresh; stale = stale }) h
    → IsBest now (or_stale fresh stale) h
or_stale-IsBest now P (some b) o h k (inl hard) = inl hard
or_stale-IsBest now P (some b) o h k (inr (inl (soft, r))) = inr r
or_stale-IsBest now P (some b) o h (q, _, young) (inr (inr (soft, r))) =
    inr (older_seen now h b soft young)
or_stale-IsBest now P none (some b) h k (inl hard) = inl hard
or_stale-IsBest now P none (some b) h k (inr (inl (soft, r))) = elim r [ ]
or_stale-IsBest now P none (some b) h k (inr (inr (soft, r))) = inr r
or_stale-IsBest now P none none h k (inl hard) = hard
or_stale-IsBest now P none none h k (inr (inl (soft, r))) = elim r [ ]
or_stale-IsBest now P none none h k (inr (inr (soft, r))) = elim r [ ]

All-IsBest :
    (now : ℕ) (P : ModelHint → Type 0) (p : Picks) (hs : List ModelHint)
    → ArePicks now P p
    → All (Covers now p) hs
    → All (IsBest now (or_stale p.fresh p.stale)) hs
All-IsBest now P p [] k c = tt
All-IsBest now P p (h ∷ hs) k (c, cs) =
    (or_stale-IsBest now P p.fresh p.stale h k.0 c, All-IsBest now P p hs k cs)

or_stale-IsYoungest :
    (now : ℕ) (hs : List ModelHint) (fresh stale : Option ModelHint)
    → OfAge now false (λ b. IsAmong b hs) fresh
    → OfAge now true (λ b. IsAmong b hs) stale
    → All (IsBest now (or_stale fresh stale)) hs
    → IsYoungest now hs (or_stale fresh stale)
or_stale-IsYoungest now hs (some b) o (i, hard, soft) s best = (i, hard, best)
or_stale-IsYoungest now hs none (some b) f (i, hard, soft) best = (i, hard, best)
or_stale-IsYoungest now hs none none f s best = best

All-IsAmong :
    (P : ModelHint → Type 0) (hs : List ModelHint)
    → ((b : ModelHint) → IsAmong b hs → P b)
    → All P hs
All-IsAmong P [] f = tt
All-IsAmong P (h ∷ hs) f = (f h (inl refl), All-IsAmong P hs (λ b i. f b (inr i)))

-- The hint that is picked for a model is one of its hints that are not older than fifteen minutes,
-- and none of those was seen later; no hint is picked when all are older than that.
pub pick_best_by_freshness-IsYoungest :
    (now : ℕ) (hs : List ModelHint) → IsYoungest now hs (pick_best_by_freshness hs now)
unfolding pick_best_by_freshness
pick_best_by_freshness-IsYoungest now hs =
    let p = pick_loop now hs no_picks in
    let k =
      pick_loop-ArePicks now (λ b. IsAmong b hs) hs no_picks
        (All-IsAmong (λ b. IsAmong b hs) hs (λ b i. i)) (tt, tt) in
    or_stale-IsYoungest now hs p.fresh p.stale k.0 k.1
      (All-IsBest now (λ b. IsAmong b hs) p hs k (pick_loop-Covers now hs no_picks))
