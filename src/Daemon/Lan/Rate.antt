-- ===== src/Daemon/Lan/Rate.antt =====
-- The rate limit of one node, as the messages of the node arrive.
use Prim.Native.Nat.{min}
use hali_client.Base.{
  length, ℕ, ◌+◌, ◌-◌, ◌≤◌, ◌<◌, true, List, [], ◌∷◌, ◌≡◌, refl, arith, Option, none, some, leb,
  if◌then◌else◌, All, Bool-cases, inl, inr,
}
use hali_client.Daemon.Lan.{RateBucket, allow_bucket, rate_limit, second}

-- The number of messages that pass when one node sends at the given times.
unfoldable pub passed : Option RateBucket → List ℕ → ℕ
passed b [] = 0
passed b (t ∷ ts) = let r = allow_bucket b t in (if r.1 then 1 else 0) + passed (some r.0) ts

passed_within :
    (ts : List ℕ) (b : RateBucket)
    → b.count ≤ rate_limit
    → All (λ t. t ≤ b.reset) ts
    → passed (some b) ts ≡ min (rate_limit - b.count) (length ts)
unfolding passed allow_bucket
passed_within [] b c u = omega arith
passed_within (t ∷ ts) b c (early, u) = elim (Bool-cases (leb rate_limit b.count)) [
  | inl full ↦ ground (arith, passed_within ts b c u)
  | inr room ↦ ground (arith, passed_within ts (record b { count = b.count + 1 }))
]

-- The node has sent nothing yet, or its last window has ended before the time.
abbrev pub OpensWindow : Option RateBucket → ℕ → Type 0
OpensWindow none t = Unit
OpensWindow (some b) t = b.reset < t

-- Of the messages that a node sends from the one that opens a window to the end of the window, one
-- second later, the first ten pass and no more.
pub rate_window :
    (b : Option RateBucket) (t : ℕ) (ts : List ℕ)
    → OpensWindow b t
    → All (λ u. u ≤ t + second) ts
    → passed b (t ∷ ts) ≡ min rate_limit (length (t ∷ ts))
unfolding passed
rate_window b t ts o u =
    rw (opened b t o) (
      rw (passed_within ts (record { count = 1; reset = t + second }) (omega arith) u)
        (omega arith))
  where
    opened :
        (b : Option RateBucket) (t : ℕ)
        → OpensWindow b t
        → allow_bucket b t ≡ (record { count = 1; reset = t + second }, true)
    opened none t o = unfold allow_bucket in refl
    opened (some b) t o = unfold allow_bucket in ground arith
