-- ===== src/Torrent/Stats/Rates.antt =====
-- internal/torrent/stats_collector.go: the rate of one counter between two samples.
use hali_client.Base.{
  ltb, ◌-◌, ◌≤◌, ◌<◌, arith, ℕ, ◌≡◌, ◌⊎◌, refl, Option, none, some, Bool-cases, inl, inr,
}
use hali_client.Base.Int.{ltb_ℤ, ℤ, pos, ◌-ℤ◌, ◌≤ℤ◌, ◌<ℤ◌}
use hali_client.Torrent.Stats.{at_least_zero, or_zero, speed_since}

-- `s` is the rate since the last sample at which a counter grew from `old` to `new`: nothing without
-- an earlier sample or when no time has passed, and the rate of no bytes where the counter fell.
abbrev pub IsRate : (ℤ → ℕ → ℤ) → Option ℕ → ℕ → ℤ → ℤ → ℤ → Type 0
IsRate rate none now old new s = s ≡ pos 0
IsRate rate (some since) now old new s =
    ((now ≤ since) × (s ≡ pos 0))
    ⊎ ((since < now) × (old ≤ℤ new) × (s ≡ rate (new -ℤ old) (now - since)))
    ⊎ ((since < now) × (new <ℤ old) × (s ≡ rate (pos 0) (now - since)))

-- A counter of the last sample, zero for a model that is new
abbrev pub counter : Option ℤ → ℤ
counter none = pos 0
counter (some n) = n

pub or_zero-counter : (o : Option ℤ) → or_zero o ≡ counter o
or_zero-counter none = refl
or_zero-counter (some n) = refl

at_least_zero-grown : (old new : ℤ) → old ≤ℤ new → at_least_zero (new -ℤ old) ≡ new -ℤ old
unfolding ◌-ℤ◌
at_least_zero-grown old new h = ground arith

at_least_zero-fallen : (old new : ℤ) → new <ℤ old → at_least_zero (new -ℤ old) ≡ pos 0
unfolding ◌-ℤ◌
at_least_zero-fallen old new h = ground arith

pub speed_since-IsRate :
    (rate : ℤ → ℕ → ℤ) (last : Option ℕ) (now : ℕ) (old new : ℤ)
    → IsRate rate last now old new (speed_since rate last now (at_least_zero (new -ℤ old)))
speed_since-IsRate rate none now old new = refl
speed_since-IsRate rate (some since) now old new = elim (Bool-cases (ltb since now)) [
  | inr same ↦ rw same (inl (ground arith, refl))
  | inl later ↦ elim (Bool-cases (ltb_ℤ new old)) [
    | inl fell ↦
        let fallen : new <ℤ old = ground arith in
        rw (later, at_least_zero-fallen old new fallen) (inr (inr (ground arith, fallen, refl)))
    | inr rose ↦
        let grown : old ≤ℤ new = ground arith in
        rw (later, at_least_zero-grown old new grown) (inr (inl (ground arith, grown, refl)))
  ]
]
