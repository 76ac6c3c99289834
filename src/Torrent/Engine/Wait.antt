-- ===== src/Torrent/Engine/Wait.antt =====
-- internal/torrent/engine.go: the loop that waits for a torrent's metadata, alone, where no metadata
-- comes, nobody cancels and the engine stays open. Round `k` sees `peers k` active peers, and its
-- timer and the clock are `lag k` late. The result is the time at which the wait gives up.
use hali_client.Base.{
  ℕ, zero, suc, ◌+◌, ◌*◌, ◌≤◌, ◌<◌, ◌≡◌, refl, arith, Option, none, some, leb, leb→le, subst,
  if◌then◌else◌, Bool-cases, inl, inr,
}
use hali_client.Torrent.Engine.{window_of, extended_deadline}

module _ (meta_timeout : ℕ) (peers lag : ℕ → ℕ) where
  unfoldable pub await_metadata : ℕ → ℕ → ℕ → ℕ → ℕ → Option ℕ
  await_metadata zero k now deadline max_deadline = none
  await_metadata (suc fuel) k now deadline max_deadline =
      let after = now + window_of now deadline + lag k in
      let later = extended_deadline meta_timeout (peers k) after deadline max_deadline in
      let rest = await_metadata fuel (k + 1) after later max_deadline in
      if leb deadline now then some now else rest

  window_pos : (now deadline : ℕ) → now < deadline → 0 < window_of now deadline
  window_pos now deadline h = ground arith

  window_le : (now deadline : ℕ) → now < deadline → now + window_of now deadline ≤ deadline
  window_le now deadline h = ground arith

  extended_bounds :
      (n now deadline max_deadline : ℕ)
      → deadline ≤ max_deadline
      → let d = extended_deadline meta_timeout n now deadline max_deadline in
        (deadline ≤ d) × (d ≤ max_deadline)
  extended_bounds n now deadline max_deadline h = ground arith

  unextended :
      (n now deadline max_deadline : ℕ)
      → n ≡ 0
      → extended_deadline meta_timeout n now deadline max_deadline ≡ deadline
  unextended n now deadline max_deadline h = rw h refl

  gives_up :
      (late fuel k now deadline max_deadline : ℕ)
      → ((i : ℕ) → lag i ≤ late)
      → deadline ≤ max_deadline
      → max_deadline < fuel + now
      → now ≤ deadline + late
      → 0 < fuel
      → (t : ℕ) × (await_metadata fuel k now deadline max_deadline ≡ some t)
        × (deadline ≤ t)
        × (t ≤ max_deadline + late)
        × (((i : ℕ) → peers i ≡ 0) → t ≤ deadline + late)
  unfolding await_metadata
  gives_up late zero k now d m l h f b p = absurd (omega arith)
  gives_up late (suc fuel) k now d m l h f b p = elim (Bool-cases (leb d now)) [
    | inl over ↦ let o : d ≤ now = leb→le d now over in (now, rw over refl, o, omega arith, λ z. b)
    | inr still ↦
        let o : now < d = ground arith in
        let after = now + window_of now d + lag k in
        let d' = extended_deadline meta_timeout (peers k) after d m in
        let bounds = extended_bounds (peers k) after d m h in
        let more = window_pos now d o in
        let within = window_le now d o in
        let (t, e, low, high, quick) =
          gives_up late fuel (k + 1) after d' m l bounds.1 (omega (arith, more))
            (omega (arith, within, l k, bounds)) (omega arith) in
        (
          t,
          rw still e,
          omega (arith, low, bounds),
          high,
          λ z. subst (λ x. t ≤ x + late) (unextended (peers k) after d m (z k)) (quick z),
        )
  ]

-- Waiting for the metadata of a torrent always ends. If none comes, the wait gives up within
-- 3 * metaTimeout + 1 rounds, not before metaTimeout has passed, and not later than three times that
-- and the lateness of a timer; without a peer it gives up right after metaTimeout.
pub await_metadata_ends :
    (meta_timeout start late : ℕ) (peers lag : ℕ → ℕ)
    → ((k : ℕ) → lag k ≤ late)
    → (t : ℕ) × (await_metadata meta_timeout peers lag
          (3 * meta_timeout + 1)
          0
          start
          (start + meta_timeout)
          (start + 3 * meta_timeout)
        ≡ some t)
      × (start + meta_timeout ≤ t)
      × (t ≤ start + 3 * meta_timeout + late)
      × (((k : ℕ) → peers k ≡ 0) → t ≤ start + meta_timeout + late)
await_metadata_ends meta_timeout start late peers lag l =
    gives_up meta_timeout peers lag late (3 * meta_timeout + 1) 0 start (start + meta_timeout)
      (start + 3 * meta_timeout) l (omega arith) (omega arith) (omega arith) (omega arith)
