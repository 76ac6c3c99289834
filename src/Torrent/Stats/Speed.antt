-- ===== src/Torrent/Stats/Speed.antt =====
-- The speed tracker against the whole sequence of the readings.
use Prim.Native.Nat.{min}
use hali_client.Base.{
  ℕ, zero, suc, ◌+◌, ◌-◌, ◌/◌, ◌%◌, ◌≡◌, refl, sym, ap, ◌∙◌, subst, arith, List, [], ◌∷◌, ◌++◌,
  append_assoc, append-nil, length, length-append, length-replicate, drop, get_or, ◌==◌, Option,
  none, some, false,
}
use hali_client.Base.Int.{ℤ, pos, ◌-ℤ◌, ◌+ℤ◌}
use hali_client.Base.Ring.{read_ring, read_ring-drop, IsRing, IsWindow, set-IsWindow}
use hali_client.Torrent.Stats.{
  SpeedSample, SpeedTracker, no_sample, slots, new_tracker, at_least_zero, speed_since,
  record_sample, current, history, rem, to_index,
}

ring : IsRing slots
ring = record { slot_lt = λ j. omega arith; slots_ne = λ i j h k. omega arith }

record Tracks (t : SpeedTracker) (hist : List SpeedSample) : Type 0 where
  window : IsWindow slots no_sample t.buf hist
  head_is : t.head ≡ length hist % slots
  count_is : t.count ≡ min slots (length hist)

-- One reading of the engine's cumulative counters.
pub record Reading : Type 0 where
  pub total_down : ℤ
  pub total_up : ℤ
  pub now : ℕ

module _ (rate : ℤ → ℕ → ℤ) where
  abbrev pub record_all : SpeedTracker → List Reading → SpeedTracker
  record_all t [] = t
  record_all t (r ∷ rs) = record_all (record_sample rate t r.total_down r.total_up r.now) rs

  -- The sample of a reading, by the reading before it.
  abbrev pub sample_of : Option ℕ → ℤ → ℤ → Reading → SpeedSample
  sample_of prev down up r = record {
    t = r.now / 1_000_000_000;
    down = at_least_zero (speed_since rate prev r.now (r.total_down -ℤ down));
    up = at_least_zero (speed_since rate prev r.now (r.total_up -ℤ up));
  }

  -- The samples of a sequence of readings: each one compares a reading with the one before it.
  abbrev pub samples_from : Option ℕ → ℤ → ℤ → List Reading → List SpeedSample
  samples_from prev down up [] = []
  samples_from prev down up (r ∷ rs) =
      sample_of prev down up r ∷ samples_from (some r.now) r.total_down r.total_up rs

  record_sample-Tracks :
      (t : SpeedTracker) (hist : List SpeedSample) (r : Reading)
      → Tracks t hist
      → Tracks
          (record_sample rate t r.total_down r.total_up r.now)
          (hist ++ sample_of t.prev_at t.prev_total_down t.prev_total_up r ∷ [])
  unfolding record_sample
  record_sample-Tracks t hist r k =
      let s = sample_of t.prev_at t.prev_total_down t.prev_total_up r in
      let more = length-append hist (s ∷ []) in
      record {
        window = rw k.head_is (set-IsWindow slots ring no_sample t.buf hist s k.window);
        head_is = omega (arith, k.head_is);
        count_is = ground (arith, k.count_is, more);
      }

  record_all-Tracks :
      (rs : List Reading) (t : SpeedTracker) (hist : List SpeedSample)
      → Tracks t hist
      → Tracks
          (record_all t rs)
          (hist ++ samples_from t.prev_at t.prev_total_down t.prev_total_up rs)
  unfolding record_sample
  record_all-Tracks [] t hist k = rw append-nil k
  record_all-Tracks (r ∷ rs) t hist k =
      let s = sample_of t.prev_at t.prev_total_down t.prev_total_up r in
      subst (Tracks (record_all t (r ∷ rs)))
        (append_assoc hist (s ∷ []) (samples_from (some r.now) r.total_down r.total_up rs))
        (record_all-Tracks rs (record_sample rate t r.total_down r.total_up r.now) (hist ++ s ∷ [])
          (record_sample-Tracks t hist r k))

  length-samples_from :
      (rs : List Reading) (prev : Option ℕ) (down up : ℤ)
      → length (samples_from prev down up rs) ≡ length rs
  length-samples_from [] prev down up = refl
  length-samples_from (r ∷ rs) prev down up =
      ap suc (length-samples_from rs (some r.now) r.total_down r.total_up)

read_ring-slot :
    (k a b : ℕ) (buf : List SpeedSample)
    → a % slots ≡ b % slots
    → read_ring slots no_sample buf a k ≡ read_ring slots no_sample buf b k
unfolding read_ring
read_ring-slot zero a b buf e = refl
read_ring-slot (suc k) a b buf e =
    λ i. get_or buf (e i) no_sample ∷ read_ring-slot k (a + 1) (b + 1) buf (omega arith) i

start_slot :
    (h c n : ℕ)
    → h ≡ n % slots
    → c ≡ min slots n
    → to_index (rem (rem (pos h -ℤ pos c) slots +ℤ pos slots) slots) % slots ≡ (n - c) % slots
unfolding ◌-ℤ◌ ◌+ℤ◌
start_slot h c n e f = ground arith

history-Tracks :
    (t : SpeedTracker) (hist : List SpeedSample)
    → Tracks t hist
    → history t ≡ drop (length hist - slots) hist
unfolding history
history-Tracks t hist k =
    read_ring-slot t.count _ (length hist - t.count) t.buf
      (start_slot t.head t.count (length hist) k.head_is k.count_is)
    ∙ read_ring-drop slots ring no_sample t.count (length hist - t.count) t.buf hist k.window
        (omega (arith, k.count_is)) (omega (arith, k.count_is))
    ∙ ap (λ n. drop n hist) (omega (arith, k.count_is))

abbrev pub last_speed : List SpeedSample → ℤ × ℤ
last_speed [] = (pos 0, pos 0)
last_speed (s ∷ []) = (s.down, s.up)
last_speed (s ∷ r ∷ rs) = last_speed (r ∷ rs)

last_speed-get_or :
    (s : SpeedSample) (hist : List SpeedSample)
    → last_speed (s ∷ hist) ≡ (
      (get_or (s ∷ hist) (length hist) no_sample).down,
      (get_or (s ∷ hist) (length hist) no_sample).up,
    )
last_speed-get_or s [] = refl
last_speed-get_or s (r ∷ rs) = last_speed-get_or r rs

current-Tracks :
    (t : SpeedTracker) (hist : List SpeedSample) → Tracks t hist → current t ≡ last_speed hist
unfolding current
current-Tracks t [] k = rw k.count_is
current-Tracks t (s ∷ hist) k =
    let full : (t.count == 0) ≡ false = ground (arith, k.count_is) in
    let slot : (t.head + 60 - 1) % slots ≡ length hist % slots = omega (arith, k.head_is) in
    rw (full, slot)
      (rw (k.window.at (length hist) (omega arith) (omega arith)) (sym (last_speed-get_or s hist)))

new-Tracks : Tracks new_tracker []
new-Tracks = record {
  window = record { full = length-replicate slots no_sample; at = λ i h k. absurd (omega arith) };
  head_is = refl;
  count_is = refl;
}

-- After any readings of the counters, the history is the last sixty samples of the sequence in
-- which each reading is compared with the one before it, the oldest first, and the current speed
-- is that of the last one.
pub history-record_all :
    (rate : ℤ → ℕ → ℤ) (rs : List Reading)
    → (history (record_all rate new_tracker rs)
        ≡ drop (length rs - slots) (samples_from rate none (pos 0) (pos 0) rs))
      × (current (record_all rate new_tracker rs)
          ≡ last_speed (samples_from rate none (pos 0) (pos 0) rs))
history-record_all rate rs =
    let all = samples_from rate none (pos 0) (pos 0) rs in
    let k = record_all-Tracks rate rs new_tracker [] new-Tracks in
    (
      rw (length-samples_from rate rs none (pos 0) (pos 0)) at
          (history-Tracks (record_all rate new_tracker rs) all k),
      current-Tracks (record_all rate new_tracker rs) all k,
    )
