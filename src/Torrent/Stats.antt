-- ===== src/Torrent/Stats.antt =====
-- internal/torrent/stats_collector.go: transfer speeds of the engine, sampled every second.
-- Cumulative counters are integers without a bound, but for the one product that may overflow.
-- The conversion of a difference of bytes over a time to bytes per second goes through float64 in
-- the code, and is a parameter. The clock's readings are arguments, in nanoseconds.
pub mod Speed
pub mod Lookups
pub mod Rates
pub mod Models
use hali_client.Base.{
  ℕ, zero, suc, ◌+◌, ◌-◌, ◌*◌, ◌/◌, ◌%◌, ◌^◌, Bool, true, false, not, ◌&&◌, ◌||◌, List, [], ◌∷◌,
  ◌++◌, Str, codes, str_eq, Option, none, some, set, get_or, replicate, Dict, lookup, insert,
  delete, ltb, ◌==◌, if◌then◌else◌,
}
use hali_client.Base.Int.{ℤ, pos, negsuc, ◌+ℤ◌, ◌-ℤ◌, ltb_ℤ}
use hali_client.Base.Ring.{read_ring}

pub record SpeedSample : Type 0 where
  pub t : ℕ
  pub down : ℤ
  pub up : ℤ

abbrev pub no_sample : SpeedSample
no_sample = record { t = 0; down = pos 0; up = pos 0 }

abbrev pub slots : ℕ
slots = 60

-- `prev_at` is `none` for the zero time.
pub record SpeedTracker : Type 0 where
  pub buf : List SpeedSample
  pub head : ℕ
  pub count : ℕ
  pub prev_total_down : ℤ
  pub prev_total_up : ℤ
  pub prev_at : Option ℕ

abbrev pub new_tracker : SpeedTracker
new_tracker = record {
  buf = replicate slots no_sample;
  head = 0;
  count = 0;
  prev_total_down = pos 0;
  prev_total_up = pos 0;
  prev_at = none;
}

abbrev pub at_least_zero : ℤ → ℤ
at_least_zero d = if ltb_ℤ d (pos 0) then pos 0 else d

pub data Status : Type 0 where
  hashing seeding failed : Status

-- EngineModelState of engine.go
pub record EngineModelState : Type 0 where
  pub model_id : Str
  pub magnet_uri : Str
  pub status : Status
  pub down : ℤ
  pub up : ℤ
  pub peers : ℕ
  pub size_bytes : ℤ
  pub written : ℤ
  pub total : ℤ
  pub is_job : Bool

pub record Collector : Type 0 where
  pub tracker : SpeedTracker
  pub prev_cum_down : Dict ℤ
  pub prev_cum_up : Dict ℤ
  pub model_speeds : Dict (ℤ × ℤ)
  pub last_sample : Option ℕ

abbrev pub new_collector : Collector
new_collector = record {
  tracker = new_tracker;
  prev_cum_down = [];
  prev_cum_up = [];
  model_speeds = [];
  last_sample = none;
}

-- d[k], zero for a missing key
abbrev pub or_zero : Option ℤ → ℤ
or_zero none = pos 0
or_zero (some v) = v

unfoldable pub is_active : Str → List EngineModelState → Bool
unfolding str_eq
is_active id [] = false
is_active id (m ∷ ms) = str_eq m.model_id id || is_active id ms

-- A model that is gone leaves all three tables.
abbrev pub forget : Bool → Str → Collector → Collector
forget true id c = c
forget false id c = record c {
  model_speeds = delete id c.model_speeds;
  prev_cum_down = delete id c.prev_cum_down;
  prev_cum_up = delete id c.prev_cum_up;
}

-- The loop over the keys of the speeds.
unfoldable pub forget_gone : List EngineModelState → Dict (ℤ × ℤ) → Collector → Collector
forget_gone ms [] c = c
forget_gone ms ((id, sp) ∷ d) c = forget_gone ms d (forget (is_active id ms) id c)

-- int64(float64(bytes) / elapsed), at an elapsed time that is not zero
module _ (rate : ℤ → ℕ → ℤ) where
  -- The rate since `since`, zero where no time has passed or there was no earlier sample.
  abbrev pub speed_since : Option ℕ → ℕ → ℤ → ℤ
  speed_since none now d = pos 0
  speed_since (some since) now d = if ltb since now then rate d (now - since) else pos 0

  unfoldable pub record_sample : SpeedTracker → ℤ → ℤ → ℕ → SpeedTracker
  record_sample t total_down total_up now = record {
    buf = set t.buf t.head (record {
      t = now / 1_000_000_000;
      down = at_least_zero (speed_since t.prev_at now (total_down -ℤ t.prev_total_down));
      up = at_least_zero (speed_since t.prev_at now (total_up -ℤ t.prev_total_up));
    });
    head = (t.head + 1) % slots;
    count = if ltb t.count slots then t.count + 1 else t.count;
    prev_total_down = total_down;
    prev_total_up = total_up;
    prev_at = some now;
  }

  -- The loop of sample over the active models, behind the time since the last sample.
  unfoldable pub sample_model : Option ℕ → ℕ → Collector → EngineModelState → Collector
  sample_model last now c m =
      let d_down = at_least_zero (m.down -ℤ or_zero (lookup m.model_id c.prev_cum_down)) in
      let d_up = at_least_zero (m.up -ℤ or_zero (lookup m.model_id c.prev_cum_up)) in
      record c {
        model_speeds =
            insert m.model_id (speed_since last now d_down, speed_since last now d_up)
              c.model_speeds;
        prev_cum_down = insert m.model_id m.down c.prev_cum_down;
        prev_cum_up = insert m.model_id m.up c.prev_cum_up;
      }

  unfoldable pub sample_models : Option ℕ → ℕ → Collector → List EngineModelState → Collector
  sample_models last now c [] = c
  sample_models last now c (m ∷ ms) = sample_models last now (sample_model last now c m) ms

  -- sample, with the clock's reading at its start and in the tracker's record
  unfoldable pub sample : Collector → List EngineModelState → ℤ → ℤ → ℕ → ℕ → Collector
  sample c ms total_down total_up now recorded =
      let sampled = sample_models c.last_sample now c ms in
      let kept = forget_gone ms sampled.model_speeds sampled in
      record kept {
        tracker = record_sample kept.tracker total_down total_up recorded;
        last_sample = some now;
      }

unfoldable pub current : SpeedTracker → ℤ × ℤ
current t =
    let s = get_or t.buf ((t.head + 60 - 1) % slots) no_sample in
    if t.count == 0 then (pos 0, pos 0) else (s.down, s.up)

-- Go's remainder, with the sign of the dividend
abbrev pub rem : ℤ → ℕ → ℤ
rem (pos a) n = pos (a % n)
rem (negsuc a) n = pos 0 -ℤ pos (suc a % n)

abbrev pub to_index : ℤ → ℕ
to_index (pos n) = n
to_index (negsuc n) = 0

unfoldable pub history : SpeedTracker → List SpeedSample
history t =
    let start = to_index (rem (rem (pos t.head -ℤ pos t.count) slots +ℤ pos slots) slots) in
    read_ring slots no_sample t.buf start t.count

pub record Totals : Type 0 where
  pub down : ℤ
  pub up : ℤ
  pub active_dls : ℕ
  pub active_seeds : ℕ

abbrev pub is_seeding : Status → Bool
is_seeding seeding = true
is_seeding _ = false

-- collectTotals, from the totals so far
unfoldable pub collect_totals : Totals → List EngineModelState → Totals
collect_totals acc [] = acc
collect_totals acc (m ∷ ms) =
    let sums = record acc { down = acc.down +ℤ m.down; up = acc.up +ℤ m.up } in
    collect_totals
      (if m.is_job
        then record sums { active_dls = sums.active_dls + 1 }
        else if is_seeding m.status
        then record sums { active_seeds = sums.active_seeds + 1 }
        else sums)
      ms

-- The signed 64-bit value of an integer.
abbrev pub wrap_word : ℕ → ℤ
wrap_word r = if ltb r (2 ^ 63) then pos r else negsuc (2 ^ 64 - 1 - r)

abbrev pub wrap64 : ℤ → ℤ
wrap64 (pos n) = wrap_word (n % 2 ^ 64)
wrap64 (negsuc n) = wrap_word (2 ^ 64 - 1 - n % 2 ^ 64)

abbrev pub times_100 : ℤ → ℤ
times_100 (pos n) = pos (n * 100)
times_100 (negsuc n) = negsuc (n * 100 + 99)

-- Go's quotient by a positive number, towards zero
abbrev pub quot : ℤ → ℕ → ℤ
quot (pos a) n = pos (a / n)
quot (negsuc a) n = pos 0 -ℤ pos (suc a / n)

-- `progress` of collectModels
unfoldable pub progress_of : Bool → ℤ → ℤ → ℤ
unfolding ◌-ℤ◌
progress_of true written (pos (suc n)) = quot (wrap64 (times_100 written)) (suc n)
progress_of _ written total = pos 0

pub record ModelStats : Type 0 where
  pub model_id : Str
  pub magnet_uri : Str
  pub status : Str
  pub down_speed : ℤ
  pub up_speed : ℤ
  pub peers : ℕ
  pub size_bytes : ℤ
  pub total_down : ℤ
  pub total_up : ℤ
  pub progress : ℤ

abbrev pub status_text : Status → Str
status_text hashing = codes "hashing"
status_text seeding = codes "seeding"
status_text failed = codes "error"

abbrev pub no_speed : Option (ℤ × ℤ) → ℤ × ℤ
no_speed none = (pos 0, pos 0)
no_speed (some sp) = sp

unfoldable pub collect_models : Dict (ℤ × ℤ) → List EngineModelState → List ModelStats
collect_models speeds [] = []
collect_models speeds (m ∷ ms) =
    record {
      model_id = m.model_id;
      magnet_uri = m.magnet_uri;
      status = if m.is_job then codes "downloading" else status_text m.status;
      down_speed = (no_speed (lookup m.model_id speeds)).0;
      up_speed = (no_speed (lookup m.model_id speeds)).1;
      peers = m.peers;
      size_bytes = m.size_bytes;
      total_down = m.down;
      total_up = m.up;
      progress = progress_of m.is_job m.written m.total;
    }
    ∷ collect_models speeds ms

pub record StatsSnapshot : Type 0 where
  pub totals : Totals
  pub down_speed : ℤ
  pub up_speed : ℤ
  pub models : List ModelStats
  pub samples : List SpeedSample

-- Snapshot, less the rendering of the running time
unfoldable pub snapshot : Collector → List EngineModelState → StatsSnapshot
snapshot c ms = record {
  totals =
      collect_totals (record { down = pos 0; up = pos 0; active_dls = 0; active_seeds = 0 }) ms;
  down_speed = (current c.tracker).0;
  up_speed = (current c.tracker).1;
  models = collect_models c.model_speeds ms;
  samples = history c.tracker;
}
