-- ===== src/Daemon/Activity.antt =====
-- internal/daemon/activity.go: the circular log of recent events.
pub mod Recent
mod Tests
use hali_client.Base.{
  ℕ, zero, suc, ◌+◌, ◌-◌, ◌%◌, Bool, ◌||◌, List, [], ◌∷◌, Str, set, replicate, ltb, ◌==◌,
  if◌then◌else◌,
}
use hali_client.Base.Int.{ℤ, pos, leb_ℤ, ltb_ℤ, pos_part}
use hali_client.Base.Ring.{read_ring}

abbrev pub activity_cap : ℕ
activity_cap = 200

-- A timestamp of zero is the zero time.
pub record Event : Type 0 where
  pub version : ℕ
  pub timestamp : ℕ
  pub kind : Str
  pub message : Str
  pub model_id : Str

abbrev pub no_event : Event
no_event = record { version = 0; timestamp = 0; kind = []; message = []; model_id = [] }

pub record ActivityBuffer : Type 0 where
  pub buf : List Event
  pub count : ℕ

abbrev pub empty_buffer : ActivityBuffer
empty_buffer = record { buf = replicate activity_cap no_event; count = 0 }

-- What Append stores for an event, at the time `now`.
abbrev pub stamped : Event → ℕ → Event
stamped e now = record e { version = 1; timestamp = if e.timestamp == 0 then now else e.timestamp }

unfoldable pub append : ActivityBuffer → Event → ℕ → ActivityBuffer
append b e now = record {
  buf = set b.buf (b.count % activity_cap) (stamped e now);
  count = b.count + 1;
}

unfoldable pub snapshot : ActivityBuffer → ℤ → List Event
snapshot b last_n =
    let total = if ltb activity_cap b.count then activity_cap else b.count in
    let n = if leb_ℤ last_n (pos 0) || ltb_ℤ (pos total) last_n then total else pos_part last_n in
    if n == 0 then [] else read_ring activity_cap no_event b.buf (b.count - n) n
