-- ===== src/Daemon/Activity/Tests.antt =====
-- Runs of the activity log.
use hali_client.Base.{ℕ, ◌-◌, ◌≡◌, refl, List, [], ◌∷◌, Str, codes, length, drop}
use hali_client.Base.Ring.{read_ring}
use hali_client.Base.Int.{pos}
use hali_client.Daemon.Activity.{Event, append, snapshot, empty_buffer}
use hali_client.Daemon.Activity.Recent.{append_all, stamped_all, snapshot_size, snapshot-append_all}

abbrev event : Str → ℕ → Event
event kind at = record { version = 0; timestamp = at; kind = kind; message = []; model_id = [] }

abbrev events : List (Event × ℕ)
events = (event (codes "a") 0, 5) ∷ (event (codes "b") 6, 7) ∷ (event (codes "c") 0, 8) ∷ []

last_two :
    snapshot (append_all empty_buffer events) (pos 2)
    ≡ record (event (codes "b") 6) { version = 1 }
      ∷ record (event (codes "c") 8) { version = 1 }
      ∷ []
unfolding snapshot append read_ring
last_two = refl

snapshot-append_all_example :
    snapshot (append_all empty_buffer events) (pos 2)
    ≡ drop (length events - snapshot_size (pos 2) (length events)) (stamped_all events)
snapshot-append_all_example = snapshot-append_all events (pos 2)
