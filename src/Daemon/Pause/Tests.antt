-- ===== src/Daemon/Pause/Tests.antt =====
-- A run in which a late callback ends a new pause.
use hali_client.Base.{◌≡◌, refl, true, false, [], ◌∷◌, ◌++◌, none, some}
use hali_client.Base.Int.{pos}
use hali_client.Policy.{Policy, Settings, load}
use hali_client.Daemon.Pause.{PauseState, new_state, pause_for}
use hali_client.Daemon.Pause.Steps.{
  Step, pause, run_out, Reachable, start, next, IsConsistent, Reachable-IsConsistent,
  stale_callback,
}

abbrev first_pause : PauseState
first_pause = (pause_for (pos 1) new_state 0).0

first_armed : first_pause.armed ≡ some 0
unfolding pause_for
first_armed = refl

abbrev late : PauseState
late = record first_pause { armed = none; callbacks = 0 ∷ first_pause.callbacks }

late-Reachable : Reachable late
late-Reachable =
    next first_pause late (next new_state first_pause start (pause (pos 1) 0))
      (run_out 0 first_armed)

Reachable-IsConsistent_example : IsConsistent late
Reachable-IsConsistent_example = Reachable-IsConsistent late late-Reachable

late_callbacks : late.callbacks ≡ [] ++ 0 ∷ []
unfolding pause_for
late_callbacks = refl

stale_callback_example :
    (t : PauseState) × Step (pause_for (pos 60) late 7).0 t
    × ((pause_for (pos 60) late 7).0.paused ≡ true)
    × (t.paused ≡ false)
    × (t.armed ≡ none)
stale_callback_example = stale_callback late (pos 60) 7 0 [] [] late_callbacks

abbrev site : Policy
site = load (λ subkey name. some 500)

site_limit : site.max_upload_kbps ≡ some (pos 500)
unfolding load
site_limit = refl

abbrev unlimited : Settings
unlimited = record { max_upload_kbps = pos 0; max_download_kbps = pos 0 }
