-- ===== src/Daemon/Pause.antt =====
-- internal/daemon/server.go: the pause of the transfers, and the limits that the engine gets. A step
-- is one holder of the pause lock; a timer is a number that grows with every new one, and a timer
-- that has run out puts its callback among those that wait for the lock.
pub mod Steps
mod Tests
use hali_client.Base.{
  ℕ, zero, suc, ◌+◌, ◌*◌, Bool, true, false, List, [], ◌∷◌, ◌++◌, Option, none, some, if◌then◌else◌,
  ◌&&◌, ◌||◌,
}
use hali_client.Base.Int.{ℤ, pos, negsuc, ltb_ℤ, eqb_ℤ}
use hali_client.Policy.{Settings, Policy, apply}

pub record PauseState : Type 0 where
  pub paused : Bool
  -- `none` is the zero time
  pub pause_end : Option ℕ
  pub pause_tmr : Option ℕ
  -- the timer that runs: neither stopped nor run out
  pub armed : Option ℕ
  pub next_tmr : ℕ
  pub callbacks : List ℕ

abbrev pub new_state : PauseState
new_state = record {
  paused = false;
  pause_end = none;
  pause_tmr = none;
  armed = none;
  next_tmr = 0;
  callbacks = [];
}

abbrev minute : ℕ
minute = 60_000_000_000

-- pauseFor, for a number of minutes that is zero or not negative, at the time `now`
abbrev pub pause_minutes : ℕ → PauseState → ℕ → PauseState
pause_minutes zero s now = record s {
  paused = true;
  pause_end = none;
  pause_tmr = none;
  armed = none;
}
pause_minutes (suc n) s now = record s {
  paused = true;
  pause_end = some (now + suc n * minute);
  pause_tmr = some s.next_tmr;
  armed = some s.next_tmr;
  next_tmr = s.next_tmr + 1;
}

unfoldable pub pause_for : ℤ → PauseState → ℕ → PauseState × ℕ
pause_for (negsuc n) s now = (pause_minutes 0 s now, 0)
pause_for (pos n) s now = (pause_minutes n s now, n)

-- resumeNow, with whether it ended a pause
unfoldable pub resume_now : PauseState → PauseState × Bool
resume_now s =
    (record s { paused = false; pause_end = none; pause_tmr = none; armed = none }, s.paused)

-- The minutes that the request for a pause applies under the policy's limit (web.go)
unfoldable applied_minutes : ℤ → ℤ → ℤ
applied_minutes limit minutes =
    let requested = if ltb_ℤ minutes (pos 0) then pos 0 else minutes in
    if ltb_ℤ (pos 0) limit && (eqb_ℤ requested (pos 0) || ltb_ℤ limit requested)
    then limit
    else requested

-- The limits that applyEngineSettings hands to the engine: upload, download
unfoldable pub engine_limits : Policy → Settings → Bool → Bool → ℤ × ℤ
engine_limits p cfg lan_share paused =
    let effective = apply p cfg in
    if paused
    then (pos 1, pos 1)
    else (if lan_share then effective.max_upload_kbps else pos 1, effective.max_download_kbps)
