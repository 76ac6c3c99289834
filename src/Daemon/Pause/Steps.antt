-- ===== src/Daemon/Pause/Steps.antt =====
-- The runs of the pause lock's holders.
use hali_client.Base.{
  ℕ, zero, suc, ◌≡◌, refl, sym, ap, ◌∙◌, arith, Bool, true, false, not, ◌&&◌, ◌⊎◌, inl, inr, List,
  [], ◌∷◌, ◌++◌, Option, none, some,
}
use hali_client.Base.Int.{ℤ, pos, negsuc, ◌≤ℤ◌, ◌<ℤ◌}
use hali_client.Policy.{is_set, Policy, Settings}
use hali_client.Policy.Limits.{apply-ceiling}
use hali_client.Daemon.Pause.{PauseState, new_state, pause_for, resume_now, engine_limits}

-- A request for a pause or a resumption, a timer that runs out, and the callback of such a timer.
pub data Step (s : PauseState) : PauseState → Type 0 where
  pause : (n : ℤ) (now : ℕ) → Step s (pause_for n s now).0
  resume : Step s (resume_now s).0
  run_out :
      (k : ℕ) → s.armed ≡ some k → Step s (record s { armed = none; callbacks = k ∷ s.callbacks })
  call_back :
      (k : ℕ) (ks ls : List ℕ)
      → s.callbacks ≡ ks ++ k ∷ ls
      → Step s (resume_now (record s { callbacks = ks ++ ls })).0

pub data Reachable : PauseState → Type 0 where
  start : Reachable new_state
  next : (s t : PauseState) → Reachable s → Step s t → Reachable t

-- The timer of the state will end its pause: it runs, or its callback waits for the lock.
abbrev pub IsPending : Option ℕ → Option ℕ → List ℕ → Type 0
IsPending none armed callbacks = Unit
IsPending (some k) armed callbacks =
    (armed ≡ some k) ⊎ ((ks : List ℕ) × (ls : List ℕ) × (callbacks ≡ ks ++ k ∷ ls))

pub record IsConsistent (s : PauseState) : Type 0 where
  pub ends : is_set s.pause_end ≡ is_set s.pause_tmr
  pub pauses : (is_set s.pause_tmr && not s.paused) ≡ false
  pub pending : IsPending s.pause_tmr s.armed s.callbacks

resumed-IsConsistent : (s : PauseState) → IsConsistent (resume_now s).0
unfolding resume_now
resumed-IsConsistent s = record { ends = refl; pauses = refl; pending = tt }

paused-IsConsistent : (n : ℤ) (s : PauseState) (now : ℕ) → IsConsistent (pause_for n s now).0
unfolding pause_for
paused-IsConsistent (negsuc n) s now = record { ends = refl; pauses = refl; pending = tt }
paused-IsConsistent (pos zero) s now = record { ends = refl; pauses = refl; pending = tt }
paused-IsConsistent (pos (suc n)) s now = record { ends = refl; pauses = refl; pending = inl refl }

some-injective : (j k : ℕ) → some j ≡ some k → j ≡ k
some-injective j k h = cc h

run_out-IsPending :
    (o : Option ℕ) (armed : Option ℕ) (callbacks : List ℕ) (k : ℕ)
    → armed ≡ some k
    → IsPending o armed callbacks
    → IsPending o none (k ∷ callbacks)
run_out-IsPending none armed callbacks k e p = tt
run_out-IsPending (some j) armed callbacks k e (inl a) =
    inr ([], callbacks, ap (λ i. i ∷ callbacks) (some-injective k j (sym e ∙ a)))
run_out-IsPending (some j) armed callbacks k e (inr (ks, ls, c)) = inr (k ∷ ks, ls, ap (◌∷◌ k) c)

Step-IsConsistent : (s t : PauseState) → IsConsistent s → Step s t → IsConsistent t
Step-IsConsistent s t c (pause n now) = paused-IsConsistent n s now
Step-IsConsistent s t c resume = resumed-IsConsistent s
Step-IsConsistent s t c (run_out k e) = record {
  ends = c.ends;
  pauses = c.pauses;
  pending = run_out-IsPending s.pause_tmr s.armed s.callbacks k e c.pending;
}
Step-IsConsistent s t c (call_back k ks ls e) =
    resumed-IsConsistent (record s { callbacks = ks ++ ls })

-- In whatever order requests, timers and callbacks take the lock, a state with an end of its pause
-- has a timer and is paused, and that timer still runs or its callback waits: a pause with an end is
-- never without something that ends it.
pub Reachable-IsConsistent : (s : PauseState) → Reachable s → IsConsistent s
Reachable-IsConsistent s start = record { ends = refl; pauses = refl; pending = tt }
Reachable-IsConsistent s (next r t h step) = Step-IsConsistent r s (Reachable-IsConsistent r h) step

-- A callback that waits for the lock when a new pause takes it can end that pause at once, however
-- long the pause is to be: it resumes the transfers and stops the new timer.
pub stale_callback :
    (s : PauseState) (n : ℤ) (now k : ℕ) (ks ls : List ℕ)
    → s.callbacks ≡ ks ++ k ∷ ls
    → (t : PauseState) × Step (pause_for n s now).0 t
      × ((pause_for n s now).0.paused ≡ true)
      × (t.paused ≡ false)
      × (t.armed ≡ none)
unfolding pause_for resume_now
stale_callback s (negsuc n) now k ks ls e = (_, call_back k ks ls e, refl, refl, refl)
stale_callback s (pos zero) now k ks ls e = (_, call_back k ks ls e, refl, refl, refl)
stale_callback s (pos (suc n)) now k ks ls e = (_, call_back k ks ls e, refl, refl, refl)

-- Whether the transfers are paused and whether the local network is served, the upload limit that the
-- engine gets is above zero, which would lift it, and within the policy's ceiling, if that is above
-- zero and the user's limit is not negative.
engine_limits-ceiling :
    (p : Policy) (cfg : Settings) (lan_share paused : Bool) (ceiling : ℤ)
    → p.max_upload_kbps ≡ some ceiling
    → pos 0 <ℤ ceiling
    → pos 0 ≤ℤ cfg.max_upload_kbps
    → (pos 0 <ℤ (engine_limits p cfg lan_share paused).0)
      × ((engine_limits p cfg lan_share paused).0 ≤ℤ ceiling)
unfolding engine_limits
engine_limits-ceiling p cfg true true ceiling e h k = (omega arith, omega (arith, h))
engine_limits-ceiling p cfg false true ceiling e h k = (omega arith, omega (arith, h))
engine_limits-ceiling p cfg false false ceiling e h k = (omega arith, omega (arith, h))
engine_limits-ceiling p cfg true false ceiling e h k =
    let (low, high, same) = apply-ceiling p cfg ceiling e h k in (low, high)
