-- ===== src/Events/Drain.antt =====
-- What a drain does to each event of the queue.
use hali_client.Base.{
  subst, ℕ, ◌≡◌, refl, sym, ap, ◌∙◌, Bool, true, false, [], ◌∷◌, Str, str_eq, str_eq_iff, Option,
  none, some, Dict, lookup, insert, delete, lookup-insert, lookup-delete, DistinctKeys,
  if◌then◌else◌, Bool-cases, inl, inr, Result, All,
}
use hali_client.Events.{
  ModelPullEvent, SendError, Action, discard, store, Keys, QueueFaults, Ingest,
  with_publisher_attribution, after_delivery, is_waiting, action_on, act, drain_loop, drain,
  send_with_retry,
}
use hali_client.Events.Settled.{
  kept_by, IsSettled, is_waiting-WaitsAt, WaitsAt-is_waiting, after_delivery-IsAfterDelivery,
}

abbrev pub no_queue_faults : QueueFaults
no_queue_faults = record {
  list_fails = false;
  delete_fails = λ p. false;
  update_fails = λ p. false;
}

some_eq {ℓ} : {A : Type ℓ} {a b : A} → some a ≡ some b → a ≡ b
some_eq h = cc h

-- Every event can be attributed.
abbrev pub Attributable : Keys → Str × ModelPullEvent → Type 0
Attributable keys (path, event) =
    (e : ModelPullEvent) × (with_publisher_attribution keys event ≡ some e)

module _ (keys : Keys) (deliver : ModelPullEvent → Result SendError (Unit {0})) (now : ℕ) where
  -- What becomes of a file with an event, the other files left aside, where `old` is the file.
  abbrev settled_from : Option ModelPullEvent → Option ModelPullEvent → Option ModelPullEvent
  settled_from none old = old
  settled_from (some event) old =
      if is_waiting now event.next_attempt_after
      then old
      else kept_by (action_on keys deliver no_queue_faults now event)

  abbrev settled : Option ModelPullEvent → Option ModelPullEvent
  settled file = settled_from file file

  lookup-act :
      (path p : Str) (a : Action) (queue : Dict ModelPullEvent)
      → (q : Dict ModelPullEvent) × (act no_queue_faults path a queue ≡ some q)
        × (lookup p q ≡ (if str_eq path p then kept_by (some a) else lookup p queue))
  lookup-act path p discard queue = (delete path queue, refl, lookup-delete path p queue)
  lookup-act path p (store event) queue =
      (insert path event queue, refl, lookup-insert path p event queue)

  action_on-attributed :
      (event e : ModelPullEvent)
      → with_publisher_attribution keys event ≡ some e
      → action_on keys deliver no_queue_faults now event ≡ some (after_delivery now e (deliver e))
  unfolding action_on
  action_on-attributed event e h = rw (h, action_on) refl

  lookup-waiting :
      (p path : Str) (event : ModelPullEvent) (queued : Dict ModelPullEvent)
      (old : Option ModelPullEvent)
      → lookup path queued ≡ none
      → is_waiting now event.next_attempt_after ≡ true
      → settled_from (lookup p queued) old ≡ settled_from (lookup p ((path, event) ∷ queued)) old
  unfolding lookup
  lookup-waiting p path event queued old fresh w = elim (Bool-cases (str_eq path p)) [
    | inl e ↦ rw (e, w) (rw ((str_eq_iff path p).0 e) at (ap (λ f. settled_from f old) fresh))
    | inr e ↦ rw e refl
  ]

  lookup-due :
      (p path : Str) (event : ModelPullEvent) (queued : Dict ModelPullEvent)
      (old new : Option ModelPullEvent)
      → lookup path queued ≡ none
      → is_waiting now event.next_attempt_after ≡ false
      → new ≡ (
          if str_eq path p then kept_by (action_on keys deliver no_queue_faults now event) else old)
      → settled_from (lookup p queued) new ≡ settled_from (lookup p ((path, event) ∷ queued)) old
  unfolding lookup
  lookup-due p path event queued old new fresh w n = elim (Bool-cases (str_eq path p)) [
    | inl e ↦
        rw (e, w) (rw ((str_eq_iff path p).0 e) at (ap (λ f. settled_from f new) fresh) ∙ rw e at n)
    | inr e ↦ rw e (ap (settled_from (lookup p queued)) (rw e at n))
  ]

  lookup-drain_loop :
      (p : Str) (queued queue : Dict ModelPullEvent)
      → DistinctKeys queued
      → All (Attributable keys) queued
      → lookup p (drain_loop keys deliver no_queue_faults now queued queue)
        ≡ settled_from (lookup p queued) (lookup p queue)
  unfolding drain_loop
  lookup-drain_loop p [] queue u h = unfold lookup in refl
  lookup-drain_loop p ((path, event) ∷ queued) queue (fresh, u) ((e, attributed), h) =
      let a = after_delivery now e (deliver e) in
      let taken = action_on-attributed event e attributed in
      elim (Bool-cases (is_waiting now event.next_attempt_after)) [
        | inl w ↦ rw w (
            lookup-drain_loop p queued queue u h
            ∙ lookup-waiting p path event queued (lookup p queue) fresh w)
        | inr w ↦
            let (q, acted, found) = lookup-act path p a queue in
            rw (w, taken, acted)
              (lookup-drain_loop p queued q u h
                ∙ lookup-due p path event queued (lookup p queue) (lookup p q) fresh w
                    (rw (sym taken) at found))
      ]

lookup-Attributable :
    (keys : Keys) (p : Str) (queue : Dict ModelPullEvent) (event : ModelPullEvent)
    → All (Attributable keys) queue
    → lookup p queue ≡ some event
    → (e : ModelPullEvent) × (with_publisher_attribution keys event ≡ some e)
unfolding lookup
lookup-Attributable keys p [] event h found = cc found
lookup-Attributable keys p ((path, first) ∷ queue) event (a, h) found =
    elim (Bool-cases (str_eq path p)) [
      | inl same ↦
          let (e, k) = a in
          (e, ap (with_publisher_attribution keys) (sym (some_eq (rw same at found))) ∙ k)
      | inr ne ↦ lookup-Attributable keys p queue event h (rw ne at found)
    ]

settled-IsSettled :
    (keys : Keys) (deliver : ModelPullEvent → Result SendError (Unit {0})) (now : ℕ)
    (file : Option ModelPullEvent)
    → ((event : ModelPullEvent)
        → file ≡ some event
        → (e : ModelPullEvent) × (with_publisher_attribution keys event ≡ some e))
    → IsSettled keys deliver now file (settled keys deliver now file)
settled-IsSettled keys deliver now none h = refl
settled-IsSettled keys deliver now (some event) h =
    elim (Bool-cases (is_waiting now event.next_attempt_after)) [
      | inl w ↦ rw w (inl (is_waiting-WaitsAt now event.next_attempt_after w, refl))
      | inr w ↦
          let (e, a) = h event refl in
          rw (w, action_on-attributed keys deliver now event e a)
            (inr (
              WaitsAt-is_waiting now event.next_attempt_after w,
              e,
              a,
              after_delivery-IsAfterDelivery now e (deliver e),
            ))
    ]

-- A drain with telemetry on, of a queue with a file per path whose events can all be attributed and
-- with no failing call on the queue, settles every file by itself. An event whose next attempt is
-- later stays as it is. Of the others, with the attribution, one that is delivered goes, and so does
-- one that the server refuses for good (with a status below 500 other than 429) or that fails for the
-- eighth time; one that fails otherwise stays, with one failure more and its next attempt in thirty
-- seconds, doubled for each failure before, but in half an hour at most.
pub lookup-drain :
    (keys : Keys) (server : ℕ → Ingest) (stopped : ℕ → Bool) (now : ℕ) (queue : Dict ModelPullEvent)
    (p : Str)
    → DistinctKeys queue
    → All (Attributable keys) queue
    → IsSettled keys
        (λ e. (send_with_retry server stopped e).0)
        now
        (lookup p queue)
        (lookup p (drain keys server stopped no_queue_faults (some true) now queue))
unfolding drain
lookup-drain keys server stopped now queue p u h =
    let deliver : ModelPullEvent → Result SendError (Unit {0}) =
      λ e. (send_with_retry server stopped e).0 in
    subst (IsSettled keys deliver now (lookup p queue))
      (sym (lookup-drain_loop keys deliver now p queue queue u h))
      (settled-IsSettled keys deliver now (lookup p queue)
        (λ event. lookup-Attributable keys p queue event h))
