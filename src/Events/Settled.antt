-- ===== src/Events/Settled.antt =====
-- internal/events/worker.go: what becomes of one file of the queue in a drain.
use Prim.Native.Nat.{min}
use hali_client.Base.{
  ◌≢◌, ◌⊎◌, ◌<◌, ◌≤◌, ◌+◌, ◌*◌, ◌^◌, arith, ok, err, leb, ℕ, ◌≡◌, refl, true, false, Option, none,
  some, Bool-cases, inl, inr, Result,
}
use hali_client.Events.Delay.{retry_delay-add}
use hali_client.Events.{
  http, other, is_permanent, is_retryable, ModelPullEvent, SendError, Action, discard, store, Keys,
  with_publisher_attribution, after_delivery, is_waiting,
}

-- The file of an event after an action.
abbrev pub kept_by : Option Action → Option ModelPullEvent
kept_by none = none
kept_by (some discard) = none
kept_by (some (store event)) = some event

-- Not a failure of the server or of the connection, which can pass
abbrev pub IsForGood : SendError → Type 0
IsForGood (http status) = (status ≢ 429) × (status < 500)
IsForGood other = ⊥

-- A file of a failed event: gone when the failure is for good or the eighth, and else the event with
-- its failures counted and the time of its next attempt
abbrev pub IsAfterFailure : ℕ → ModelPullEvent → SendError → Option ModelPullEvent → Type 0
IsAfterFailure now e error after =
    (IsForGood error × (after ≡ none))
    ⊎ ((7 ≤ e.delivery_attempts) × (after ≡ none))
    ⊎ ((IsForGood error → ⊥)
        × (e.delivery_attempts < 7)
        × (after
            ≡ some (record e {
              delivery_attempts = e.delivery_attempts + 1;
              next_attempt_after = some (now + min (30 * 2 ^ e.delivery_attempts) 1800);
            })))

abbrev pub IsAfterDelivery :
    ℕ → ModelPullEvent → Result SendError (Unit {0}) → Option ModelPullEvent → Type 0
IsAfterDelivery now e (ok u) after = after ≡ none
IsAfterDelivery now e (err error) after = IsAfterFailure now e error after

abbrev pub WaitsAt : ℕ → Option ℕ → Type 0
WaitsAt now none = ⊥
WaitsAt now (some t) = now < t

-- A file before and behind a drain
abbrev pub IsSettled :
    Keys
    → (ModelPullEvent → Result SendError (Unit {0}))
    → ℕ
    → Option ModelPullEvent
    → Option ModelPullEvent
    → Type 0
IsSettled keys deliver now none after = after ≡ none
IsSettled keys deliver now (some event) after =
    (WaitsAt now event.next_attempt_after × (after ≡ some event))
    ⊎ ((WaitsAt now event.next_attempt_after → ⊥)
        × (e : ModelPullEvent) × (with_publisher_attribution keys event ≡ some e)
        × IsAfterDelivery now e (deliver e) after)

pub is_waiting-WaitsAt : (now : ℕ) (o : Option ℕ) → is_waiting now o ≡ true → WaitsAt now o
is_waiting-WaitsAt now none h = cc h
is_waiting-WaitsAt now (some t) h = ground arith

pub WaitsAt-is_waiting : (now : ℕ) (o : Option ℕ) → is_waiting now o ≡ false → WaitsAt now o → ⊥
WaitsAt-is_waiting now none h w = w
WaitsAt-is_waiting now (some t) h w = ground arith

is_permanent-IsForGood : (e : SendError) → is_permanent e ≡ true → IsForGood e
unfolding is_permanent is_retryable
is_permanent-IsForGood (http status) h = ground arith
is_permanent-IsForGood other h = cc h

IsForGood-is_permanent : (e : SendError) → is_permanent e ≡ false → IsForGood e → ⊥
unfolding is_permanent is_retryable
IsForGood-is_permanent (http status) h (a, b) = ground arith
IsForGood-is_permanent other h w = w

after_failure :
    (now : ℕ) (e : ModelPullEvent) (error : SendError)
    → IsAfterFailure now e error (kept_by (some (after_delivery now e (err error))))
unfolding after_delivery
after_failure now e error = elim (Bool-cases (is_permanent error)) [
  | inl p ↦ rw p (inl (is_permanent-IsForGood error p, refl))
  | inr p ↦ elim (Bool-cases (leb 8 (e.delivery_attempts + 1))) [
    | inl q ↦ rw (p, q) (inr (inl (ground arith, refl)))
    | inr q ↦
        let few : e.delivery_attempts < 7 = ground arith in
        rw (p, q)
          (inr (
            inr
              (IsForGood-is_permanent error p, few, rw (retry_delay-add e.delivery_attempts) refl)))
  ]
]

pub after_delivery-IsAfterDelivery :
    (now : ℕ) (e : ModelPullEvent) (r : Result SendError (Unit {0}))
    → IsAfterDelivery now e r (kept_by (some (after_delivery now e r)))
unfolding after_delivery
after_delivery-IsAfterDelivery now e (ok u) = refl
after_delivery-IsAfterDelivery now e (err error) = after_failure now e error
