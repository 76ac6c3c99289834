-- ===== src/Events.antt =====
-- internal/events/types.go, worker.go, client.go and the queue of queue.go: pull events that wait on
-- disk until the registry has them. The queue maps a file's path to its event, in the order of the
-- paths; times are seconds, and the zero time is `none`. The server, the node's keys, the encoding
-- of times and the failures of the file system are parameters.
pub mod Delay
pub mod Attempts
pub mod Settled
pub mod Drain
mod Tests
use hali_client.Base.{
  ℕ, zero, suc, ◌+◌, ◌*◌, Bool, true, false, not, ◌&&◌, ◌||◌, List, [], ◌∷◌, Str, codes, str_eq,
  is_empty, to_lower, trim_space, join, Option, none, some, Dict, insert, delete, leb, ltb, ◌==◌,
  if◌then◌else◌, Result, ok, err, ◌>>=◌,
}

pub record ModelPullEvent : Type 0 where
  pub model_id : Str
  pub revision : Str
  pub info_hash : Str
  pub publisher_pub_key : Str
  pub publisher_sig : Str
  pub model_size_bytes : ℕ
  pub quantization : Str
  pub magnet : Str
  pub source_url : Str
  pub local_hash : Str
  pub timestamp : ℕ
  pub delivery_attempts : ℕ
  pub next_attempt_after : Option ℕ

pub data SendError : Type 0 where
  http : ℕ → SendError
  other : SendError

-- What the server makes of one attempt: the status of the response to the HEAD request for an
-- infohash and to the POST of an event, `none` if there is no response, and whether the torrent
-- file could be read into the request's body.
pub record Ingest : Type 0 where
  pub head : Str → Option ℕ
  pub post : ModelPullEvent → Option ℕ
  pub encodes : ModelPullEvent → Bool

abbrev pub exists_status : Option ℕ → Result SendError Bool
exists_status none = err other
exists_status (some status) =
    if status == 200
    then ok true
    else if status == 404 || status == 405 || status == 501
    then ok false
    else err (http status)

-- IngestClient.exists, with the check of ingestExistsURL
unfoldable pub exists_on : Ingest → Str → Result SendError Bool
exists_on server infohash =
    let hash = to_lower (trim_space infohash) in
    if is_empty hash then err other else exists_status (server.head hash)

abbrev pub post_status : Option ℕ → Result SendError (Unit {0})
post_status none = err other
post_status (some status) = if ltb status 200 || leb 300 status then err (http status) else ok tt

-- IngestClient.Send
unfoldable pub send : Ingest → ModelPullEvent → Result SendError (Unit {0})
send server event = exists_on server event.info_hash >>= λ known.
    if known
    then ok tt
    else if server.encodes event
    then post_status (server.post event)
    else err other

unfoldable pub is_retryable : SendError → Bool
is_retryable (http status) = status == 429 || leb 500 status
is_retryable other = true

unfoldable pub is_permanent : SendError → Bool
is_permanent e = not (is_retryable e)

-- The body of sendWithRetry's loop after an attempt that is not the last, where `rest` is the run of
-- the attempts after it.
unfoldable pub after_attempt :
    Bool
    → ℕ
    → Result SendError (Unit {0})
    → Result SendError (Unit {0}) × List ℕ
    → Result SendError (Unit {0}) × List ℕ
after_attempt stopped backoff (ok u) rest = (ok u, [])
after_attempt stopped backoff (err e) rest =
    if not (is_retryable e)
    then (err e, [])
    else if stopped
    then (err e, [])
    else (rest.0, backoff ∷ rest.1)

-- The loop of sendWithRetry from an attempt on, with `left` attempts after it, and the seconds that
-- it waited. `stopped` says whether the worker is stopped in the wait after an attempt.
unfoldable pub attempts_from :
    (ℕ → Result SendError (Unit {0}))
    → (ℕ → Bool)
    → ℕ
    → ℕ
    → ℕ
    → Result SendError (Unit {0}) × List ℕ
attempts_from try stopped zero attempt backoff = (try attempt, [])
attempts_from try stopped (suc left) attempt backoff =
    after_attempt (stopped attempt) backoff (try attempt) (
      attempts_from try stopped left (attempt + 1)
        (if ltb backoff 16 then backoff * 2 else backoff))

unfoldable pub send_with_retry :
    (ℕ → Ingest) → (ℕ → Bool) → ModelPullEvent → Result SendError (Unit {0}) × List ℕ
send_with_retry server stopped event = attempts_from (λ k. send (server k) event) stopped 4 0 1

-- The loop of retryDelay with `left` doublings
unfoldable pub double_delay : ℕ → ℕ → ℕ
double_delay zero delay = delay
double_delay (suc left) delay =
    let rest = double_delay left (delay * 2) in if leb 1800 (delay * 2) then 1800 else rest

unfoldable pub retry_delay : ℕ → ℕ
retry_delay zero = 30
retry_delay (suc n) = double_delay n 30

-- config's node key, the profile's key (empty if there is none), config's signature of a payload,
-- and the rendering of a time
pub record Keys : Type 0 where
  pub node_key : Option Str
  pub profile_key : Str
  pub sign : Str → Option Str
  pub format_time : ℕ → Str

unfoldable pub payload : Keys → ModelPullEvent → Str
payload keys event = join 10 (
    trim_space event.model_id
    ∷ trim_space event.revision
    ∷ to_lower (trim_space event.info_hash)
    ∷ trim_space event.magnet
    ∷ trim_space event.source_url
    ∷ trim_space event.local_hash
    ∷ keys.format_time event.timestamp
    ∷ event.publisher_pub_key
    ∷ [])

abbrev pub with_sig : ModelPullEvent → Option Str → Option ModelPullEvent
with_sig event none = none
with_sig event (some sig) = some (record event { publisher_sig = to_lower (trim_space sig) })

abbrev pub with_key : Keys → ModelPullEvent → Option Str → Option ModelPullEvent
with_key keys event none = none
with_key keys event (some key) =
    let pubkey = to_lower (trim_space key) in
    let attributed = record event { publisher_pub_key = pubkey } in
    if not (is_empty keys.profile_key) && not (str_eq keys.profile_key pubkey)
    then none
    else with_sig attributed (keys.sign (payload keys attributed))

-- withPublisherAttribution; `none` is an error
unfoldable pub with_publisher_attribution : Keys → ModelPullEvent → Option ModelPullEvent
with_publisher_attribution keys event = with_key keys event keys.node_key

abbrev pub max_delivery_attempts : ℕ
max_delivery_attempts = 8

abbrev pub is_waiting : ℕ → Option ℕ → Bool
is_waiting now none = false
is_waiting now (some t) = ltb now t

pub data Action : Type 0 where
  discard : Action
  store : ModelPullEvent → Action

-- What drain does with a file after the delivery of its event.
unfoldable pub after_delivery : ℕ → ModelPullEvent → Result SendError (Unit {0}) → Action
after_delivery now event (ok u) = discard
after_delivery now event (err e) =
    let attempts = event.delivery_attempts + 1 in
    if is_permanent e
    then discard
    else if leb max_delivery_attempts attempts
    then discard
    else store (record event {
      delivery_attempts = attempts;
      next_attempt_after = some (now + retry_delay attempts);
    })

-- Which calls on the queue fail.
pub record QueueFaults : Type 0 where
  pub list_fails : Bool
  pub delete_fails : Str → Bool
  pub update_fails : Str → Bool

-- The queue after an action, `none` where the call fails.
abbrev pub act : QueueFaults → Str → Action → Dict ModelPullEvent → Option (Dict ModelPullEvent)
act faults path discard queue = if faults.delete_fails path then none else some (delete path queue)
act faults path (store event) queue =
    if faults.update_fails path then none else some (insert path event queue)

abbrev pub or_old {ℓ} : {A : Type ℓ} → Option A → A → A
or_old none a = a
or_old (some b) a = b

abbrev pub goes_on {ℓ} : {A : Type ℓ} → Option A → Bool
goes_on none = false
goes_on (some a) = true

module _ (keys : Keys) (deliver : ModelPullEvent → Result SendError (Unit {0}))
    (faults : QueueFaults) (now : ℕ) where
  -- The action on an event that is due; `none` if it cannot be attributed.
  unfoldable pub action_on : ModelPullEvent → Option Action
  action_on event = elim (with_publisher_attribution keys event) [
    | none ↦ none
    | some attributed ↦ some (after_delivery now attributed (deliver attributed))
  ]

  -- The queue after an event that is due; `none` ends the loop
  abbrev pub take_action : Option Action → Str → Dict ModelPullEvent → Option (Dict ModelPullEvent)
  take_action none path queue = none
  take_action (some a) path queue = act faults path a queue

  -- The loop of drain over the events that List returned
  unfoldable pub drain_loop : Dict ModelPullEvent → Dict ModelPullEvent → Dict ModelPullEvent
  drain_loop [] queue = queue
  drain_loop ((path, event) ∷ queued) queue =
      let waiting = is_waiting now event.next_attempt_after in
      let next = take_action (action_on event) path queue in
      let rest = drain_loop queued (if waiting then queue else or_old next queue) in
      if waiting then rest else if goes_on next then rest else queue

-- drain; `telemetry` is the setting of the configuration, `none` if that cannot be loaded
unfoldable pub drain :
    Keys
    → (ℕ → Ingest)
    → (ℕ → Bool)
    → QueueFaults
    → Option Bool
    → ℕ
    → Dict ModelPullEvent
    → Dict ModelPullEvent
drain keys server stopped faults (some true) now queue =
    if faults.list_fails
    then queue
    else drain_loop keys (λ e. (send_with_retry server stopped e).0) faults now queue queue
drain keys server stopped faults _ now queue = queue
