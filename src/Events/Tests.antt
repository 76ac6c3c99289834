-- ===== src/Events/Tests.antt =====
-- Runs of the worker on concrete queues and servers.
use hali_client.Base.{
  ℕ, zero, suc, ◌+◌, ◌*◌, ◌≤◌, ◌<◌, ◌≡◌, refl, Bool, true, false, List, [], ◌∷◌, Str, codes,
  to_lower, trim_space, str_eq, take, lookup, DistinctKeys, Option, none, some, Dict, Result, ok,
  err, All,
}
use hali_client.Base
use hali_client.Events
use hali_client.Events.{
  ModelPullEvent, SendError, http, Action, store, Ingest, Keys, is_permanent, after_delivery, send,
  send_with_retry, payload, with_publisher_attribution, drain, retry_delay,
}
use hali_client.Events.Attempts.{
  first_final, count_before, never_stopped, send_with_retry-first_final,
}
use hali_client.Events.Drain.{no_queue_faults, Attributable, lookup-drain}
use hali_client.Events.Settled.{IsSettled}

abbrev pulled : ModelPullEvent
pulled = record {
  model_id = codes "m";
  revision = codes "main";
  info_hash = codes "AB";
  publisher_pub_key = [];
  publisher_sig = [];
  model_size_bytes = 5;
  quantization = [];
  magnet = codes "x";
  source_url = codes "u";
  local_hash = codes "h";
  timestamp = 3;
  delivery_attempts = 2;
  next_attempt_after = none;
}

abbrev later : ModelPullEvent
later = record pulled { next_attempt_after = some 900 }

-- A server that is down twice, and takes the third request.
abbrev flaky : ℕ → Ingest
flaky zero = record { head = λ h. some 503; post = λ e. none; encodes = λ e. true }
flaky (suc zero) = record { head = λ h. none; post = λ e. none; encodes = λ e. true }
flaky k = record { head = λ h. some 404; post = λ e. some 201; encodes = λ e. true }

abbrev keys : Keys
keys = record {
  node_key = some (codes " K1 ");
  profile_key = [];
  sign = λ p. some (codes "S");
  format_time = λ t. codes "t";
}

flaky_run : send_with_retry flaky never_stopped pulled ≡ (ok tt, 1 ∷ 2 ∷ [])
unfolding send_with_retry Events.attempts_from Events.after_attempt send Events.exists_on
    Events.is_retryable Base.is_empty Base.trim_space Base.trim_left_by Base.trim_right_by
    Base.to_lower
flaky_run = refl

send_with_retry-first_final_example :
    ((send_with_retry flaky never_stopped pulled).0
      ≡ first_final (send (flaky 0) pulled) (
          send (flaky 1) pulled
          ∷ send (flaky 2) pulled
          ∷ send (flaky 3) pulled
          ∷ send (flaky 4) pulled
          ∷ []))
    × ((send_with_retry flaky never_stopped pulled).1
        ≡ take
            (count_before (send (flaky 0) pulled) (
              send (flaky 1) pulled
              ∷ send (flaky 2) pulled
              ∷ send (flaky 3) pulled
              ∷ send (flaky 4) pulled
              ∷ []))
            (1 ∷ 2 ∷ 4 ∷ 8 ∷ []))
send_with_retry-first_final_example = send_with_retry-first_final flaky pulled

abbrev attributed : ModelPullEvent
attributed = record pulled {
  publisher_pub_key = to_lower (trim_space (codes " K1 "));
  publisher_sig = to_lower (trim_space (codes "S"));
}

pulled-attributed : with_publisher_attribution keys pulled ≡ some attributed
unfolding with_publisher_attribution Base.is_empty
pulled-attributed = refl

abbrev retried : ModelPullEvent
retried = record pulled { delivery_attempts = 3; next_attempt_after = some (100 + retry_delay 3) }

stored_again : after_delivery 100 pulled (err (http 503)) ≡ store retried
unfolding after_delivery is_permanent Events.is_retryable
stored_again = refl

abbrev queue : Dict ModelPullEvent
queue = (codes "1.json", pulled) ∷ (codes "2.json", later) ∷ []

queue-DistinctKeys : DistinctKeys queue
unfolding lookup str_eq
queue-DistinctKeys = (refl, (refl, tt))

queue-Attributable : All (Attributable keys) queue
unfolding with_publisher_attribution Base.is_empty
queue-Attributable = ((_, refl), ((_, refl), tt))

lookup-drain_example :
    IsSettled keys
      (λ e. (send_with_retry flaky never_stopped e).0)
      100
      (lookup (codes "1.json") queue)
      (lookup
        (codes "1.json")
        (drain keys flaky never_stopped no_queue_faults (some true) 100 queue))
lookup-drain_example =
    lookup-drain keys flaky never_stopped 100 queue (codes "1.json") queue-DistinctKeys
      queue-Attributable
