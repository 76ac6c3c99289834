-- ===== src/Daemon/Lan/Tests.antt =====
-- Tests and witnesses for the hint cache.
use hali_client.Base.{
  ◌+◌, ◌*◌, ℕ, true, false, [], ◌∷◌, ◌≡◌, refl, arith, Str, codes, str_eq, is_empty, Option, none,
  some, lookup, insert,
}
use hali_client.Base.Int.{pos}
use hali_client.Model.{parse, parse_parts, valid, is_safe_path_component}
use hali_client.Safepath.{is_valid_infohash}
use hali_client.Daemon.Lan.{
  LanIndex, LanMessage, LanModelAnnounce, new_lan_index, update, allow_rate, allow_bucket, is_stale,
  store_models, tally, accept, put_hint, replace_hint, checked_v2, reason_for, no_reason, second,
}
use hali_client.Daemon.Lan.Bounds.{new-IsSound, update-IsSound}
use hali_client.Daemon.Lan.Hints.{IsSound}
use hali_client.Daemon.Lan.Rate.{passed, rate_window}
use hali_client.Daemon.Lan.Receive.{
  Crypto, IsFaithful, sign, sign_lan_message, verify_lan_message, verify-sign,
}

abbrev announce : LanModelAnnounce
announce = record {
  model_id = codes "mistral:7b:instruct:q4_k_m";
  infohash = codes "0123456789abcdefABCDEF0123456789abcdef01";
  infohash_v2 = [];
  hf_repo = codes " o/r ";
  revision = codes "main";
}

abbrev message : LanMessage
message = record {
  version = codes "1";
  node_id = codes "node-a";
  ts = pos 100;
  port = pos 42;
  models = announce ∷ announce ∷ [];
  sig = [];
}

abbrev start : LanIndex
start = new_lan_index (codes "me")

abbrev show_addr : Str → ℕ → Option Str
show_addr ip port = some ip

abbrev noon : ℕ
noon = 110 * second

stored_twice :
    (update show_addr start message (codes "node-a") (some (codes "peer")) noon).1
    ≡ record { stored = 2; dropped = 0; reason = no_reason }
unfolding update allow_rate allow_bucket is_stale store_models tally accept parse parse_parts valid
    is_safe_path_component is_valid_infohash put_hint replace_hint lookup insert checked_v2
    reason_for str_eq is_empty
stored_twice = refl

abbrev filled : LanIndex
filled = (update show_addr start message (codes "node-a") (some (codes "peer")) noon).0

filled-IsSound : IsSound filled
filled-IsSound =
    update-IsSound show_addr start message (codes "node-a") (some (codes "peer")) noon
      (new-IsSound (codes "me"))

update-IsSound_example :
    IsSound (update show_addr filled message (codes "node-b") none (noon + 1)).0
update-IsSound_example =
    update-IsSound show_addr filled message (codes "node-b") none (noon + 1) filled-IsSound

rate_window_example : passed (some (record { count = 10; reset = 3 })) (4 ∷ 5 ∷ []) ≡ 2
rate_window_example =
    rate_window (some (record { count = 10; reset = 3 })) 4 (5 ∷ []) (omega arith) (omega arith)

-- Functions that meet what the code relies on: base64 is replaced by a mark in front.
abbrev unmark : Str → Option Str
unmark [] = none
unmark (c ∷ cs) = some cs

abbrev toy : Crypto
toy = record {
  marshal = λ m. some m.node_id;
  hmac_sha256 = λ k p. k;
  encode = λ s. b'=' ∷ s;
  decode = unmark;
}

toy-IsFaithful : IsFaithful toy
unfolding is_empty
toy-IsFaithful = record { decode-encode = λ s. refl; encode_nonempty = λ k p. refl }

verify-sign_example :
    verify_lan_message toy (codes "k") (record message { sig = codes "=k" }) ≡ true
unfolding sign_lan_message sign
verify-sign_example =
    verify-sign toy (codes "k") message (record message { sig = codes "=k" }) toy-IsFaithful refl

unsigned : verify_lan_message toy (codes "k") message ≡ false
unfolding verify_lan_message is_empty
unsigned = refl
