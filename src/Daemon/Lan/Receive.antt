-- ===== src/Daemon/Lan/Receive.antt =====
-- internal/daemon/lan.go, the checks of a received message, and internal/daemon/lan_crypto.go. The
-- JSON encoding, SHA-256 under HMAC and base64 are parameters, with what the code relies on.
use hali_client.Base.{
  ℕ, Bool, true, false, not, ◌&&◌, ◌||◌, [], ◌≡◌, arith, Str, codes, str_eq, str_eq_refl, is_empty,
  length, ltb, Option, none, some, Option-cases, subst, inl, inr, if◌then◌else◌,
}
use hali_client.Daemon.Lan.{LanIndex, LanMessage, UpdateResult, update}

-- The functions of other packages that the announcer calls.
pub record Crypto : Type 0 where
  pub marshal : LanMessage → Option Str
  pub hmac_sha256 : Str → Str → Str
  pub encode : Str → Str
  pub decode : Str → Option Str

-- base64 decodes what it encoded, and a digest is not empty.
pub record IsFaithful (c : Crypto) : Type 0 where
  pub decode-encode : (s : Str) → c.decode (c.encode s) ≡ some s
  pub encode_nonempty : (k p : Str) → is_empty (c.encode (c.hmac_sha256 k p)) ≡ false

unfoldable pub sign : Crypto → Str → Str → Str
sign c secret payload = c.encode (c.hmac_sha256 secret payload)

unfoldable pub verify : Crypto → Str → Str → Str → Bool
verify c secret payload sig = elim (c.decode sig) [
  | none ↦ false
  | some decoded ↦ str_eq (c.hmac_sha256 secret payload) decoded
]

-- signLANMessage; `none` is an encoding error
unfoldable pub sign_lan_message : Crypto → Str → LanMessage → Option LanMessage
unfolding sign
sign_lan_message c secret msg = elim (c.marshal (record msg { sig = [] })) [
  | none ↦ none
  | some payload ↦ some (record msg { sig = sign c secret payload })
]

unfoldable pub verify_lan_message : Crypto → Str → LanMessage → Bool
verify_lan_message c secret msg =
    if is_empty msg.sig then false else elim (c.marshal (record msg { sig = [] })) [
      | none ↦ false
      | some payload ↦ verify c secret payload msg.sig
    ]

verify_own :
    (c : Crypto) (secret payload : Str)
    → IsFaithful c
    → verify c secret payload (c.encode (c.hmac_sha256 secret payload)) ≡ true
unfolding verify
verify_own c secret payload f =
    rw (f.decode-encode (c.hmac_sha256 secret payload), verify)
      (str_eq_refl (c.hmac_sha256 secret payload))

-- A node verifies what another node with the same secret signed.
pub verify-sign :
    (c : Crypto) (secret : Str) (msg signed : LanMessage)
    → IsFaithful c
    → sign_lan_message c secret msg ≡ some signed
    → verify_lan_message c secret signed ≡ true
unfolding sign_lan_message verify_lan_message sign
verify-sign c secret msg signed f h = elim (Option-cases (c.marshal unsigned)) [
  | inl e ↦ absurd (ground arith)
  | inr (payload, e) ↦
      let done : record msg { sig = c.encode (c.hmac_sha256 secret payload) } ≡ signed =
        ground arith in
      subst (λ m. verify_lan_message c secret m ≡ true) done
        (rw (f.encode_nonempty secret payload) (rw e (verify_own c secret payload f)))
]
  where
    unsigned : LanMessage
    unsigned = record msg { sig = [] }

-- The body of the loop of runListen for a decoded message: the index after it, and the result of
-- the update, if it was called.
module _ (c : Crypto) (addr_port : Str → ℕ → Option Str) where
  unfoldable pub receive :
      Bool → Str → LanIndex → LanMessage → Option Str → ℕ → LanIndex × Option UpdateResult
  receive hmac_auth secret idx msg src now =
      let (idx', res) = update addr_port idx msg msg.node_id src now in
      if hmac_auth && is_empty msg.sig
      then (idx, none)
      else if hmac_auth && not (verify_lan_message c secret msg)
      then (idx, none)
      else if not (str_eq msg.version (codes "1"))
      then (idx, none)
      else if is_empty msg.node_id || ltb 128 (length msg.node_id)
      then (idx, none)
      else (idx', some res)
