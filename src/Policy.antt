-- ===== src/Policy.antt =====
-- internal/policy/policy.go and store.go: the administrator's policy and what it does to the user's
-- settings. A pointer field is an `Option`; an `int` is an integer without a bound.
pub mod Limits
mod Tests
use hali_client.Base.{
  ℕ, Bool, true, false, not, ◌&&◌, ◌||◌, List, [], ◌∷◌, ◌++◌, Str, codes, Option, none, some, ◌==◌,
  if◌then◌else◌,
}
use hali_client.Base.Int.{ℤ, pos, ltb_ℤ, eqb_ℤ}

pub record Settings : Type 0 where
  pub max_upload_kbps : ℤ
  pub max_download_kbps : ℤ

pub record Policy : Type 0 where
  pub enable_lan_seeding : Option Bool
  pub max_upload_kbps : Option ℤ
  pub allow_wifi_seeding : Option Bool
  pub allow_vpn_seeding : Option Bool
  pub adaptive_throttling : Option Bool
  pub multicast_enabled : Option Bool
  pub torrent_enabled : Option Bool
  pub allow_user_pause : Option Bool
  pub max_pause_minutes : Option ℤ
  pub allow_focus_mode : Option Bool
  pub allow_user_change_bandwidth : Option Bool
  pub allow_user_change_lan : Option Bool

-- p != nil
abbrev pub is_set {ℓ} : {A : Type ℓ} → Option A → Bool
is_set none = false
is_set (some a) = true

unfoldable pub managed : Policy → Bool
managed p =
    is_set p.enable_lan_seeding
    || is_set p.max_upload_kbps
    || is_set p.allow_wifi_seeding
    || is_set p.allow_vpn_seeding
    || is_set p.adaptive_throttling
    || is_set p.multicast_enabled
    || is_set p.torrent_enabled
    || is_set p.allow_user_pause
    || is_set p.max_pause_minutes
    || is_set p.allow_focus_mode
    || is_set p.allow_user_change_bandwidth
    || is_set p.allow_user_change_lan

-- p != nil && *p
abbrev pub is_granted : Option Bool → Bool
is_granted none = false
is_granted (some b) = b

-- p != nil && !*p
abbrev pub is_denied : Option Bool → Bool
is_denied none = false
is_denied (some b) = not b

-- The keys that the map holds, each with the value true.
unfoldable pub locked_fields : Policy → List Str
locked_fields p =
    (if is_set p.max_upload_kbps && not (is_granted p.allow_user_change_bandwidth)
      then codes "max_upload_kbps" ∷ []
      else [])
    ++ (if is_denied p.allow_user_pause then codes "allow_user_pause" ∷ [] else [])
    ++ (if is_set p.enable_lan_seeding && not (is_granted p.allow_user_change_lan)
        then codes "enable_lan_seeding" ∷ []
        else [])

-- The upload limit of Resolver.Apply, under a ceiling that is set
unfoldable pub clamped : ℤ → ℤ → ℤ
clamped limit upload =
    let ceiling = if ltb_ℤ limit (pos 0) then pos 0 else limit in
    if ltb_ℤ (pos 0) ceiling && (eqb_ℤ upload (pos 0) || ltb_ℤ ceiling upload)
    then ceiling
    else upload

abbrev pub apply_limit : Option ℤ → Settings → Settings
apply_limit none user = user
apply_limit (some limit) user = record user { max_upload_kbps = clamped limit user.max_upload_kbps }

-- Resolver.Apply
unfoldable pub apply : Policy → Settings → Settings
apply p user = apply_limit p.max_upload_kbps user

abbrev pub or_true : Option Bool → Bool
or_true none = true
or_true (some b) = b

-- Resolver.AllowPause
unfoldable pub allow_pause : Policy → Bool
allow_pause p = or_true p.allow_user_pause

unfoldable pub pause_limit : Option ℤ → ℤ
pause_limit none = pos 0
pause_limit (some v) = if ltb_ℤ v (pos 0) then pos 0 else if ltb_ℤ (pos 1440) v then pos 1440 else v

-- Resolver.MaxPauseMinutes
unfoldable pub max_pause_minutes : Policy → ℤ
max_pause_minutes p = pause_limit p.max_pause_minutes

-- A registry value as a flag and as a number
abbrev pub to_flag : Option ℕ → Option Bool
to_flag none = none
to_flag (some v) = some (not (v == 0))

abbrev pub to_int : Option ℕ → Option ℤ
to_int none = none
to_int (some v) = some (pos v)

-- The store's ReadDWORD, by subkey and name: `none` for an absent value or an error.
unfoldable pub load : (Str → Str → Option ℕ) → Policy
load read = record {
  enable_lan_seeding = to_flag (read (codes "Network") (codes "EnableLanSeeding"));
  max_upload_kbps = to_int (read (codes "Network") (codes "MaxUploadKBps"));
  allow_wifi_seeding = to_flag (read (codes "Network") (codes "AllowWifiSeeding"));
  allow_vpn_seeding = to_flag (read (codes "Network") (codes "AllowVpnSeeding"));
  adaptive_throttling = to_flag (read (codes "Network") (codes "AdaptiveThrottling"));
  multicast_enabled = to_flag (read (codes "Features") (codes "MulticastEnabled"));
  torrent_enabled = to_flag (read (codes "Features") (codes "TorrentEnabled"));
  allow_user_pause = to_flag (read (codes "Controls") (codes "AllowUserPause"));
  max_pause_minutes = to_int (read (codes "Controls") (codes "MaxPauseMinutes"));
  allow_focus_mode = to_flag (read (codes "Controls") (codes "AllowFocusMode"));
  allow_user_change_bandwidth =
      to_flag (read (codes "Controls") (codes "AllowUserChangeBandwidth"));
  allow_user_change_lan = to_flag (read (codes "Controls") (codes "AllowUserChangeLan"));
}
