-- ===== src/Config.antt =====
-- internal/config/config.go: the settings that the client reads from its configuration. The file itself,
-- the environment and the JSON decoder are not modelled.
pub mod Comments
mod Tests
use hali_client.Base.{
  ℕ, ◌+◌, ◌*◌, ◌/◌, Bool, true, false, not, ◌&&◌, List, Str, codes, is_empty, trim_space, Option,
  none, some, if◌then◌else◌,
}
use hali_client.Base.Int.{ℤ, pos, pos_part, ltb_ℤ, leb_ℤ}

-- What decides whether a seeding client is used, of QBittorrentConfig and TransmissionConfig
pub record SeedingClient : Type 0 where
  pub enabled : Bool
  pub url : Str

-- File, with the settings that the functions below read
pub record File : Type 0 where
  pub debug : Option Bool
  pub telemetry_enabled : Option Bool
  pub registry_ingest_url : Str
  pub lan_hmac_enabled : Option Bool
  pub max_upload_mbps : ℤ
  pub max_download_mbps : ℤ
  pub pull_concurrency : ℤ
  pub torrent_meta_timeout_ms : ℤ
  pub ipc_deadline_ms : ℤ
  pub launch_timeout_ms : ℤ
  pub q_bittorrent : Option SeedingClient
  pub transmission : Option SeedingClient

abbrev pub default_pull_concurrency : ℤ
default_pull_concurrency = pos 1

abbrev pub max_pull_concurrency : ℤ
max_pull_concurrency = pos 32

-- The defaults of the timeouts, in milliseconds
abbrev pub default_torrent_meta_timeout : ℤ
default_torrent_meta_timeout = pos 60000

abbrev pub default_ipc_deadline : ℤ
default_ipc_deadline = pos 30000

abbrev pub default_launch_timeout : ℤ
default_launch_timeout = pos 5000

abbrev positive_or : ℤ → ℤ → ℤ
positive_or n default_value = if ltb_ℤ (pos 0) n then n else default_value

abbrev flag_or : Option Bool → Bool → Bool
flag_or none default_value = default_value
flag_or (some b) default_value = b

unfoldable pub torrent_meta_timeout : File → ℤ
torrent_meta_timeout f = positive_or f.torrent_meta_timeout_ms default_torrent_meta_timeout

unfoldable pub ipc_deadline : File → ℤ
ipc_deadline f = positive_or f.ipc_deadline_ms default_ipc_deadline

unfoldable pub launch_timeout : File → ℤ
launch_timeout f = positive_or f.launch_timeout_ms default_launch_timeout

abbrev pub telemetry_enabled_value : File → Bool
telemetry_enabled_value f = flag_or f.telemetry_enabled true

abbrev pub debug_value : File → Bool
debug_value f = flag_or f.debug false

abbrev pub lan_hmac_enabled_value : File → Bool
lan_hmac_enabled_value f = flag_or f.lan_hmac_enabled false

unfoldable pub registry_ingest_url_value : File → Str
registry_ingest_url_value f =
    let value = trim_space f.registry_ingest_url in
    if not (is_empty value) then value else codes "https://api.hali.network/ingest"

-- MaxUploadKBpsValue and MaxDownloadKBpsValue
abbrev pub kbps_of : ℤ → ℤ
kbps_of mbps = if leb_ℤ mbps (pos 0) then pos 0 else pos (pos_part mbps * 1024)

unfoldable pub max_upload_kbps_value : File → ℤ
max_upload_kbps_value f = kbps_of f.max_upload_mbps

unfoldable pub max_download_kbps_value : File → ℤ
max_download_kbps_value f = kbps_of f.max_download_mbps

unfoldable pub pull_concurrency_value : File → ℤ
pull_concurrency_value f =
    if ltb_ℤ f.pull_concurrency (pos 1)
    then default_pull_concurrency
    else if ltb_ℤ max_pull_concurrency f.pull_concurrency
    then max_pull_concurrency
    else f.pull_concurrency

-- math.Round(float64(kbps) / 1024.0), which is exact for a positive limit: halves go up
abbrev pub mbps_of : ℤ → ℤ
mbps_of kbps = if leb_ℤ kbps (pos 0) then pos 0 else pos ((pos_part kbps + 512) / 1024)

unfoldable pub set_max_upload_kbps : ℤ → File → File
set_max_upload_kbps kbps f = record f { max_upload_mbps = mbps_of kbps }

unfoldable pub set_max_download_kbps : ℤ → File → File
set_max_download_kbps kbps f = record f { max_download_mbps = mbps_of kbps }

abbrev is_usable : Option SeedingClient → Bool
is_usable none = false
is_usable (some c) = c.enabled && not (is_empty (trim_space c.url))

abbrev pub q_bittorrent_enabled : File → Bool
q_bittorrent_enabled f = is_usable f.q_bittorrent

abbrev pub transmission_enabled : File → Bool
transmission_enabled f = is_usable f.transmission
