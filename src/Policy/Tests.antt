-- ===== src/Policy/Tests.antt =====
-- Runs of the policy on concrete registries and settings.
use hali_client.Base.{ℕ, ◌≡◌, refl, Option, none, some, Str, codes, str_eq, if◌then◌else◌, [], ◌∷◌}
use hali_client.Base.Int.{pos}
use hali_client.Policy.{Settings, Policy, apply, clamped, load, locked_fields}

abbrev registry : Str → Str → Option ℕ
registry subkey name =
    if str_eq name (codes "MaxUploadKBps")
    then some 500
    else if str_eq name (codes "MaxPauseMinutes")
    then some 9000
    else none

abbrev site : Policy
site = load registry

abbrev unlimited : Settings
unlimited = record { max_upload_kbps = pos 0; max_download_kbps = pos 70 }

site_limit : site.max_upload_kbps ≡ some (pos 500)
unfolding load str_eq
site_limit = refl

site_locked : locked_fields site ≡ codes "max_upload_kbps" ∷ []
unfolding load str_eq locked_fields
site_locked = refl

unlimited_effective : (apply site unlimited).max_upload_kbps ≡ pos 500
unfolding load str_eq apply clamped
unlimited_effective = refl
