-- ===== src/Safepath/Tests.antt =====
-- Tests and witnesses for the checks of names and infohashes.
use hali_client.Base.{
  Bool, true, false, Str, codes, ◌≡◌, refl, trim_space, contains, str_eq, is_empty, to_lower,
}
use hali_client.Safepath.{is_valid_infohash, is_safe_filename, runes_pass, member}

abbrev any_utf8 : Str → Bool
any_utf8 s = true

abbrev sample : Str
sample = codes "0123456789abcdefABCDEF0123456789abcdef01"

sample_valid : is_valid_infohash sample ≡ true
unfolding is_valid_infohash
sample_valid = refl

device_refused : is_safe_filename any_utf8 (codes " Con.gguf ") ≡ false
unfolding is_safe_filename trim_space runes_pass member contains str_eq is_empty to_lower
device_refused = refl

name_safe : is_safe_filename any_utf8 (codes " a.gguf") ≡ true
unfolding is_safe_filename trim_space runes_pass member contains str_eq is_empty to_lower
name_safe = refl

-- Only the last extension is taken off before the test of device names.
device_passes : is_safe_filename any_utf8 (codes "con.tar.gz") ≡ true
unfolding is_safe_filename trim_space runes_pass member contains str_eq is_empty to_lower
device_passes = refl
