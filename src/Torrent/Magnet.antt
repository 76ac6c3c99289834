-- ===== src/Torrent/Magnet.antt =====
-- internal/torrent/magnet.go: magnet URIs of an infohash. url.QueryEscape is a parameter.
use hali_client.Base.{
  ℕ, ◌+◌, ◌/◌, ◌%◌, ◌||◌, not, List, [], ◌∷◌, ◌++◌, Str, codes, is_empty, to_lower, trim_space,
  length, ltb, ◌==◌, if◌then◌else◌, Result, ok, refuse, ◌>>◌, ◌&&◌,
}
use hali_client.Safepath.{member, is_valid_infohash_v2}

-- The loop of normalizeMagnetValues with the values seen so far
unfoldable pub new_values : List Str → List Str → List Str
new_values seen [] = []
new_values seen (v ∷ vs) =
    let trimmed = trim_space v in
    let skip = is_empty trimmed || member trimmed seen in
    let rest = new_values (if skip then seen else trimmed ∷ seen) vs in
    if skip then rest else trimmed ∷ rest

unfoldable pub normalize_magnet_values : List Str → List Str
normalize_magnet_values values = new_values [] values

abbrev pub hex_digit : ℕ → ℕ
hex_digit n = if ltb n 10 then n + 48 else n + 87

-- hex.EncodeToString
unfoldable pub encode_hex : List ℕ → Str
encode_hex [] = []
encode_hex (c ∷ cs) = hex_digit (c / 16) ∷ hex_digit (c % 16) ∷ encode_hex cs

pub data MagnetError : Type 0 where
  invalid_info_hash : MagnetError

-- The parameters of a magnet URI with one key
unfoldable pub write_values : (Str → Str) → Str → List Str → Str
write_values escape key [] = []
write_values escape key (v ∷ vs) = key ++ (escape v ++ write_values escape key vs)

-- buildMagnetFromInfoHash
unfoldable pub build_magnet :
    (Str → Str) → List ℕ → Str → Str → List Str → List Str → Result MagnetError Str
build_magnet escape info_hash info_hash_v2 name trackers webseeds =
    let v2 = trim_space info_hash_v2 in
    refuse (not (length info_hash == 20)) invalid_info_hash
    >> refuse (not (is_empty v2) && not (is_valid_infohash_v2 v2)) invalid_info_hash
    >> ok (
        codes "magnet:?xt=urn:btih:"
        ++ (encode_hex info_hash
            ++ ((if is_empty v2 then [] else codes "&xt=urn:btmh:1220" ++ to_lower v2)
                ++ ((if is_empty (trim_space name)
                      then []
                      else codes "&dn=" ++ escape (trim_space name))
                    ++ (write_values escape (codes "&tr=") (normalize_magnet_values trackers)
                        ++ write_values escape (codes "&ws=")
                            (normalize_magnet_values webseeds))))))
