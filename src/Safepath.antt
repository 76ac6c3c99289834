-- ===== src/Safepath.antt =====
-- internal/safepath/safepath.go: checks of file names and infohashes that come from peers.
mod Tests
use hali_client.Base.{
  ℕ, Bool, true, false, List, [], ◌∷◌, ◌++◌, ◌&&◌, ◌||◌, not, Str, codes, all, length, str_eq,
  is_empty, trim_space, to_lower, contains, dot_dot, leb, ltb, ◌==◌, reverse, if◌then◌else◌,
}

abbrev pub is_hex : ℕ → Bool
is_hex c = (leb b'0' c && leb c b'9') || (leb b'a' c && leb c b'f') || (leb b'A' c && leb c b'F')

unfoldable pub all_hex : Str → Bool
all_hex [] = true
all_hex (c ∷ cs) = if not (is_hex c) then false else all_hex cs

unfoldable pub is_valid_infohash : Str → Bool
unfolding all_hex
is_valid_infohash s = if not (length s == 40) then false else all_hex s

unfoldable pub is_valid_infohash_v2 : Str → Bool
unfolding all_hex
is_valid_infohash_v2 s = if not (length s == 64) then false else all_hex s

-- windowsReserved
abbrev pub windows_reserved : List Str
windows_reserved =
    codes "con"
    ∷ codes "prn"
    ∷ codes "aux"
    ∷ codes "nul"
    ∷ codes "com0"
    ∷ codes "com1"
    ∷ codes "com2"
    ∷ codes "com3"
    ∷ codes "com4"
    ∷ codes "com5"
    ∷ codes "com6"
    ∷ codes "com7"
    ∷ codes "com8"
    ∷ codes "com9"
    ∷ codes "lpt0"
    ∷ codes "lpt1"
    ∷ codes "lpt2"
    ∷ codes "lpt3"
    ∷ codes "lpt4"
    ∷ codes "lpt5"
    ∷ codes "lpt6"
    ∷ codes "lpt7"
    ∷ codes "lpt8"
    ∷ codes "lpt9"
    ∷ []

unfoldable pub member : Str → List Str → Bool
unfolding str_eq
member w [] = false
member w (v ∷ vs) = str_eq v w || member w vs

-- A byte that the loop over the runes refuses; a rune beyond ASCII is none of these.
abbrev pub is_refused : ℕ → Bool
is_refused r = r == b'/' || r == b'\\' || r == 0 || ltb r 32

unfoldable pub runes_pass : Str → Bool
runes_pass [] = true
runes_pass (r ∷ rs) = if is_refused r then false else runes_pass rs

-- strings.TrimSuffix(name, filepath.Ext(name)), for a name without a separator: the bytes in front
-- of the last dot, or all of them
abbrev pub to_last_dot : Str → Str → Str
to_last_dot name [] = name
to_last_dot name (c ∷ cs) = if c == b'.' then reverse cs else to_last_dot name cs

abbrev pub without_ext : Str → Str
without_ext name = to_last_dot name (reverse name)

-- utf8.ValidString is a parameter.
module _ (valid_utf8 : Str → Bool) where
  -- IsSafeFilename behind the trimming
  unfoldable pub is_safe_trimmed : Str → Bool
  is_safe_trimmed name =
      if is_empty name || str_eq name (b'.' ∷ []) || str_eq name dot_dot
      then false
      else if ltb 255 (length name)
      then false
      else if not (runes_pass name)
      then false
      else if contains name dot_dot
      then false
      else if not (valid_utf8 name)
      then false
      else not (member (to_lower (without_ext name)) windows_reserved)

  unfoldable pub is_safe_filename : Str → Bool
  unfolding is_safe_trimmed
  is_safe_filename name = is_safe_trimmed (trim_space name)
