-- ===== src/Protocol.antt =====
-- internal/protocol/parse.go: hali:// URLs from a browser. The functions of net/url are parameters.
pub mod Safe
mod Tests
use hali_client.Base.{
  ℕ, zero, suc, Bool, true, false, not, ◌&&◌, ◌||◌, List, [], ◌∷◌, ◌++◌, Str, codes, str_eq,
  is_empty, to_lower, trim_space, trim_prefix, has_prefix, contains_by, contains_byte, split,
  split_by, clean, length, all, leb, ltb, ◌==◌, Option, none, some, if◌then◌else◌, dot_dot, Result,
  ok, err, ◌>>=◌, ◌>>◌, refuse,
}

pub data ParseError : Type 0 where
  too_long malformed_url unsupported_scheme unsupported_action bad_encoding : ParseError
  traversal invalid_path empty_part invalid_namespace invalid_name : ParseError
  bad_query invalid_version invalid_file invalid_all : ParseError

pub record HaliUrl : Type 0 where
  pub action : Str
  pub namespace : Str
  pub name : Str
  pub version : Str
  pub file : Str
  pub all : Bool

-- The parts of a *url.URL that Parse reads
pub record Url : Type 0 where
  pub scheme : Str
  pub host : Str
  pub path : Str
  pub raw_query : Str

-- url.Parse, url.PathUnescape, and url.ParseQuery with the Get of its result
pub record UrlLibrary : Type 0 where
  pub parse_url : Str → Option Url
  pub path_unescape : Str → Option Str
  pub parse_query : Str → Option (Str → Str)

abbrev is_between : ℕ → ℕ → ℕ → Bool
is_between low high c = leb low c && leb c high

abbrev pub is_alphanumeric : ℕ → Bool
is_alphanumeric c = is_between b'A' b'Z' c || is_between b'a' b'z' c || is_between b'0' b'9' c

-- [A-Za-z0-9._-]
abbrev pub is_name_byte : ℕ → Bool
is_name_byte c = is_alphanumeric c || c == b'.' || c == b'_' || c == b'-'

-- ^[A-Za-z0-9][A-Za-z0-9._-]{0,n}$
unfoldable pub matches_name : ℕ → Str → Bool
matches_name n [] = false
matches_name n (c ∷ cs) = is_alphanumeric c && all is_name_byte cs && leb (length cs) n

-- rSHA
unfoldable pub matches_sha : Str → Bool
matches_sha s = all (λ c. is_between b'0' b'9' c || is_between b'a' b'f' c) s && length s == 40

-- rVersion
unfoldable pub matches_version : Str → Bool
matches_version s = all is_name_byte s && leb 1 (length s) && leb (length s) 80

unfoldable pub repository_id : HaliUrl → Str
repository_id h = h.namespace ++ (b'/' ∷ h.name)

unfoldable pub revision : HaliUrl → Str
revision h =
    if is_empty h.version || str_eq h.version (codes "latest") then codes "main" else h.version

-- `if v, err := f(); err != nil`
abbrev pub or_error {ℓ} : {A : Type ℓ} → ParseError → Option A → Result ParseError A
or_error e none = err e
or_error e (some a) = ok a

unfoldable pub parse_all_flag : Str → Result ParseError Bool
parse_all_flag raw =
    let v = trim_space (to_lower raw) in
    if is_empty v then ok false else if str_eq v (codes "1") then ok true else err invalid_all

abbrev pub is_plain_segment : Str → Bool
is_plain_segment s = not (is_empty s || str_eq s (codes ".") || str_eq s dot_dot)

-- sanitizeRequestedFile after its trim, for a file that is not empty
unfoldable pub check_file : Str → Result ParseError Str
check_file file =
    refuse (ltb 512 (length file)) invalid_file
    >> refuse (contains_byte b'\\' file) invalid_file
    >> refuse (contains_by (λ c. c == 13 || c == 10 || c == 9) file) invalid_file
    >> refuse (has_prefix file (codes "/")) invalid_file
    >> refuse (not (all is_plain_segment (split b'/' file))) invalid_file
    >> ok file

unfoldable pub sanitize_requested_file : Str → Result ParseError Str
sanitize_requested_file raw =
    let file = trim_space raw in if is_empty file then ok [] else check_file file

unfoldable pub check_version : Str → Result ParseError Str
check_version version =
    refuse
      (not (is_empty version)
        && not (str_eq version (codes "latest"))
        && not (matches_sha version)
        && not (matches_version version))
      invalid_version
    >> ok version

-- The namespace and the name of the segments of a path
unfoldable pub names_of : List Str → Result ParseError (Str × Str)
names_of (namespace ∷ name ∷ []) =
    refuse (is_empty namespace) empty_part
    >> refuse (is_empty name) empty_part
    >> refuse (not (matches_name 63 namespace)) invalid_namespace
    >> refuse (not (matches_name 127 name)) invalid_name
    >> ok (namespace, name)
names_of _ = err invalid_path

-- Parse from the query on
unfoldable pub with_query : Str → Str × Str → (Str → Str) → Result ParseError HaliUrl
with_query action names get = do
  version ← check_version (get (codes "version"))
  file ← sanitize_requested_file (get (codes "file"))
  everything ← parse_all_flag (get (codes "all"))
  ok (record {
    action = action;
    namespace = names.0;
    name = names.1;
    version = version;
    file = file;
    all = everything;
  })

-- Parse
unfoldable pub parse : UrlLibrary → Str → Result ParseError HaliUrl
parse lib raw = do
  _ ← refuse (ltb 2048 (length raw)) too_long
  u ← or_error malformed_url (lib.parse_url raw)
  _ ← refuse (not (str_eq (to_lower u.scheme) (codes "hali"))) unsupported_scheme
  _ ← refuse (not (str_eq (to_lower u.host) (codes "model"))) unsupported_action
  decoded ← or_error bad_encoding (lib.path_unescape u.path)
  _ ← refuse (not (all (λ s. not (str_eq s dot_dot)) (split b'/' decoded))) traversal
  names ← names_of (split b'/' (trim_prefix (clean decoded) (codes "/")))
  get ← or_error bad_query (lib.parse_query u.raw_query)
  with_query (to_lower u.host) names get
