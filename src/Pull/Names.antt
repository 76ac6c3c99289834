-- ===== src/Pull/Names.antt =====
-- cmd/pull.go: the names that a pull derives from a repository, a revision and a file.
use hali_client.Base.{
  ℕ, Bool, false, not, ◌&&◌, ◌||◌, List, [], ◌∷◌, ◌++◌, Str, codes, str_eq, is_empty, to_lower,
  trim_space, trim_left_by, trim_right_by, fields_by, join, has_suffix, length, take, ◌-◌, Option,
  none, some, leb, ◌==◌, map, if◌then◌else◌,
}
use hali_client.Hf.Files.{File, base}
use hali_client.Model.{ModelId, is_zero}
use hali_client.Model.FromHf.{match_size, find_string, from_hf, after_slash}
use hali_client.Pull.{split_once}

abbrev pub is_slash : ℕ → Bool
is_slash c = c == b'/'

-- strings.Trim(s, "/")
unfoldable pub trim_slashes : Str → Str
unfolding trim_left_by trim_right_by
trim_slashes s = trim_right_by is_slash (trim_left_by is_slash s)

abbrev pub both_named : Option (Str × Str) → Option (Str × Str)
both_named none = none
both_named (some r) =
    if is_empty (trim_space r.0) || is_empty (trim_space r.1)
    then none
    else some (trim_space r.0, trim_space r.1)

-- splitRepoID, none for an error
unfoldable pub split_repo_id : Str → Option (Str × Str)
unfolding trim_slashes trim_space is_empty split_once
split_repo_id repo_id = both_named (split_once b'/' (trim_slashes (trim_space repo_id)))

abbrev pub or_main : Str → Str
or_main revision = if is_empty revision then codes "main" else revision

-- buildHFRepoTreeURL
unfoldable pub build_hf_repo_tree_url : Str → Str → Str
unfolding trim_slashes trim_space is_empty
build_hf_repo_tree_url repo_id revision =
    let repo = trim_slashes (trim_space repo_id) in
    if is_empty repo
    then []
    else codes "https://huggingface.co/"
      ++ (repo ++ (codes "/tree/" ++ or_main (trim_space revision)))

-- buildHFSourceURL
unfoldable pub build_hf_source_url : Str → Str → Str → Str
unfolding trim_slashes trim_space is_empty
build_hf_source_url repo_id revision filename =
    let repo = trim_slashes (trim_space repo_id) in
    let file = trim_slashes (trim_space filename) in
    if is_empty repo || is_empty file
    then []
    else codes "https://huggingface.co/"
      ++ (repo ++ (codes "/resolve/" ++ (or_main (trim_space revision) ++ (b'/' ∷ file))))

abbrev pub after_or_all : Str → Option Str → Str
after_or_all s none = s
after_or_all s (some rest) = rest

abbrev is_separator : ℕ → Bool
is_separator c = not ((leb b'a' c && leb c b'z') || (leb b'0' c && leb c b'9') || c == b'.')

-- tokenizeModelString
unfoldable pub tokenize_model_string : Str → List Str
unfolding to_lower trim_space after_slash fields_by
tokenize_model_string s =
    let lower = to_lower (trim_space s) in
    fields_by is_separator (after_or_all lower (after_slash lower))

abbrev known_sizes : List Str
known_sizes =
    codes "tiny"
    ∷ codes "nano"
    ∷ codes "micro"
    ∷ codes "mini"
    ∷ codes "small"
    ∷ codes "medium"
    ∷ codes "med"
    ∷ codes "large"
    ∷ codes "xl"
    ∷ codes "xxl"
    ∷ []

unfoldable pub is_one_of : Str → List Str → Bool
unfolding str_eq
is_one_of w [] = false
is_one_of w (v ∷ vs) = str_eq w v || is_one_of w vs

unfoldable pub first_known : List Str → Str
unfolding is_one_of
first_known [] = codes "base"
first_known (w ∷ ws) = let rest = first_known ws in if is_one_of w known_sizes then w else rest

-- inferFallbackSize; its regular expression is the one of FromHF.
unfoldable pub infer_fallback_size : Str → Str → Str
unfolding find_string match_size to_lower is_empty first_known tokenize_model_string
infer_fallback_size repo_id filename =
    let of_file = find_string match_size (to_lower filename) in
    let of_repo = find_string match_size (to_lower repo_id) in
    if not (is_empty of_file)
    then of_file
    else if not (is_empty of_repo)
    then of_repo
    else first_known (tokenize_model_string (filename ++ (b' ' ∷ repo_id)))

-- The tokens of the base: without `gguf`, and without the first one that is the size
unfoldable pub base_tokens : Str → Bool → List Str → List Str
unfolding str_eq
base_tokens size removed [] = []
base_tokens size removed (w ∷ ws) =
    let is_gguf = str_eq w (codes "gguf") in
    let is_size = not is_gguf && (not removed && str_eq w size) in
    let rest = base_tokens size (removed || is_size) ws in
    if is_gguf || is_size then rest else w ∷ rest

abbrev pub joined_or_model : List Str → Str
joined_or_model [] = codes "model"
joined_or_model (w ∷ ws) = join b'_' (w ∷ ws)

-- The text behind the last slash
unfoldable pub after_last_slash : Str → Str
after_last_slash [] = []
after_last_slash (c ∷ cs) = elim (after_slash (c ∷ cs)) [
  | none ↦ c ∷ cs
  | some rest ↦ after_last_slash cs
]

-- buildFallbackBase
unfoldable pub build_fallback_base : Str → Str → Str
unfolding base_tokens join after_last_slash tokenize_model_string trim_space
build_fallback_base repo_id size =
    joined_or_model
      (base_tokens size false (tokenize_model_string (after_last_slash (trim_space repo_id))))

-- strings.TrimSuffix(name, ".gguf")
unfoldable pub without_gguf : Str → Str
unfolding has_suffix
without_gguf name = if has_suffix name (codes ".gguf") then take (length name - 5) name else name

abbrev pub fallback_id : Str → Str → ModelId
fallback_id repo_id filename =
    let size = infer_fallback_size repo_id filename in
    record {
      base = build_fallback_base repo_id size;
      size = size;
      variant = codes "base";
      quant = base (without_gguf (to_lower filename));
      format = codes "gguf";
      revision = [];
    }

-- modelIDForDownload
unfoldable pub model_id_for_download : Str → Str → File → ModelId
unfolding from_hf is_zero infer_fallback_size build_fallback_base without_gguf base to_lower
model_id_for_download repo_id revision f =
    let id = from_hf repo_id f.name in
    record (if is_zero id then fallback_id repo_id f.name else id) { revision = revision }

abbrev pub underscored : ℕ → ℕ
underscored c = if c == b'/' || c == b'\\' || c == b':' then b'_' else c

-- sanitizeCollectionPart
unfoldable pub sanitize_collection_part : Str → Str
unfolding trim_space to_lower is_empty
sanitize_collection_part raw =
    let v = trim_space (to_lower raw) in if is_empty v then codes "main" else map underscored v

-- collectionModelID, for a key of at least twelve bytes
unfoldable pub collection_model_id : Str → Str → Str → ModelId
unfolding sanitize_collection_part
collection_model_id repo_id revision key = record {
  base = codes "collection_" ++ sanitize_collection_part repo_id;
  size = codes "repo";
  variant = codes "all";
  quant = codes "set_" ++ take 12 key;
  format = codes "gguf";
  revision = sanitize_collection_part revision;
}
