-- ===== src/Model/Normalize.antt =====
-- internal/model/normalize.go: partial ids and repository names given by a user.
use hali_client.Base.{
  List, [], ◌∷◌, ◌||◌, not, Str, codes, is_empty, to_lower, has_suffix, contains, remove_all, split,
  fields_by, dot_dot, Result, ok, err, if◌then◌else◌,
}
use hali_client.Model.{
  ModelId, IdError, empty_id, path_traversal, unsafe_component, too_many_parts, no_safe_base,
  zero_id, is_zero, is_safe_path_component, parse,
}
use hali_client.Model.FromHf.{from_hf, repo_name, trim_name, is_joint}

-- tokens of normalizeHFRepo
unfoldable pub base_of_tokens : Str → List Str → Result IdError ModelId
base_of_tokens format [] = err no_safe_base
base_of_tokens format (t ∷ ts) =
    if not (is_safe_path_component t)
    then err no_safe_base
    else ok (record zero_id { base = t; format = format })

unfoldable pub normalize_hf_repo : Str → Result IdError ModelId
normalize_hf_repo lower =
    let id = from_hf lower [] in
    let name = repo_name lower in
    let format =
      if contains name (codes "-gguf") || has_suffix name (codes "gguf")
      then codes "gguf"
      else [] in
    let trimmed = trim_name (remove_all (codes "-gguf") name) in
    if not (is_zero id) then ok id else base_of_tokens format (fields_by is_joint trimmed)

-- The switch on the number of parts.
unfoldable pub normalize_parts : Str → List Str → Result IdError ModelId
normalize_parts lower (b ∷ []) =
    if not (is_safe_path_component b)
    then err unsafe_component
    else ok (record zero_id { base = b })
normalize_parts lower (b ∷ s ∷ []) =
    if not (is_safe_path_component b) || not (is_safe_path_component s)
    then err unsafe_component
    else ok (record zero_id { base = b; size = s })
normalize_parts lower (b ∷ s ∷ v ∷ []) =
    if not (is_safe_path_component b)
      || not (is_safe_path_component s)
      || not (is_safe_path_component v)
    then err unsafe_component
    else ok (record zero_id { base = b; size = s; variant = v })
normalize_parts lower (b ∷ s ∷ v ∷ q ∷ []) = parse lower
normalize_parts lower _ = err too_many_parts

unfoldable pub normalize : Str → Result IdError ModelId
normalize input =
    let lower = to_lower input in
    if is_empty input
    then err empty_id
    else if contains input dot_dot
    then err path_traversal
    else if contains lower (b'/' ∷ [])
    then normalize_hf_repo lower
    else normalize_parts lower (split b':' lower)
