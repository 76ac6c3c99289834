-- ===== src/Model.antt =====
-- internal/model/identity.go: canonical model ids `base:size:variant:quant`.
pub mod FromHf
pub mod Normalize
pub mod RoundTrip
pub mod Safe
mod Tests
use hali_client.Base.{
  ℕ, Bool, List, [], ◌∷◌, ◌++◌, ◌&&◌, not, Str, str_eq, is_empty, contains_byte, contains_by, split,
  split_by, join_path, dot_dot, Result, ok, err, if◌then◌else◌,
}

pub record ModelId : Type 0 where
  pub base : Str
  pub size : Str
  pub variant : Str
  pub quant : Str
  pub format : Str
  pub revision : Str

pub data IdError : Type 0 where
  not_four_parts unsafe_component : IdError
  empty_id path_traversal too_many_parts no_safe_base : IdError

abbrev pub zero_id : ModelId
zero_id = record { base = []; size = []; variant = []; quant = []; format = []; revision = [] }

-- String
unfoldable pub to_string : ModelId → Str
to_string id = id.base ++ (b':' ∷ (id.size ++ (b':' ∷ (id.variant ++ (b':' ∷ id.quant)))))

-- IsZero
unfoldable pub is_zero : ModelId → Bool
unfolding is_empty
is_zero id = is_empty id.base

-- isSafePathComponent, where filepath.Separator is '/'
unfoldable pub is_safe_path_component : Str → Bool
unfolding is_empty contains_by str_eq
is_safe_path_component s =
    not (is_empty s)
    && not (contains_byte b'/' s)
    && not (contains_byte b'\\' s)
    && not (str_eq s dot_dot)
    && not (contains_byte b'/' s)

-- Valid
unfoldable pub valid : ModelId → Bool
valid id =
    is_safe_path_component id.base
    && is_safe_path_component id.size
    && is_safe_path_component id.variant
    && is_safe_path_component id.quant

-- `parts` of Parse
unfoldable pub parse_parts : List Str → Result IdError ModelId
unfolding valid
parse_parts (b ∷ s ∷ v ∷ q ∷ []) =
    let id : ModelId = record {
      base = b;
      size = s;
      variant = v;
      quant = q;
      format = [];
      revision = [];
    } in
    if not (valid id) then err unsafe_component else ok id
parse_parts _ = err not_four_parts

unfoldable pub parse : Str → Result IdError ModelId
unfolding split_by parse_parts
parse s = parse_parts (split b':' s)

-- StorePath
unfoldable pub store_path : ModelId → Str
store_path id = join_path (id.base ∷ (id.size ++ (b'-' ∷ id.variant)) ∷ id.quant ∷ [])
