-- ===== src/Model/Tests.antt =====
-- Tests and witnesses for the model ids.
use hali_client.Base.{
  codes, [], ◌∷◌, ◌≡◌, refl, ok, err, contains_by, is_empty, join, contains, to_lower, has_suffix,
}
use hali_client.Model.{
  ModelId, zero_id, parse, parse_parts, valid, is_safe_path_component, to_string, store_path,
  path_traversal, is_zero,
}
use hali_client.Model.FromHf.{from_hf}
use hali_client.Model.Normalize.{normalize, normalize_hf_repo, base_of_tokens}
use hali_client.Model.RoundTrip.{IsCanonical, parse-to_string}
use hali_client.Model.Safe.{without_dots, store_path-parse, dot}

abbrev mistral : ModelId
mistral = record {
  base = codes "mistral";
  size = codes "7b";
  variant = codes "instruct";
  quant = codes "q4_k_m";
  format = [];
  revision = [];
}

abbrev mistral_dot : ModelId
mistral_dot = record mistral { quant = dot }

parse-mistral : parse (codes "mistral:7b:instruct:q4_k_m") ≡ ok mistral
unfolding parse parse_parts valid is_safe_path_component
parse-mistral = refl

parse-mistral_dot : parse (codes "mistral:7b:instruct:.") ≡ ok mistral_dot
unfolding parse parse_parts valid is_safe_path_component
parse-mistral_dot = refl

from_hf-mistral :
    from_hf
      (codes "TheBloke/Mistral-7B-Instruct-v0.2-GGUF")
      (codes "mistral-7b-instruct-v0.2.Q4_K_M.gguf")
    ≡ record mistral { format = codes "gguf" }
unfolding from_hf
from_hf-mistral = refl

normalize_traversal : normalize (codes "a/../b") ≡ err path_traversal
unfolding normalize is_empty contains to_lower
normalize_traversal = refl

normalize-qwen :
    normalize (codes "Qwen/Qwen3-32B-GGUF")
    ≡ ok (record zero_id { base = codes "qwen3"; format = codes "gguf" })
unfolding normalize normalize_hf_repo base_of_tokens is_safe_path_component from_hf is_zero contains
    has_suffix
normalize-qwen = refl

mistral-IsCanonical : IsCanonical mistral
unfolding valid is_safe_path_component contains_by
mistral-IsCanonical = record {
  is_valid = refl;
  base_plain = refl;
  size_plain = refl;
  variant_plain = refl;
  quant_plain = refl;
  no_format = refl;
  no_revision = refl;
}

parse-to_string_example : parse (to_string mistral) ≡ ok mistral
parse-to_string_example = parse-to_string mistral mistral-IsCanonical

store_path-parse_example :
    store_path mistral_dot
    ≡ join b'/' (without_dots (codes "mistral" ∷ codes "7b-instruct" ∷ dot ∷ []))
store_path-parse_example =
    store_path-parse (codes "mistral:7b:instruct:.") mistral_dot parse-mistral_dot
