-- ===== src/Model/RoundTrip.antt =====
-- Parse accepts exactly the texts that String prints of canonical ids.
use hali_client.Base.{
  ◌==◌, true, false, List, [], ◌∷◌, ◌≡◌, refl, sym, ap, ◌∙◌, arith, Str, contains_byte, split,
  split_by-append, split_by-plain, split_by-All, join, join-split, All, ok,
}
use hali_client.Model.{ModelId, valid, to_string, parse, parse_parts}

-- What a parsed id is: four safe components without a colon, and nothing else.
pub record IsCanonical (id : ModelId) : Type 0 where
  pub is_valid : valid id ≡ true
  pub base_plain : contains_byte b':' id.base ≡ false
  pub size_plain : contains_byte b':' id.size ≡ false
  pub variant_plain : contains_byte b':' id.variant ≡ false
  pub quant_plain : contains_byte b':' id.quant ≡ false
  pub no_format : id.format ≡ []
  pub no_revision : id.revision ≡ []

split-to_string :
    (id : ModelId)
    → IsCanonical id
    → split b':' (to_string id) ≡ id.base ∷ id.size ∷ id.variant ∷ id.quant ∷ []
unfolding to_string
split-to_string id h =
    split_by-append (λ c. c == b':') id.base b':' _ refl h.base_plain
    ∙ ap (◌∷◌ id.base) (split_by-append (λ c. c == b':') id.size b':' _ refl h.size_plain)
    ∙ ap (λ r. id.base ∷ id.size ∷ r)
        (split_by-append (λ c. c == b':') id.variant b':' _ refl h.variant_plain)
    ∙ ap (λ r. id.base ∷ id.size ∷ id.variant ∷ r)
        (split_by-plain (λ c. c == b':') id.quant h.quant_plain)

parse_parts-canonical :
    (id : ModelId)
    → IsCanonical id
    → parse_parts (id.base ∷ id.size ∷ id.variant ∷ id.quant ∷ []) ≡ ok id
unfolding parse_parts
parse_parts-canonical id h = ground arith

-- Printing a canonical id and parsing the text gives the id back.
pub parse-to_string : (id : ModelId) → IsCanonical id → parse (to_string id) ≡ ok id
unfolding parse
parse-to_string id h = rw (split-to_string id h) (parse_parts-canonical id h)

parse_parts_inv :
    (parts : List Str) (id : ModelId)
    → All (λ w. contains_byte b':' w ≡ false) parts
    → parse_parts parts ≡ ok id
    → IsCanonical id × (join b':' parts ≡ to_string id)
unfolding parse_parts
parse_parts_inv (b ∷ s ∷ v ∷ q ∷ []) id a h = unfold join to_string in ground arith
parse_parts_inv _ id a h = cc

-- A text that parses is the printed form of its id, which is canonical: no two ids share a text,
-- and no text has two spellings.
pub to_string-parse :
    (s : Str) (id : ModelId) → parse s ≡ ok id → IsCanonical id × (to_string id ≡ s)
unfolding parse
to_string-parse s id h =
    let r = parse_parts_inv (split b':' s) id (split_by-All (λ c. c == b':') s) h in
    (r.0, sym r.1 ∙ join-split b':' s)
