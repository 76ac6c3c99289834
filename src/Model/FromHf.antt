-- ===== src/Model/FromHf.antt =====
-- internal/model/identity.go, FromHF: a best-effort id from a repository and a file name. The two
-- regular expressions are matched by hand; neither can match differently after backtracking.
use hali_client.Base.{
  ℕ, Bool, List, [], ◌∷◌, ◌++◌, ◌&&◌, ◌||◌, not, Str, codes, Option, none, some, length, take,
  is_empty, to_lower, lower_byte, has_prefix, contains, cut, remove_all, remove_all_from,
  trim_left_by, trim_right_by, fields_by, leb, ◌==◌, if◌then◌else◌,
}
use hali_client.Model.{ModelId, zero_id}

abbrev is_digit : ℕ → Bool
is_digit c = leb b'0' c && leb c b'9'

abbrev is_word : ℕ → Bool
is_word c = is_digit c || (leb b'a' (lower_byte c) && leb (lower_byte c) b'z') || c == b'_'

-- The longest prefix of bytes that pass the test, and the rest.
unfoldable pub span : (ℕ → Bool) → Str → Str × Str
span p [] = ([], [])
span p (c ∷ cs) = let r = span p cs in if p c then (c ∷ r.0, r.1) else ([], c ∷ cs)

abbrev skip_dot : Str → Str × Str
skip_dot [] = ([], [])
skip_dot (c ∷ cs) = if c == b'.' then (c ∷ [], cs) else ([], c ∷ cs)

abbrev unit_of : Str → Option Str
unit_of [] = none
unit_of (c ∷ cs) = if lower_byte c == b'b' || lower_byte c == b'm' then some (c ∷ []) else none

-- reSize at the head of the text
unfoldable pub match_size : Str → Option Str
unfolding span is_empty
match_size s =
    let whole = span is_digit s in
    let dot = skip_dot whole.1 in
    let fraction = span is_digit dot.1 in
    if is_empty whole.0 then none else elim (unit_of fraction.1) [
      | none ↦ none
      | some u ↦ some (whole.0 ++ (dot.0 ++ (fraction.0 ++ u)))
    ]

abbrev literal : Str → Str → Option Str
literal s t = if has_prefix (to_lower s) t then some (take (length t) s) else none

abbrev or_else : Option Str → Option Str → Option Str
or_else none b = b
or_else (some a) b = some a

-- q\d+_[a-z0-9_]+ behind the `q`
unfoldable pub match_q : ℕ → Str → Option Str
unfolding span is_empty
match_q q s =
    let number = span is_digit s in
    elim number.1 [
      | [] ↦ none
      | c ∷ cs ↦
          (let word = span is_word cs in
            if not (is_empty number.0) && c == b'_' && not (is_empty word.0)
            then some (q ∷ (number.0 ++ (c ∷ word.0)))
            else none)
    ]

-- reQuant at the head of the text
unfoldable pub match_quant : Str → Option Str
unfolding match_q has_prefix to_lower
match_quant [] = none
match_quant (c ∷ cs) = or_else (if lower_byte c == b'q' then match_q c cs else none) (
    or_else (literal (c ∷ cs) (codes "f16")) (
      or_else (literal (c ∷ cs) (codes "f32")) (
        or_else (literal (c ∷ cs) (codes "fp16"))
          (or_else (literal (c ∷ cs) (codes "fp32")) (literal (c ∷ cs) (codes "bf16"))))))

-- FindString: the leftmost match, or the empty text
unfoldable pub find_string : (Str → Option Str) → Str → Str
find_string m [] = elim (m []) [ none ↦ [] | some t ↦ t ]
find_string m (c ∷ cs) =
    let rest = find_string m cs in elim (m (c ∷ cs)) [ none ↦ rest | some t ↦ t ]

-- name[strings.Index(name, "/")+1:]
unfoldable pub after_slash : Str → Option Str
after_slash [] = none
after_slash (c ∷ cs) = if c == b'/' then some cs else after_slash cs

abbrev pub repo_name : Str → Str
repo_name name = elim (after_slash name) [ none ↦ name | some rest ↦ rest ]

abbrev pub is_trimmed : ℕ → Bool
is_trimmed c = c == b'-' || c == b'_' || c == b'.' || c == b' '

abbrev pub is_joint : ℕ → Bool
is_joint c = c == b'-' || c == b'_'

-- strings.Trim(s, "-_. ")
unfoldable pub trim_name : Str → Str
unfolding trim_left_by trim_right_by
trim_name s = trim_right_by is_trimmed (trim_left_by is_trimmed s)

abbrev known_types : List Str
known_types = codes "instruct" ∷ codes "chat" ∷ codes "code" ∷ codes "it" ∷ codes "sft" ∷ []

unfoldable pub variant_in : Str → Str → List Str → Str
unfolding contains
variant_in name fname [] = codes "base"
variant_in name fname (t ∷ ts) =
    if contains name t || contains fname t then t else variant_in name fname ts

-- The first i with base[i:] starting with the size, where i > 0
abbrev before_size : Str → Str → Str
before_size base size = if is_empty size then base else elim (cut (to_lower size) base) [
  | none ↦ base
  | some r ↦ (if is_empty r.0 then base else r.0)
]

abbrev first_or : Str → List Str → Str
first_or d [] = d
first_or d (w ∷ ws) = w

unfoldable pub from_hf : Str → Str → ModelId
unfolding to_lower is_empty cut remove_all_from after_slash find_string match_size match_quant
    trim_name fields_by variant_in
from_hf repo_id filename =
    let name = remove_all (codes "-gguf") (repo_name (to_lower repo_id)) in
    let fname = to_lower filename in
    let size_f = find_string match_size fname in
    let size = if is_empty size_f then find_string match_size name else size_f in
    let quant = find_string match_quant fname in
    let base_t = trim_name (before_size name size) in
    let base = first_or base_t (fields_by is_joint base_t) in
    if is_empty base || is_empty size || is_empty quant then zero_id else record {
      base = base;
      size = to_lower size;
      variant = variant_in name fname known_types;
      quant = to_lower quant;
      format = codes "gguf";
      revision = [];
    }
