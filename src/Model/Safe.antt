-- ===== src/Model/Safe.antt =====
-- Where the directory of a model lies, and which ids a user's query can give.
use mathlib.Core.Bool.{false≢true}
use hali_client.Base.{
  contains_by-append, true, false, List, [], ◌∷◌, ◌++◌, ◌≡◌, ◌⊎◌, inl, inr, refl, sym, ap, ◌∙◌,
  arith, ◌==◌, not, Str, keep, contains_byte, contains_by, split, str_eq, is_empty, split_by-append,
  split_by-plain, join, join_path, join_parts, clean, clean_segs, clean_step, clean_text, is_rooted,
  dot_dot, ok, if◌then◌else◌, Bool-cases,
}
use hali_client.Model.{ModelId, is_safe_path_component, valid, parse, store_path}
use hali_client.Model.RoundTrip.{to_string-parse}

abbrev pub dot : Str
dot = b'.' ∷ []

-- A component that a clean path keeps as it is.
pub record IsPlain (w : Str) : Type 0 where
  pub no_slash : contains_byte b'/' w ≡ false
  pub not_empty : is_empty w ≡ false
  pub not_dot_dot : str_eq w dot_dot ≡ false

pub safe-IsPlain : (w : Str) → is_safe_path_component w ≡ true → IsPlain w
unfolding is_safe_path_component
safe-IsPlain w h = ground arith

safe_parts :
    (id : ModelId)
    → valid id ≡ true
    → IsPlain id.base × IsPlain id.size × IsPlain id.variant × IsPlain id.quant
safe_parts id h = (
  safe-IsPlain id.base (f.0),
  safe-IsPlain id.size f.1,
  safe-IsPlain id.variant f.2,
  safe-IsPlain id.quant f.3,
)
  where
    f :
        (is_safe_path_component id.base ≡ true)
        × (is_safe_path_component id.size ≡ true)
        × (is_safe_path_component id.variant ≡ true)
        × (is_safe_path_component id.quant ≡ true)
    f = unfold valid in ground arith

clean_step-plain :
    (kept : List Str) (w : Str)
    → IsPlain w
    → clean_step false kept w ≡ (if str_eq w dot then kept else w ∷ kept)
unfolding clean_step
clean_step-plain [] w h = ground arith
clean_step-plain (k ∷ ks) w h = ground arith

dash_not_dot :
    (s v : Str)
    → is_empty s ≡ false
    → (str_eq (s ++ (b'-' ∷ v)) dot ≡ false) × (str_eq (s ++ (b'-' ∷ v)) dot_dot ≡ false)
unfolding str_eq is_empty
dash_not_dot [] v h = absurd (cc)
dash_not_dot (c ∷ []) v h = ground arith
dash_not_dot (c ∷ d ∷ []) v h = ground arith
dash_not_dot (c ∷ d ∷ e ∷ es) v h = ground arith

dash_not_empty : (s v : Str) → is_empty (s ++ (b'-' ∷ v)) ≡ false
unfolding is_empty
dash_not_empty [] v = refl
dash_not_empty (c ∷ cs) v = refl

dash-IsPlain : (s v : Str) → IsPlain s → IsPlain v → IsPlain (s ++ (b'-' ∷ v))
dash-IsPlain s v hs hv = record {
  no_slash =
      contains_by-append (λ c. c == b'/') s (b'-' ∷ v) hs.no_slash
        (unfold contains_by in hv.no_slash);
  not_empty = dash_not_empty s v;
  not_dot_dot = (dash_not_dot s v hs.not_empty).1;
}

is_rooted-plain : (a r : Str) → IsPlain a → is_rooted (a ++ r) ≡ false
is_rooted-plain [] r h = unfold is_empty in absurd (unfold is_empty in cc (h.not_empty))
is_rooted-plain (c ∷ cs) r h = unfold contains_by in ground (arith, h.no_slash)

split-join :
    (a b c : Str)
    → IsPlain a
    → IsPlain b
    → IsPlain c
    → split b'/' (join b'/' (a ∷ b ∷ c ∷ [])) ≡ a ∷ b ∷ c ∷ []
unfolding join
split-join a b c ha hb hc =
    split_by-append (λ x. x == b'/') a b'/' _ refl ha.no_slash
    ∙ ap (◌∷◌ a) (split_by-append (λ x. x == b'/') b b'/' _ refl hb.no_slash)
    ∙ ap (λ r. a ∷ b ∷ r) (split_by-plain (λ x. x == b'/') c hc.no_slash)

abbrev pub without_dots : List Str → List Str
without_dots = keep (λ w. not (str_eq w dot))

clean_segs-plain :
    (a b c : Str)
    → IsPlain a
    → IsPlain b
    → IsPlain c
    → clean_segs false [] (a ∷ b ∷ c ∷ []) ≡ without_dots (a ∷ b ∷ c ∷ [])
unfolding clean_segs
clean_segs-plain a b c ha hb hc = rw (clean_step-plain [] a ha) (
    rw (clean_step-plain (if str_eq a dot then [] else a ∷ []) b hb)
      (rw (clean_step-plain _ c hc) (ground arith)))

is_empty-append : (v w : Str) → is_empty v ≡ false → is_empty (v ++ w) ≡ false
unfolding is_empty
is_empty-append [] w h = absurd (false≢true (sym h))
is_empty-append (c ∷ cs) w h = refl

is_empty-join :
    (w : Str) (ws : List Str) → is_empty w ≡ false → is_empty (join b'/' (w ∷ ws)) ≡ false
unfolding join
is_empty-join w [] h = h
is_empty-join w (v ∷ vs) h = is_empty-append w _ h

join-without_dots :
    (a b c : Str)
    → IsPlain a
    → IsPlain b
    → str_eq b dot ≡ false
    → is_empty (join b'/' (without_dots (a ∷ b ∷ c ∷ []))) ≡ false
join-without_dots a b c ha hb nd = elim (Bool-cases (str_eq a dot)) [
  | inl d ↦ simp (d, nd) (is_empty-join b _ hb.not_empty)
  | inr d ↦ simp (d, nd) (is_empty-join a _ ha.not_empty)
]

clean_text-body : (body : Str) → is_empty body ≡ false → clean_text false body ≡ body
unfolding clean_text
clean_text-body body h = rw h

-- The middle part is no dot, so the clean text is not empty.
three_parts :
    (a b c : Str)
    → IsPlain a
    → IsPlain b
    → IsPlain c
    → str_eq b dot ≡ false
    → join_path (a ∷ b ∷ c ∷ []) ≡ join b'/' (without_dots (a ∷ b ∷ c ∷ []))
unfolding join_path
three_parts a b c ha hb hc nd =
    simp (ha.not_empty, hb.not_empty, hc.not_empty)
      (unfold join_parts clean in
        rw (is_rooted-join, split-join a b c ha hb hc, clean_segs-plain a b c ha hb hc)
          (clean_text-body _ (join-without_dots a b c ha hb nd)))
  where
    is_rooted-join : is_rooted (join b'/' (a ∷ b ∷ c ∷ [])) ≡ false
    is_rooted-join = unfold join in is_rooted-plain a _ ha

-- The directory of a parsed id lies at most three levels below the root, whatever its components:
-- they are the path elements in their order, and a component that is a single dot is left out.
pub store_path-parse :
    (s : Str) (id : ModelId)
    → parse s ≡ ok id
    → store_path id
      ≡ join b'/' (without_dots (id.base ∷ (id.size ++ (b'-' ∷ id.variant)) ∷ id.quant ∷ []))
unfolding store_path
store_path-parse s id h =
    let safe = safe_parts id (to_string-parse s id h).0.is_valid in
    three_parts id.base (id.size ++ (b'-' ∷ id.variant)) id.quant safe.0
      (dash-IsPlain id.size id.variant safe.1 safe.2) safe.3
      (dash_not_dot id.size id.variant safe.1.not_empty).0

-- A component that the query left open, or a safe one.
abbrev pub OpenOrSafe : Str → Type 0
OpenOrSafe w = (w ≡ []) ⊎ (is_safe_path_component w ≡ true)

-- What a user's query can name.
pub record IsQuery (id : ModelId) : Type 0 where
  pub base_safe : is_safe_path_component id.base ≡ true
  pub size_safe : OpenOrSafe id.size
  pub variant_safe : OpenOrSafe id.variant
  pub quant_safe : OpenOrSafe id.quant
  pub no_revision : id.revision ≡ []
