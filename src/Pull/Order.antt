-- ===== src/Pull/Order.antt =====
-- The order of the files that onlyGGUFFiles makes.
use mathlib.Core.List.{Permᴰ}
use hali_client.Base.{
  map, keep, has_suffix, codes, subst, InOrder, IsAscending-InOrder, Precedes, NotBehind,
  str_lt-Precedes, not_lt-NotBehind, ℕ, Bool, true, false, List, [], ◌∷◌, Str, to_lower, trim_space,
  trim_left_by, trim_right_by, is_space, ◌&&◌, sort-perm, ◌⊎◌, ◌≢◌, is_empty, str_eq, str_lt, sort,
  sort_ascending, sort-IsAscending, All-sort, IsOrder, str_lt_asym, str_lt_not_trans, str_lt_irrefl,
  str_eq_iff, str_lt_antisym, ◌≡◌, refl, ap, ◌∙◌, sym, arith, Bool-cases, inl, inr, All,
}
use hali_client.Hf.Files.{File}
use hali_client.Pull.{name_less, file_less, is_gguf_name, trimmed_gguf, only_gguf_files}

str_eq_cases : (a b : Str) → ((a ≡ b) × (str_eq a b ≡ true)) ⊎ ((a ≢ b) × (str_eq a b ≡ false))
str_eq_cases a b = elim (Bool-cases (str_eq a b)) [
  | inl h ↦ inl ((str_eq_iff a b).0 h, h)
  | inr h ↦ inr ((λ e. cc (h, (str_eq_iff a b).1 e)), h)
]

abbrev NotBefore : Str → Str → Type 0
NotBefore b a =
    (str_lt (to_lower b) (to_lower a) ≡ false) × (to_lower b ≡ to_lower a → str_lt b a ≡ false)

not_less-NotBefore : (b a : Str) → name_less b a ≡ false → NotBefore b a
unfolding name_less
not_less-NotBefore b a h = elim (str_eq_cases (to_lower b) (to_lower a)) [
  | inl (e, k) ↦ (rw e (str_lt_irrefl (to_lower a)), λ _. rw k at h)
  | inr (e, k) ↦ (rw k at h, λ q. absurd (e q))
]

NotBefore-not_less : (b a : Str) → NotBefore b a → name_less b a ≡ false
unfolding name_less
NotBefore-not_less b a (h, k) = elim (str_eq_cases (to_lower b) (to_lower a)) [
  | inl (e, q) ↦ rw q (k e)
  | inr (e, q) ↦ rw q h
]

pub name_less_asym : (a b : Str) → name_less a b ≡ true → name_less b a ≡ false
unfolding name_less
name_less_asym a b h = elim (str_eq_cases (to_lower a) (to_lower b)) [
  | inl (e, q) ↦
      NotBefore-not_less b a (rw e (str_lt_irrefl (to_lower b)), λ _. str_lt_asym a b (rw q at h))
  | inr (e, q) ↦
      NotBefore-not_less b a
        (str_lt_asym (to_lower a) (to_lower b) (rw q at h), λ r. absurd (e (sym r)))
]

pub name_less_not_trans :
    (a b c : Str) → name_less b a ≡ false → name_less c b ≡ false → name_less c a ≡ false
name_less_not_trans a b c h k =
    let (p, q) = not_less-NotBefore b a h in
    let (r, s) = not_less-NotBefore c b k in
    let lt = str_lt_not_trans (to_lower a) (to_lower b) (to_lower c) in
    NotBefore-not_less c a (
      lt p r,
      λ e.
          let ba = str_lt_antisym (to_lower b) (to_lower a) p (rw e at r) in
          str_lt_not_trans a b c (q ba) (s (e ∙ sym ba)),
    )

pub name_less_antisym : (a b : Str) → name_less a b ≡ false → name_less b a ≡ false → a ≡ b
name_less_antisym a b h k =
    let (p, q) = not_less-NotBefore a b h in
    let (r, s) = not_less-NotBefore b a k in
    let e = str_lt_antisym (to_lower a) (to_lower b) p r in str_lt_antisym a b (q e) (s (sym e))

pub file_less-IsOrder : IsOrder file_less
file_less-IsOrder = record {
  asym = λ f g. name_less_asym f.name g.name;
  not_trans = λ f g k. name_less_not_trans f.name g.name k.name;
}

trim_right_twice :
    (p : ℕ → Bool) (s : Str) → trim_right_by p (trim_right_by p s) ≡ trim_right_by p s
unfolding trim_right_by is_empty
trim_right_twice p [] = refl
trim_right_twice p (c ∷ cs) = elim (Bool-cases (is_empty (trim_right_by p cs) && p c)) [
  | inl h ↦ rw h refl
  | inr h ↦ rw h (rw (trim_right_twice p cs) (rw h refl))
]

trim_left_right :
    (p : ℕ → Bool) (s : Str)
    → trim_left_by p (trim_right_by p (trim_left_by p s)) ≡ trim_right_by p (trim_left_by p s)
unfolding trim_right_by trim_left_by is_empty
trim_left_right p [] = refl
trim_left_right p (c ∷ cs) = ground (arith, trim_left_right p cs)

pub trim_space_twice : (s : Str) → trim_space (trim_space s) ≡ trim_space s
unfolding trim_space
trim_space_twice s =
    ap (trim_right_by is_space) (trim_left_right is_space s)
    ∙ trim_right_twice is_space (trim_left_by is_space s)

is_gguf_name-trim_space : (s : Str) → is_gguf_name (trim_space s) ≡ is_gguf_name s
unfolding is_gguf_name
is_gguf_name-trim_space s = rw (trim_space_twice s) refl

abbrev pub IsTrimmedGguf : File → Type 0
IsTrimmedGguf f = (trim_space f.name ≡ f.name) × (is_gguf_name f.name ≡ true)

pub trimmed_gguf-IsTrimmedGguf : (fs : List File) → All IsTrimmedGguf (trimmed_gguf fs)
unfolding trimmed_gguf
trimmed_gguf-IsTrimmedGguf [] = tt
trimmed_gguf-IsTrimmedGguf (f ∷ fs) = elim (Bool-cases (is_gguf_name f.name)) [
  | inl h ↦
      rw h (
        (trim_space_twice f.name, is_gguf_name-trim_space f.name ∙ h),
        trimmed_gguf-IsTrimmedGguf fs,
      )
  | inr h ↦ rw h (trimmed_gguf-IsTrimmedGguf fs)
]

trimmed_gguf_same : (fs : List File) → All IsTrimmedGguf fs → trimmed_gguf fs ≡ fs
unfolding trimmed_gguf
trimmed_gguf_same [] a = refl
trimmed_gguf_same (f ∷ fs) ((t, g), a) = rw g (rw t (rw (trimmed_gguf_same fs a) refl))

pub only_gguf-IsTrimmedGguf : (fs : List File) → All IsTrimmedGguf (only_gguf_files fs)
unfolding only_gguf_files
only_gguf-IsTrimmedGguf fs =
    All-sort file_less IsTrimmedGguf (trimmed_gguf fs) (trimmed_gguf-IsTrimmedGguf fs)

-- The GGUF files of a list, with their names trimmed
abbrev pub gguf_part : List File → List File
gguf_part fs =
    map (λ f. record { name = trim_space f.name; size = f.size })
      (keep (λ f. has_suffix (to_lower (trim_space f.name)) (codes ".gguf")) fs)

trimmed_gguf-gguf_part : (fs : List File) → trimmed_gguf fs ≡ gguf_part fs
unfolding trimmed_gguf is_gguf_name
trimmed_gguf-gguf_part [] = refl
trimmed_gguf-gguf_part (f ∷ fs) =
    elim (Bool-cases (has_suffix (to_lower (trim_space f.name)) (codes ".gguf"))) [
      | inl h ↦ rw h (
          ap (◌∷◌ (record { name = trim_space f.name; size = f.size })) (trimmed_gguf-gguf_part fs))
      | inr h ↦ rw h (trimmed_gguf-gguf_part fs)
    ]

-- The name of `f` without regard to case precedes that of `g`, or these are equal, and then the name
-- of `f` is not behind that of `g`.
abbrev pub IsNamedBefore : File → File → Type 0
IsNamedBefore f g =
    Precedes (to_lower f.name) (to_lower g.name)
    ⊎ ((to_lower f.name ≡ to_lower g.name) × NotBehind f.name g.name)

not_less-IsNamedBefore : (f g : File) → file_less g f ≡ false → IsNamedBefore f g
not_less-IsNamedBefore f g h =
    let (p, q) = not_less-NotBefore g.name f.name h in
    elim (Bool-cases (str_lt (to_lower f.name) (to_lower g.name))) [
      | inl lt ↦ inl (str_lt-Precedes (to_lower f.name) (to_lower g.name) lt)
      | inr ge ↦
          let e = str_lt_antisym (to_lower f.name) (to_lower g.name) ge p in
          inr (e, not_lt-NotBehind f.name g.name (q (sym e)))
    ]

-- The files of onlyGGUFFiles are those of the list whose trimmed name ends in .gguf in any case, with
-- the names trimmed, each as often as it was, in the order of their names without regard to case and,
-- where these are equal, of the names; a second pass over them changes nothing.
pub only_gguf_files-IsAscending :
    (fs : List File)
    → InOrder IsNamedBefore (only_gguf_files fs)
      × Permᴰ (only_gguf_files fs) (gguf_part fs)
      × (only_gguf_files (only_gguf_files fs) ≡ only_gguf_files fs)
unfolding only_gguf_files
only_gguf_files-IsAscending fs =
    let ascending = sort-IsAscending file_less file_less-IsOrder (trimmed_gguf fs) in
    (
      IsAscending-InOrder file_less IsNamedBefore not_less-IsNamedBefore (only_gguf_files fs)
          ascending,
      subst (Permᴰ (only_gguf_files fs)) (trimmed_gguf-gguf_part fs)
          (sort-perm file_less (trimmed_gguf fs)),
      ap (sort file_less) (trimmed_gguf_same (only_gguf_files fs) (only_gguf-IsTrimmedGguf fs))
          ∙ sort_ascending file_less (only_gguf_files fs) ascending,
    )
