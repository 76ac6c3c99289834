-- ===== src/Base/Text.antt =====
-- Go strings as lists of bytes, and the functions of package strings that the client calls. The
-- functions that depend on letters or spaces follow Go on ASCII text.
use Prim.Native.Nat.{zero, suc, ◌-◌, ℕ, ◌+◌}
use Prim.Native.Char.{code}
use Prim.Native.String.{String}
use mathlib.Core.Path.{◌≡◌, refl}
use mathlib.Core.Logic.{◌↔◌}
use mathlib.Core.Bool.{false≢true, Bool, true, false, ◌&&◌, ◌||◌}
use mathlib.Core.List.{List, [], ◌∷◌, ◌++◌, reverse, map}
use native.Mathlib.Omega.{arith}
use hali_client.Base.Tests.{not, if◌then◌else◌, ◌==◌, ltb, leb}
use mathlib.Core.Option
use mathlib.Core.Option.{Option, none, some}
use hali_client.Base.Lists.{keep, length, drop}

abbrev pub Str : Type 0
Str = List ℕ

-- The bytes of a literal; every literal here is ASCII.
abbrev pub codes : String → Str
codes String.[] = []
codes (String.◌∷◌ c s) = code c ∷ codes s

-- a == b
unfoldable pub str_eq : Str → Str → Bool
str_eq [] [] = true
str_eq (x ∷ xs) (y ∷ ys) = x == y && str_eq xs ys
str_eq _ _ = false

-- a < b
unfoldable pub str_lt : Str → Str → Bool
str_lt [] [] = false
str_lt [] (y ∷ ys) = true
str_lt (x ∷ xs) [] = false
str_lt (x ∷ xs) (y ∷ ys) = ltb x y || (x == y && str_lt xs ys)

unfoldable pub is_empty : Str → Bool
is_empty [] = true
is_empty _ = false

abbrev pub lower_byte : ℕ → ℕ
lower_byte c = if leb b'A' c && leb c b'Z' then c + 32 else c

-- strings.ToLower
unfoldable pub to_lower : Str → Str
to_lower = map lower_byte

-- unicode.IsSpace on ASCII
abbrev pub is_space : ℕ → Bool
is_space c = (leb 9 c && leb c 13) || c == 32

-- strings.TrimLeftFunc, strings.TrimRightFunc
unfoldable pub trim_left_by : (ℕ → Bool) → Str → Str
trim_left_by p [] = []
trim_left_by p (c ∷ cs) = if p c then trim_left_by p cs else c ∷ cs

unfoldable pub trim_right_by : (ℕ → Bool) → Str → Str
unfolding trim_left_by is_empty
trim_right_by p [] = []
trim_right_by p (c ∷ cs) =
    let rest = trim_right_by p cs in if is_empty rest && p c then [] else c ∷ rest

-- strings.TrimSpace
unfoldable pub trim_space : Str → Str
unfolding trim_left_by trim_right_by
trim_space s = trim_right_by is_space (trim_left_by is_space s)

-- strings.EqualFold
unfoldable pub equal_fold : Str → Str → Bool
unfolding str_eq to_lower
equal_fold a b = str_eq (to_lower a) (to_lower b)

unfoldable pub has_prefix : Str → Str → Bool
has_prefix s [] = true
has_prefix [] (p ∷ ps) = false
has_prefix (c ∷ cs) (p ∷ ps) = c == p && has_prefix cs ps

unfoldable pub has_suffix : Str → Str → Bool
unfolding has_prefix
has_suffix s t = has_prefix (reverse s) (reverse t)

-- strings.TrimPrefix
unfoldable pub trim_prefix : Str → Str → Str
unfolding has_prefix
trim_prefix s p = if has_prefix s p then drop (length p) s else s

-- s[i:] for the first i at which `t` begins, with the bytes in front of it
unfoldable pub cut : Str → Str → Option (Str × Str)
unfolding has_prefix
cut t [] = if has_prefix [] t then some ([], []) else none
cut t (c ∷ cs) =
    let rest = Option.map (λ (r : Str × Str). (c ∷ r.0, r.1)) (cut t cs) in
    if has_prefix (c ∷ cs) t then some ([], c ∷ cs) else rest

-- strings.ReplaceAll of a nonempty text by the empty one; `skip` bytes of a match are left
unfoldable pub remove_all_from : ℕ → Str → Str → Str
unfolding has_prefix
remove_all_from skip t [] = []
remove_all_from (suc skip) t (c ∷ cs) = remove_all_from skip t cs
remove_all_from zero t (c ∷ cs) =
    let found = has_prefix (c ∷ cs) t in
    let rest = remove_all_from (if found then length t - 1 else 0) t cs in
    if found then rest else c ∷ rest

abbrev pub remove_all : Str → Str → Str
remove_all = remove_all_from 0

-- strings.Contains
unfoldable pub contains : Str → Str → Bool
unfolding has_prefix
contains [] t = has_prefix [] t
contains (c ∷ cs) t = has_prefix (c ∷ cs) t || contains cs t

-- strings.ContainsRune for an ASCII rune, and strings.ContainsAny by its test
unfoldable pub contains_by : (ℕ → Bool) → Str → Bool
contains_by p [] = false
contains_by p (c ∷ cs) = p c || contains_by p cs

abbrev pub contains_byte : ℕ → Str → Bool
contains_byte b = contains_by (λ c. c == b)

abbrev pub cons_first : ℕ → List Str → List Str
cons_first c [] = (c ∷ []) ∷ []
cons_first c (w ∷ ws) = (c ∷ w) ∷ ws

-- The parts between the bytes that pass the test, empty ones included.
unfoldable pub split_by : (ℕ → Bool) → Str → List Str
split_by p [] = [] ∷ []
split_by p (c ∷ cs) = let rest = split_by p cs in if p c then [] ∷ rest else cons_first c rest

-- strings.Split by a separator of one byte
abbrev pub split : ℕ → Str → List Str
split sep = split_by (λ c. c == sep)

-- strings.FieldsFunc
unfoldable pub fields_by : (ℕ → Bool) → Str → List Str
unfolding split_by is_empty
fields_by p s = keep (λ w. not (is_empty w)) (split_by p s)

-- strings.Join by a separator of one byte
unfoldable pub join : ℕ → List Str → Str
join sep [] = []
join sep (w ∷ []) = w
join sep (w ∷ v ∷ ws) = w ++ (sep ∷ join sep (v ∷ ws))

pub str_eq_iff : (a b : Str) → (str_eq a b ≡ true) ↔ (a ≡ b)
unfolding str_eq
str_eq_iff (x ∷ a) (y ∷ b) = ground (arith, str_eq_iff a b)
str_eq_iff _ _ = ground arith

pub str_eq_refl : (a : Str) → str_eq a a ≡ true
str_eq_refl a = (str_eq_iff a a).1 refl

pub is_empty-nil : (a : Str) → is_empty a ≡ true → a ≡ []
unfolding is_empty
is_empty-nil [] h = refl
is_empty-nil (c ∷ cs) h = absurd (false≢true h)
