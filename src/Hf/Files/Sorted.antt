-- ===== src/Hf/Files/Sorted.antt =====
-- The list of files: its order, its members, and the sizes that it takes from the tree.
use hali_client.Base.{
  ◌≡◌, ◌≢◌, ◌⊎◌, inl, inr, refl, ap, ◌∙◌, Bool, true, false, not, List, [], ◌∷◌, Str, codes,
  contains_byte, contains_by, fields_by, split_by-All, keep, is_empty, Bool-cases, Option,
  Option-cases, none, some, Dict, lookup, insert, All, All-insert, All-lookup, arith, ◌==◌, suc,
  length,
}
use hali_client.Base.Int.{ℤ, pos, ◌≤ℤ◌, ◌<ℤ◌}
use hali_client.Hf.Files.{
  ApiFile, File, is_known, is_gguf, gguf_files, size_of, tree_sizes, base, base_or, last_of,
  with_tree, fill_sizes, need_tree_sizes, is_before, insert_file, sort_files, get_files,
}

-- A file with a known size stands behind files with a known size that is not larger.
abbrev pub IsNotLarger : File → File → Type 0
IsNotLarger f g = pos 0 <ℤ g.size → (pos 0 <ℤ f.size) × (f.size ≤ℤ g.size)

abbrev pub IsSmallestFirst : List File → Type 0
IsSmallestFirst [] = Unit
IsSmallestFirst (f ∷ fs) = All (IsNotLarger f) fs × IsSmallestFirst fs

is_before-IsNotLarger : (f g : File) → is_before f g ≡ true → IsNotLarger f g
is_before-IsNotLarger f g h k = ground arith

not_before-IsNotLarger : (f g : File) → is_before g f ≡ false → IsNotLarger f g
not_before-IsNotLarger f g h k = ground arith

IsNotLarger-trans : (f g k : File) → IsNotLarger f g → IsNotLarger g k → IsNotLarger f k
IsNotLarger-trans f g k a b h = let (p, q) = b h in let (r, s) = a p in (r, omega (arith, q, s))

All-IsNotLarger :
    (f g : File) (fs : List File)
    → IsNotLarger f g
    → All (IsNotLarger g) fs
    → All (IsNotLarger f) fs
All-IsNotLarger f g [] h a = tt
All-IsNotLarger f g (k ∷ ks) h (b, a) = (IsNotLarger-trans f g k h b, All-IsNotLarger f g ks h a)

All-insert_file :
    (P : File → Type 0) (f : File) (fs : List File) → P f → All P fs → All P (insert_file f fs)
unfolding insert_file
All-insert_file P f [] p a = (p, tt)
All-insert_file P f (g ∷ gs) p (q, a) = elim (Bool-cases (is_before g f)) [
  | inl e ↦ rw e (q, All-insert_file P f gs p a)
  | inr e ↦ rw e (p, (q, a))
]

All-sort_files : (P : File → Type 0) (fs : List File) → All P fs → All P (sort_files fs)
unfolding sort_files
All-sort_files P [] a = tt
All-sort_files P (f ∷ fs) (p, a) = All-insert_file P f (sort_files fs) p (All-sort_files P fs a)

insert_file-IsSmallestFirst :
    (f : File) (fs : List File) → IsSmallestFirst fs → IsSmallestFirst (insert_file f fs)
unfolding insert_file
insert_file-IsSmallestFirst f [] s = (tt, tt)
insert_file-IsSmallestFirst f (g ∷ gs) (a, s) = elim (Bool-cases (is_before g f)) [
  | inl e ↦ rw e (
    All-insert_file (IsNotLarger g) f gs (is_before-IsNotLarger g f e) a,
    insert_file-IsSmallestFirst f gs s,
  )
  | inr e ↦ let n = not_before-IsNotLarger f g e in rw e ((n, All-IsNotLarger f g gs n a), (a, s))
]

sort_files-IsSmallestFirst : (fs : List File) → IsSmallestFirst (sort_files fs)
unfolding sort_files
sort_files-IsSmallestFirst [] = tt
sort_files-IsSmallestFirst (f ∷ fs) =
    insert_file-IsSmallestFirst f (sort_files fs) (sort_files-IsSmallestFirst fs)

abbrev pub HasGgufName : File → Type 0
HasGgufName f = is_gguf f.name ≡ true

gguf_files-All : (fs : List ApiFile) → All HasGgufName (gguf_files fs)
unfolding gguf_files
gguf_files-All [] = tt
gguf_files-All (f ∷ fs) = elim (Bool-cases (is_gguf f.name)) [
  | inl e ↦ rw e (e, gguf_files-All fs)
  | inr e ↦ rw e (gguf_files-All fs)
]

fill_sizes-All :
    (sizes : Dict ℤ) (fs : List File) → All HasGgufName fs → All HasGgufName (fill_sizes sizes fs)
unfolding fill_sizes
fill_sizes-All sizes [] a = tt
fill_sizes-All sizes (f ∷ fs) (p, a) = (p, fill_sizes-All sizes fs a)

with_tree-All :
    (tree : Option (List ApiFile)) (fs : List File)
    → All HasGgufName fs
    → All HasGgufName (with_tree tree fs)
with_tree-All none fs a = a
with_tree-All (some tree) fs a = elim (Bool-cases (need_tree_sizes fs)) [
  | inl e ↦ rw e (fill_sizes-All (tree_sizes tree []) fs a)
  | inr e ↦ rw e a
]

length-insert_file : (f : File) (fs : List File) → length (insert_file f fs) ≡ suc (length fs)
unfolding insert_file
length-insert_file f [] = refl
length-insert_file f (g ∷ gs) = ground (arith, length-insert_file f gs)

length-sort_files : (fs : List File) → length (sort_files fs) ≡ length fs
unfolding sort_files
length-sort_files [] = refl
length-sort_files (f ∷ fs) = length-insert_file f (sort_files fs) ∙ ap suc (length-sort_files fs)

length-fill_sizes : (sizes : Dict ℤ) (fs : List File) → length (fill_sizes sizes fs) ≡ length fs
unfolding fill_sizes
length-fill_sizes sizes [] = refl
length-fill_sizes sizes (f ∷ fs) = ap suc (length-fill_sizes sizes fs)

length-with_tree :
    (tree : Option (List ApiFile)) (fs : List File) → length (with_tree tree fs) ≡ length fs
length-with_tree none fs = refl
length-with_tree (some tree) fs = elim (Bool-cases (need_tree_sizes fs)) [
  | inl e ↦ rw e (length-fill_sizes (tree_sizes tree []) fs)
  | inr e ↦ rw e refl
]

-- The list of GetFiles has as many entries as the repository has GGUF files, all of them named so; and
-- a file with a known size stands only behind files with a known size that is not larger.
get_files-IsSmallestFirst :
    (revision sha : Str) (siblings : List ApiFile) (tree : Option (List ApiFile))
    → let files = (get_files revision sha siblings tree).0 in
      IsSmallestFirst files × All HasGgufName files × (length files ≡ length (gguf_files siblings))
unfolding get_files
get_files-IsSmallestFirst revision sha siblings tree =
    let fs = with_tree tree (gguf_files siblings) in
    (
      sort_files-IsSmallestFirst fs,
      All-sort_files HasGgufName fs
          (with_tree-All tree (gguf_files siblings) (gguf_files-All siblings)),
      length-sort_files fs ∙ length-with_tree tree (gguf_files siblings),
    )

-- A name without a directory
abbrev IsBase : Str → Type 0
IsBase w = (contains_byte b'/' w ≡ false) ⊎ (w ≡ codes "/")

keep-All :
    (q : Str → Bool) (ws : List Str)
    → All (λ w. contains_byte b'/' w ≡ false) ws
    → All (λ w. contains_byte b'/' w ≡ false) (keep q ws)
keep-All q [] a = tt
keep-All q (w ∷ ws) (p, a) = elim (Bool-cases (q w)) [
  | inl e ↦ rw e (p, keep-All q ws a)
  | inr e ↦ rw e (keep-All q ws a)
]

last_of-IsBase :
    (path : Str) (ws : List Str)
    → All (λ w. contains_byte b'/' w ≡ false) ws
    → IsBase (base_or path (last_of ws))
unfolding contains_by
last_of-IsBase path [] a = elim (Bool-cases (is_empty path)) [
  | inl e ↦ rw e (inl refl)
  | inr e ↦ rw e (inr refl)
]
last_of-IsBase path (w ∷ []) (p, a) = inl p
last_of-IsBase path (w ∷ v ∷ ws) (p, a) = last_of-IsBase path (v ∷ ws) a

base-IsBase : (path : Str) → IsBase (base path)
unfolding base fields_by
base-IsBase path =
    last_of-IsBase path _ (keep-All (λ w. not (is_empty w)) _ (split_by-All (λ c. c == b'/') path))

tree_sizes-All :
    (tree : List ApiFile) (sizes : Dict ℤ)
    → All (λ (x : Str × ℤ). IsBase x.0) sizes
    → All (λ (x : Str × ℤ). IsBase x.0) (tree_sizes tree sizes)
unfolding tree_sizes
tree_sizes-All [] sizes a = a
tree_sizes-All (f ∷ fs) sizes a = elim (Bool-cases (is_gguf f.name)) [
  | inr e ↦ rw e (tree_sizes-All fs sizes a)
  | inl e ↦ rw e (elim (Bool-cases (is_known (size_of f))) [
    | inr n ↦ rw n (tree_sizes-All fs sizes a)
    | inl n ↦ rw n (
        tree_sizes-All fs (insert (base f.name) (size_of f) sizes) (
          All-insert (λ (x : Str × ℤ). IsBase x.0) (base f.name) (size_of f) sizes a
            (base-IsBase f.name)))
  ])
]

-- The tree of a repository gives no size for a file inside a directory: the sizes are kept under the
-- last parts of the paths, but they are looked up under the whole names.
tree_sizes_directory :
    (tree : List ApiFile) (name : Str)
    → contains_byte b'/' name ≡ true
    → name ≢ codes "/"
    → lookup name (tree_sizes tree []) ≡ none
tree_sizes_directory tree name h n = elim (Option-cases (lookup name (tree_sizes tree []))) [
  | inl missing ↦ missing
  | inr found ↦
      let b =
        All-lookup (λ (x : Str × ℤ). IsBase x.0) name found.0 (tree_sizes tree [])
          (tree_sizes-All tree [] tt) found.1 in
      absurd (elim b [ inl p ↦ cc (h, p) | inr q ↦ n q ])
]
