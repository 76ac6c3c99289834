-- ===== src/Hf/Files.antt =====
-- internal/hf/client.go: the list of a repository's GGUF files that GetFiles makes of the API's answers.
pub mod Sorted
use hali_client.Base.{
  ℕ, Bool, true, false, not, ◌&&◌, ◌||◌, List, [], ◌∷◌, Str, codes, to_lower, has_suffix, is_empty,
  str_eq, str_lt, fields_by, Option, none, some, Dict, lookup, insert, ltb, leb, ◌==◌,
  if◌then◌else◌,
}
use hali_client.Base.Int.{ℤ, pos, ltb_ℤ, leb_ℤ}

-- apiFile and treeFile: a name or path, the size, and the size in LFS if there is one
pub record ApiFile : Type 0 where
  pub name : Str
  pub size : ℤ
  pub lfs : Option ℤ

pub record File : Type 0 where
  pub name : Str
  pub size : ℤ

abbrev lfs_or : ℤ → Option ℤ → ℤ
lfs_or size none = size
lfs_or size (some n) = n

abbrev pub size_of : ApiFile → ℤ
size_of f = if leb_ℤ f.size (pos 0) then lfs_or f.size f.lfs else f.size

abbrev pub is_known : ℤ → Bool
is_known size = ltb_ℤ (pos 0) size

unfoldable pub is_gguf : Str → Bool
is_gguf name = has_suffix (to_lower name) (codes ".gguf")

unfoldable pub gguf_files : List ApiFile → List File
gguf_files [] = []
gguf_files (f ∷ fs) =
    let rest = gguf_files fs in
    if is_gguf f.name then record { name = f.name; size = size_of f } ∷ rest else rest

-- needTreeSizes
unfoldable pub need_tree_sizes : List File → Bool
need_tree_sizes [] = false
need_tree_sizes (f ∷ fs) = not (is_known f.size) || need_tree_sizes fs

abbrev pub last_of : List Str → Option Str
last_of [] = none
last_of (w ∷ []) = some w
last_of (w ∷ v ∷ ws) = last_of (v ∷ ws)

abbrev pub base_or : Str → Option Str → Str
base_or path none = if is_empty path then codes "." else codes "/"
base_or path (some w) = w

-- filepath.Base
unfoldable pub base : Str → Str
base path = base_or path (last_of (fields_by (λ c. c == b'/') path))

-- The loop of getTreeGGUFSizes over the tree
unfoldable pub tree_sizes : List ApiFile → Dict ℤ → Dict ℤ
tree_sizes [] sizes = sizes
tree_sizes (f ∷ fs) sizes = tree_sizes fs (
    if not (is_gguf f.name)
    then sizes
    else if not (is_known (size_of f))
    then sizes
    else insert (base f.name) (size_of f) sizes)

abbrev pub or_size : ℤ → Option ℤ → ℤ
or_size size none = size
or_size size (some n) = if is_known n then n else size

abbrev pub with_size : Dict ℤ → File → File
with_size sizes f = record f {
  size = if is_known f.size then f.size else or_size f.size (lookup f.name sizes);
}

unfoldable pub fill_sizes : Dict ℤ → List File → List File
fill_sizes sizes [] = []
fill_sizes sizes (f ∷ fs) = with_size sizes f ∷ fill_sizes sizes fs

-- The sizes of the tree, if it is needed and the request for it succeeds
abbrev pub with_tree : Option (List ApiFile) → List File → List File
with_tree none fs = fs
with_tree (some tree) fs = if need_tree_sizes fs then fill_sizes (tree_sizes tree []) fs else fs

-- The order of sort.Slice
abbrev pub is_before : File → File → Bool
is_before f g =
    if is_known f.size && is_known g.size
    then ltb_ℤ f.size g.size
    else if is_known f.size
    then true
    else if is_known g.size
    then false
    else str_lt (to_lower f.name) (to_lower g.name)

unfoldable pub insert_file : File → List File → List File
insert_file f [] = f ∷ []
insert_file f (g ∷ gs) =
    let rest = insert_file f gs in if is_before g f then g ∷ rest else f ∷ g ∷ gs

unfoldable pub sort_files : List File → List File
unfolding insert_file
sort_files [] = []
sort_files (f ∷ fs) = insert_file f (sort_files fs)

-- GetFiles behind its requests: the files, and the revision
unfoldable pub get_files : Str → Str → List ApiFile → Option (List ApiFile) → List File × Str
get_files revision sha siblings tree =
    (sort_files (with_tree tree (gguf_files siblings)), if is_empty revision then sha else revision)
