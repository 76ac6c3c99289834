-- ===== src/Pull.antt =====
-- cmd/pull.go: what the pull command asks for and which files of a repository it takes. A file
-- system, the searches and the prompts are parameters.
pub mod Order
pub mod Chosen
pub mod Shards
pub mod Names
pub mod Pool
pub mod Poll
pub mod Collection
pub mod Disk
pub mod Lan
pub mod One
mod Tests
use hali_client.Base.{
  ℕ, zero, suc, length, Bool, true, false, not, ◌&&◌, ◌||◌, List, [], ◌∷◌, ◌++◌, Str, codes,
  to_lower, trim_space, is_empty, str_eq, str_lt, equal_fold, has_prefix, has_suffix, trim_prefix,
  split, split_by, sort, Option, none, some, ◌==◌, if◌then◌else◌, Result, ok, err,
}
use hali_client.Base.Int.{ℤ, pos, eqb_ℤ}
use hali_client.Hf.Files.{File}

-- strings.Index for one byte: the text in front of the first `c` and the text behind it
unfoldable pub split_once : ℕ → Str → Option (Str × Str)
split_once c [] = none
split_once c (d ∷ ds) =
    let rest = split_once c ds in
    if d == c then some ([], ds) else elim rest [ none ↦ none | some r ↦ some (d ∷ r.0, r.1) ]

abbrev pub file_key : Str
file_key = codes "file="

unfoldable pub file_of : List Str → Str
unfolding has_prefix trim_prefix
file_of [] = []
file_of (kv ∷ kvs) =
    let rest = file_of kvs in if has_prefix kv file_key then trim_prefix kv file_key else rest

-- parseRepoArg
unfoldable pub parse_repo_arg : Str → Str × Str
unfolding file_of split_once split_by
parse_repo_arg raw = elim (split_once b'?' raw) [
  | none ↦ (raw, [])
  | some r ↦ (r.0, file_of (split b'&' r.1))
]

pub record Options : Type 0 where
  pub repo : Str
  pub revision : Str
  pub file_name : Str
  pub files : List Str
  pub non_interactive : Bool

unfoldable pub trimmed_names : List Str → List Str
unfolding trim_space is_empty
trimmed_names [] = []
trimmed_names (w ∷ ws) =
    let rest = trimmed_names ws in
    let t = trim_space w in if not (is_empty t) then t ∷ rest else rest

-- runPull, with the flags --file-name, --files and --non-interactive
unfoldable pub run_pull : Str → Str → Bool → Str → Options
unfolding parse_repo_arg trimmed_names is_empty split_by
run_pull flag_name flag_files non_interactive arg =
    let parsed = parse_repo_arg arg in
    record {
      repo = parsed.0;
      revision = [];
      file_name = if not (is_empty flag_name) then flag_name else parsed.1;
      files = trimmed_names (split b',' flag_files);
      non_interactive = non_interactive;
    }

-- isGGUFName
unfoldable pub is_gguf_name : Str → Bool
unfolding has_suffix to_lower trim_space
is_gguf_name name = has_suffix (to_lower (trim_space name)) (codes ".gguf")

-- The test of the stable sorts by name
unfoldable pub name_less : Str → Str → Bool
unfolding to_lower str_eq str_lt
name_less a b =
    let la = to_lower a in let lb = to_lower b in if str_eq la lb then str_lt a b else str_lt la lb

abbrev pub file_less : File → File → Bool
file_less f g = name_less f.name g.name

unfoldable pub trimmed_gguf : List File → List File
unfolding is_gguf_name
trimmed_gguf [] = []
trimmed_gguf (f ∷ fs) =
    let rest = trimmed_gguf fs in
    if not (is_gguf_name f.name)
    then rest
    else record { name = trim_space f.name; size = f.size } ∷ rest

-- onlyGGUFFiles
unfoldable pub only_gguf_files : List File → List File
unfolding trimmed_gguf sort
only_gguf_files fs = sort file_less (trimmed_gguf fs)

-- The first file whose trimmed name is `wanted` up to the case of letters
unfoldable pub find_file : Str → List File → Option File
unfolding equal_fold
find_file wanted [] = none
find_file wanted (f ∷ fs) =
    let rest = find_file wanted fs in if equal_fold (trim_space f.name) wanted then some f else rest

abbrev pub found_or : Str → Option File → Result Str (List File) → Result Str (List File)
found_or wanted none rest = err wanted
found_or wanted (some f) (ok fs) = ok (f ∷ fs)
found_or wanted (some f) (err e) = err e

-- The loop over --files, or the first name that is not among the files
unfoldable pub find_files : List Str → List File → Result Str (List File)
unfolding find_file
find_files [] fs = ok []
find_files (w ∷ ws) fs = found_or w (find_file w fs) (find_files ws fs)

-- registry.DownloadPlan, as far as the pull uses it
pub record DownloadPlan : Type 0 where
  pub grouped : Bool
  pub files : List File
  pub shard_groups : List (List File)

abbrev pub is_covered : Str → List File → Bool
is_covered name [] = false
is_covered name (f ∷ fs) = str_eq name f.name || is_covered name fs

-- One file of the plan: it is added when it is a GGUF file and not there yet; `covered` has the names
-- of `ordered`.
unfoldable pub cover_file : File → List File → List File
unfolding is_gguf_name
cover_file f ordered =
    if not (is_gguf_name f.name) || is_covered f.name ordered
    then ordered
    else ordered ++ record { name = f.name; size = f.size } ∷ []

unfoldable pub cover : List File → List File → List File
unfolding cover_file
cover [] ordered = ordered
cover (f ∷ fs) ordered = cover fs (cover_file f ordered)

unfoldable pub cover_groups : List (List File) → List File → List File
unfolding cover
cover_groups [] ordered = ordered
cover_groups (g ∷ gs) ordered = cover_groups gs (cover g ordered)

-- The two loops of downloadByShardGroups
unfoldable pub covered_files : DownloadPlan → List File
unfolding cover cover_groups
covered_files plan = cover plan.files (cover_groups plan.shard_groups [])

-- downloadByShardGroups up to its call of downloadFullRepoWithCollection
unfoldable pub shard_files : DownloadPlan → List File
unfolding covered_files only_gguf_files
shard_files plan = only_gguf_files (covered_files plan)

-- The loop that makes planFiles
unfoldable pub gguf_of_plan : List File → List File
unfolding is_gguf_name
gguf_of_plan [] = []
gguf_of_plan (f ∷ fs) =
    let rest = gguf_of_plan fs in if not (is_gguf_name f.name) then rest else f ∷ rest

pub data PullError : Type 0 where
  no_gguf_files : PullError
  not_in_variants not_in_repo : Str → PullError
  not_picked : PullError

-- What is downloaded, and whether a collection is made of it
pub data Choice : Type 0 where
  selected : List File → Choice
  full_repo : List File → Choice

abbrev pub picked : Option File → Result PullError Choice
picked none = err not_picked
picked (some f) = ok (selected (f ∷ []))

abbrev pub by_name : Str → Option File → Result PullError Choice
by_name wanted none = err (not_in_variants wanted)
by_name wanted (some f) = ok (selected (f ∷ []))

abbrev pub by_names : Result Str (List File) → Result PullError Choice
by_names (err wanted) = err (not_in_repo wanted)
by_names (ok fs) = ok (selected fs)

abbrev pub full : List File → Result PullError Choice
full [] = err no_gguf_files
full (f ∷ fs) = ok (full_repo (f ∷ fs))

abbrev pub is_nil {ℓ} : {A : Type ℓ} → List A → Bool
is_nil [] = true
is_nil (a ∷ xs) = false

abbrev pub whole_repo : List File → Option DownloadPlan → Result PullError Choice
whole_repo files none = full files
whole_repo files (some plan) =
    if plan.grouped && not (is_nil plan.shard_groups) then full (shard_files plan) else full files

abbrev pub planned : List File → DownloadPlan → List File → List File × Option DownloadPlan
planned files plan [] = (files, none)
planned files plan (f ∷ fs) = (only_gguf_files (f ∷ fs), some plan)

-- The files that are offered, and the plan when it has GGUF files
unfoldable pub with_plan : List File → Option DownloadPlan → List File × Option DownloadPlan
unfolding gguf_of_plan only_gguf_files
with_plan files none = (files, none)
with_plan files (some plan) = planned files plan (gguf_of_plan plan.files)

-- The route that runPullWithOptions takes among the files, with the flag --file-index and the answer
-- of pickOneWithMode
unfoldable pub route :
    Options → ℤ → Option File → List File → Option DownloadPlan → Result PullError Choice
unfolding is_empty find_file find_files shard_files trim_space
route opts file_index pick files plan =
    if is_nil files
    then err no_gguf_files
    else if not (is_empty opts.file_name)
    then by_name opts.file_name (find_file (trim_space opts.file_name) files)
    else if not (eqb_ℤ file_index (pos 0))
    then picked pick
    else if not (is_nil opts.files)
    then by_names (find_files opts.files files)
    else whole_repo files plan

abbrev pub nth {ℓ} : {A : Type ℓ} → List A → ℕ → Option A
nth [] i = none
nth (a ∷ xs) zero = some a
nth (a ∷ xs) (suc i) = nth xs i

abbrev pub at_pick {ℓ} : {A : Type ℓ} → List A → Option ℕ → Option A
at_pick xs none = none
at_pick xs (some i) = nth xs i

-- runPullWithOptions between GetFiles and the downloads; `pick` gives the index that pickOneWithMode
-- returns for a number of labels.
unfoldable pub choose :
    Options → ℤ → (ℕ → Option ℕ) → List File → Option DownloadPlan → Result PullError Choice
unfolding with_plan route only_gguf_files
choose opts file_index pick listed plan =
    let own = only_gguf_files listed in
    let offered = with_plan own plan in
    if is_nil own
    then err no_gguf_files
    else route opts file_index (at_pick offered.0 (pick (length offered.0))) offered.0 offered.1
