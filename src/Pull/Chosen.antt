-- ===== src/Pull/Chosen.antt =====
-- The files that the pull command may download.
use hali_client.Base.{
  ℕ, zero, suc, not, ◌&&◌, List, [], ◌∷◌, Str, trim_space, equal_fold, Option, none, some, ok, err,
  Result, Bool-cases, inl, inr, All, is_empty,
}
use hali_client.Base.Int.{ℤ, pos, eqb_ℤ}
use hali_client.Hf.Files.{File}
use hali_client.Pull.{
  Options, DownloadPlan, PullError, Choice, selected, full_repo, only_gguf_files, find_file,
  find_files, found_or, shard_files, covered_files, with_plan, planned, gguf_of_plan, route, choose,
  nth, at_pick, is_nil, by_name, by_names, picked, full, whole_repo,
}
use hali_client.Pull.Order.{IsTrimmedGguf, only_gguf-IsTrimmedGguf}

abbrev FromOption : (File → Type 0) → Option File → Type 0
FromOption P none = Unit
FromOption P (some f) = P f

abbrev pub IsNonempty : List File → Type 0
IsNonempty [] = ⊥
IsNonempty (f ∷ fs) = Unit

-- At least one file is chosen for the whole repository, and each file has P.
abbrev pub IsChoice : (File → Type 0) → Result PullError Choice → Type 0
IsChoice P (err e) = Unit
IsChoice P (ok (selected fs)) = All P fs
IsChoice P (ok (full_repo fs)) = IsNonempty fs × All P fs

find_file_has :
    (P : File → Type 0) (w : Str) (fs : List File) → All P fs → FromOption P (find_file w fs)
unfolding find_file
find_file_has P w [] a = tt
find_file_has P w (f ∷ fs) (p, a) = elim (Bool-cases (equal_fold (trim_space f.name) w)) [
  | inl h ↦ rw h p
  | inr h ↦ rw h (find_file_has P w fs a)
]

abbrev FromResult : (File → Type 0) → Result Str (List File) → Type 0
FromResult P (err e) = Unit
FromResult P (ok fs) = All P fs

found_or_has :
    (P : File → Type 0) (w : Str) (o : Option File) (r : Result Str (List File))
    → FromOption P o
    → FromResult P r
    → FromResult P (found_or w o r)
found_or_has P w none r a b = tt
found_or_has P w (some f) (ok fs) a b = (a, b)
found_or_has P w (some f) (err e) a b = tt

find_files_has :
    (P : File → Type 0) (ws : List Str) (fs : List File)
    → All P fs
    → FromResult P (find_files ws fs)
unfolding find_files
find_files_has P [] fs a = tt
find_files_has P (w ∷ ws) fs a =
    found_or_has P w (find_file w fs) (find_files ws fs) (find_file_has P w fs a)
      (find_files_has P ws fs a)

nth_has : (P : File → Type 0) (fs : List File) (i : ℕ) → All P fs → FromOption P (nth fs i)
nth_has P [] i a = tt
nth_has P (f ∷ fs) zero (p, a) = p
nth_has P (f ∷ fs) (suc i) (p, a) = nth_has P fs i a

at_pick_has :
    (P : File → Type 0) (fs : List File) (o : Option ℕ) → All P fs → FromOption P (at_pick fs o)
at_pick_has P fs none a = tt
at_pick_has P fs (some i) a = nth_has P fs i a

by_name-IsChoice :
    (P : File → Type 0) (w : Str) (o : Option File) → FromOption P o → IsChoice P (by_name w o)
by_name-IsChoice P w none p = tt
by_name-IsChoice P w (some f) p = (p, tt)

picked-IsChoice : (P : File → Type 0) (o : Option File) → FromOption P o → IsChoice P (picked o)
picked-IsChoice P none p = tt
picked-IsChoice P (some f) p = (p, tt)

by_names-IsChoice :
    (P : File → Type 0) (r : Result Str (List File)) → FromResult P r → IsChoice P (by_names r)
by_names-IsChoice P (err e) p = tt
by_names-IsChoice P (ok fs) p = p

full-IsChoice : (P : File → Type 0) (fs : List File) → All P fs → IsChoice P (full fs)
full-IsChoice P [] a = tt
full-IsChoice P (f ∷ fs) a = (tt, a)

shard_files-IsTrimmedGguf : (plan : DownloadPlan) → All IsTrimmedGguf (shard_files plan)
unfolding shard_files
shard_files-IsTrimmedGguf plan = only_gguf-IsTrimmedGguf (covered_files plan)

whole_repo-IsChoice :
    (fs : List File) (o : Option DownloadPlan)
    → All IsTrimmedGguf fs
    → IsChoice IsTrimmedGguf (whole_repo fs o)
whole_repo-IsChoice fs none a = full-IsChoice IsTrimmedGguf fs a
whole_repo-IsChoice fs (some plan) a =
    elim (Bool-cases (plan.grouped && not (is_nil plan.shard_groups))) [
      | inl h ↦
          rw h (full-IsChoice IsTrimmedGguf (shard_files plan) (shard_files-IsTrimmedGguf plan))
      | inr h ↦ rw h (full-IsChoice IsTrimmedGguf fs a)
    ]

route-IsChoice :
    (opts : Options) (i : ℤ) (pick : Option File) (fs : List File) (o : Option DownloadPlan)
    → All IsTrimmedGguf fs
    → FromOption IsTrimmedGguf pick
    → IsChoice IsTrimmedGguf (route opts i pick fs o)
unfolding route
route-IsChoice opts i pick fs o a p = elim (Bool-cases (is_nil fs)) [
  | inl h ↦ rw h tt
  | inr h ↦ rw h (elim (Bool-cases (is_empty opts.file_name)) [
    | inr k ↦ rw k (
        by_name-IsChoice IsTrimmedGguf opts.file_name _
          (find_file_has IsTrimmedGguf (trim_space opts.file_name) fs a))
    | inl k ↦ rw k (elim (Bool-cases (eqb_ℤ i (pos 0))) [
      | inr l ↦ rw l (picked-IsChoice IsTrimmedGguf pick p)
      | inl l ↦ rw l (elim (Bool-cases (is_nil opts.files)) [
        | inr m ↦
            rw m (by_names-IsChoice IsTrimmedGguf _ (find_files_has IsTrimmedGguf opts.files fs a))
        | inl m ↦ rw m (whole_repo-IsChoice fs o a)
      ])
    ])
  ])
]

planned-IsTrimmedGguf :
    (fs : List File) (plan : DownloadPlan) (gs : List File)
    → All IsTrimmedGguf fs
    → All IsTrimmedGguf (planned fs plan gs).0
planned-IsTrimmedGguf fs plan [] a = a
planned-IsTrimmedGguf fs plan (g ∷ gs) a = only_gguf-IsTrimmedGguf (g ∷ gs)

with_plan-IsTrimmedGguf :
    (fs : List File) (o : Option DownloadPlan)
    → All IsTrimmedGguf fs
    → All IsTrimmedGguf (with_plan fs o).0
unfolding with_plan
with_plan-IsTrimmedGguf fs none a = a
with_plan-IsTrimmedGguf fs (some plan) a = planned-IsTrimmedGguf fs plan (gguf_of_plan plan.files) a

-- Whatever the options, the answer of the prompt, the repository's list and the registry's plan are,
-- each file that is downloaded is a GGUF file with a trimmed name, and there is at least one when the
-- whole repository is downloaded.
pub choose-IsChoice :
    (opts : Options) (i : ℤ) (pick : ℕ → Option ℕ) (listed : List File) (o : Option DownloadPlan)
    → IsChoice IsTrimmedGguf (choose opts i pick listed o)
unfolding choose
choose-IsChoice opts i pick listed o =
    let own = only_gguf-IsTrimmedGguf listed in
    let a = with_plan-IsTrimmedGguf (only_gguf_files listed) o own in
    elim (Bool-cases (is_nil (only_gguf_files listed))) [
      | inl h ↦ rw h tt
      | inr h ↦ rw h (
          route-IsChoice opts i _ _ (with_plan (only_gguf_files listed) o).1 a
            (at_pick_has IsTrimmedGguf _ _ a))
    ]
