-- ===== src/Pull/Tests.antt =====
-- Tests and witnesses for the choice of files.
use mathlib.Core.List.{Permᴰ}
use hali_client.Base.{
  ℕ, true, List, [], ◌∷◌, ◌&&◌, ◌||◌, Str, codes, none, some, ok, ◌≡◌, refl, InOrder, trim_space,
  to_lower, is_empty, str_eq, str_lt, sort, equal_fold,
}
use hali_client.Base.Int.{pos}
use hali_client.Hf.Files.{File}
use hali_client.Pull.{
  Options, DownloadPlan, parse_repo_arg, file_of, run_pull, is_gguf_name, only_gguf_files,
  trimmed_gguf, name_less, shard_files, covered_files, cover, cover_file, cover_groups, is_covered,
  choose, selected, route, with_plan, find_file, split_once,
}
use hali_client.Pull.Chosen.{IsChoice, choose-IsChoice}
use hali_client.Pull.Names.{
  split_repo_id, build_hf_source_url, model_id_for_download, collection_model_id,
}
use hali_client.Pull.Order.{IsNamedBefore, gguf_part, IsTrimmedGguf, only_gguf_files-IsAscending}
use hali_client.Pull.Shards.{DistinctNames, in_groups, covered_files-names}

parses_file : parse_repo_arg (codes "o/r?x=1&file=m.gguf") ≡ (codes "o/r", codes "m.gguf")
unfolding parse_repo_arg file_of split_once
parses_file = refl

flag_before_query :
    (run_pull (codes "a.gguf") (codes " b , ,c") true (codes "o/r?file=m.gguf")).file_name
    ≡ codes "a.gguf"
unfolding run_pull parse_repo_arg is_empty
flag_before_query = refl

abbrev file : Str → ℕ → File
file name size = record { name = name; size = pos size }

abbrev listed : List File
listed = file (codes "b.gguf") 2 ∷ file (codes "readme.md") 1 ∷ file (codes " A.GGUF ") 3 ∷ []

sorted_files : only_gguf_files listed ≡ file (codes "A.GGUF") 3 ∷ file (codes "b.gguf") 2 ∷ []
unfolding only_gguf_files trimmed_gguf is_gguf_name sort name_less trim_space to_lower str_lt str_eq
sorted_files = refl

abbrev plan : DownloadPlan
plan = record {
  grouped = true;
  files = file (codes "a-1.gguf") 1 ∷ file (codes "c.gguf") 3 ∷ file (codes "notes.txt") 1 ∷ [];
  shard_groups =
      (file (codes "a-2.gguf") 2 ∷ file (codes "a-1.gguf") 1 ∷ [])
      ∷ (file (codes "a-1.gguf") 1 ∷ [])
      ∷ [];
}

sharded :
    shard_files plan
    ≡ file (codes "a-1.gguf") 1 ∷ file (codes "a-2.gguf") 2 ∷ file (codes "c.gguf") 3 ∷ []
unfolding shard_files covered_files cover cover_file cover_groups only_gguf_files trimmed_gguf
    is_gguf_name sort name_less trim_space to_lower str_lt str_eq
sharded = refl

abbrev options : Str → Options
options name = record {
  repo = codes "o/r";
  revision = [];
  file_name = name;
  files = [];
  non_interactive = true;
}

chosen_by_name :
    choose (options (codes "B.gguf")) (pos 0) (λ n. none) listed none
    ≡ ok (selected (file (codes "b.gguf") 2 ∷ []))
unfolding choose route with_plan only_gguf_files trimmed_gguf is_gguf_name sort name_less trim_space
    to_lower str_lt str_eq find_file equal_fold is_empty
chosen_by_name = refl

-- The id of a file whose name has no quantization is not checked: its last part may be two dots.
unsafe_fallback :
    (model_id_for_download (codes "o/some-repo") (codes "main") (file (codes "...gguf") 1)).quant
    ≡ codes ".."
unfolding model_id_for_download
unsafe_fallback = refl

source_url :
    build_hf_source_url (codes "/o/r/") [] (codes " m.gguf")
    ≡ codes "https://huggingface.co/o/r/resolve/main/m.gguf"
unfolding build_hf_source_url
source_url = refl

collection_quant :
    (collection_model_id (codes "O/R") (codes "v:1") (codes "0123456789abcdef")).quant
    ≡ codes "set_0123456789ab"
unfolding collection_model_id
collection_quant = refl

split_repo : split_repo_id (codes " /o/ r/ ") ≡ some (codes "o", codes "r")
unfolding split_repo_id
split_repo = refl

choose-IsChoice_example :
    IsChoice IsTrimmedGguf (choose (options []) (pos 0) (λ n. none) listed (some plan))
choose-IsChoice_example = choose-IsChoice (options []) (pos 0) (λ n. none) listed (some plan)

covered_files-names_example :
    DistinctNames (covered_files plan)
    × ((n : Str)
        → is_covered n (covered_files plan)
          ≡ (is_gguf_name n && (in_groups n plan.shard_groups || is_covered n plan.files)))
covered_files-names_example = covered_files-names plan

only_gguf_files-IsAscending_example :
    InOrder IsNamedBefore (only_gguf_files listed)
    × Permᴰ (only_gguf_files listed) (gguf_part listed)
    × (only_gguf_files (only_gguf_files listed) ≡ only_gguf_files listed)
only_gguf_files-IsAscending_example = only_gguf_files-IsAscending listed
