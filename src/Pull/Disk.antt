-- ===== src/Pull/Disk.antt =====
-- cmd/pull.go: the check of the disk space in front of a download.
use hali_client.Base.{
  List, [], ◌∷◌, ◌++◌, Str, codes, Option, none, some, Result, ok, err, if◌then◌else◌,
}
use hali_client.Base.Int.{ℤ, pos, ◌+ℤ◌, ◌-ℤ◌, ltb_ℤ, leb_ℤ}
use hali_client.Hf.Files.{File}

-- Stat of a path, with the size of the file if there is one
abbrev pub larger : ℤ → Option ℤ → ℤ
larger size none = size
larger size (some n) = if ltb_ℤ size n then n else size

-- existingFileOrPartialSize
unfoldable pub existing_file_or_partial_size : (Str → Option ℤ) → Str → ℤ
existing_file_or_partial_size stat path =
    larger (larger (pos 0) (stat path)) (stat (path ++ codes ".tmp"))

abbrev pub at_least_zero : ℤ → ℤ
at_least_zero n = if ltb_ℤ n (pos 0) then pos 0 else n

-- The loop of ensureEnoughDiskSpace: the bytes that are missing, and the names of the files of
-- unknown size; `path_of` is where a file is stored.
unfoldable pub preflight : (Str → Option ℤ) → (File → Str) → List File → ℤ → List Str → ℤ × List Str
unfolding existing_file_or_partial_size
preflight stat path_of [] need unknown = (need, unknown)
preflight stat path_of (f ∷ fs) need unknown =
    let is_unknown = leb_ℤ f.size (pos 0) in
    let missing = at_least_zero (f.size -ℤ existing_file_or_partial_size stat (path_of f)) in
    preflight stat path_of fs (if is_unknown then need else need +ℤ missing)
      (if is_unknown then unknown ++ f.name ∷ [] else unknown)

pub data DiskError : Type 0 where
  unknown_sizes : List Str → DiskError
  no_free_space : Str → DiskError
  insufficient : DiskError

abbrev pub compared : ℤ → Result Str ℤ → Result DiskError (Unit {0})
compared need (err e) = err (no_free_space e)
compared need (ok available) = if ltb_ℤ available need then err insufficient else ok tt

abbrev pub space_for : ℤ × List Str → Result Str ℤ → Result DiskError (Unit {0})
space_for (need, []) free = compared need free
space_for (need, n ∷ ns) free = err (unknown_sizes (n ∷ ns))

-- ensureEnoughDiskSpace
unfoldable pub ensure_enough_disk_space :
    (Str → Option ℤ) → (File → Str) → Result Str ℤ → List File → Result DiskError (Unit {0})
unfolding preflight
ensure_enough_disk_space stat path_of free [] = ok tt
ensure_enough_disk_space stat path_of free (f ∷ fs) =
    space_for (preflight stat path_of (f ∷ fs) (pos 0) []) free
