-- ===== src/Pull/Shards.antt =====
-- The files of a download plan in shard groups.
use hali_client.Base.{
  Bool, false, not, ◌&&◌, ◌||◌, List, [], ◌∷◌, ◌++◌, Str, str_eq, str_eq_iff, str_eq_refl, ◌≡◌,
  refl, arith, Bool-cases, inl, inr, if◌then◌else◌,
}
use hali_client.Hf.Files.{File}
use hali_client.Pull.{
  DownloadPlan, is_gguf_name, is_covered, cover, cover_file, cover_groups, covered_files,
}

abbrev pub in_groups : Str → List (List File) → Bool
in_groups n [] = false
in_groups n (g ∷ gs) = is_covered n g || in_groups n gs

abbrev pub DistinctNames : List File → Type 0
DistinctNames [] = Unit
DistinctNames (f ∷ fs) = (is_covered f.name fs ≡ false) × DistinctNames fs

is_covered-append :
    (n : Str) (fs gs : List File) → is_covered n (fs ++ gs) ≡ (is_covered n fs || is_covered n gs)
is_covered-append n [] gs = refl
is_covered-append n (f ∷ fs) gs = ground (arith, is_covered-append n fs gs)

str_eq_sym : (a b : Str) → str_eq a b ≡ str_eq b a
unfolding str_eq
str_eq_sym [] [] = refl
str_eq_sym [] (y ∷ ys) = refl
str_eq_sym (x ∷ xs) [] = refl
str_eq_sym (x ∷ xs) (y ∷ ys) = ground (arith, str_eq_sym xs ys)

DistinctNames-append :
    (fs : List File) (g : File)
    → DistinctNames fs
    → is_covered g.name fs ≡ false
    → DistinctNames (fs ++ g ∷ [])
DistinctNames-append [] g d h = (refl, tt)
DistinctNames-append (f ∷ fs) g (p, d) h = elim (Bool-cases (str_eq g.name f.name)) [
  | inl e ↦ cc (rw e at h)
  | inr e ↦ (
    rw (is_covered-append f.name fs (g ∷ [])) (rw p (rw (str_eq_sym f.name g.name) (rw e refl))),
    DistinctNames-append fs g d (rw e at h),
  )
]

cover_file-DistinctNames :
    (f : File) (ordered : List File) → DistinctNames ordered → DistinctNames (cover_file f ordered)
unfolding cover_file
cover_file-DistinctNames f ordered d =
    elim (Bool-cases (not (is_gguf_name f.name) || is_covered f.name ordered)) [
      | inl h ↦ rw h d
      | inr h ↦ rw h (DistinctNames-append ordered f d (or_right _ _ h))
    ]
  where
    or_right : (a b : Bool) → (a || b) ≡ false → b ≡ false
    or_right a b h = ground arith

cover-DistinctNames :
    (fs ordered : List File) → DistinctNames ordered → DistinctNames (cover fs ordered)
unfolding cover
cover-DistinctNames [] ordered d = d
cover-DistinctNames (f ∷ fs) ordered d =
    cover-DistinctNames fs (cover_file f ordered) (cover_file-DistinctNames f ordered d)

cover_groups-DistinctNames :
    (gs : List (List File)) (ordered : List File)
    → DistinctNames ordered
    → DistinctNames (cover_groups gs ordered)
unfolding cover_groups
cover_groups-DistinctNames [] ordered d = d
cover_groups-DistinctNames (g ∷ gs) ordered d =
    cover_groups-DistinctNames gs (cover g ordered) (cover-DistinctNames g ordered d)

is_covered-cover_file :
    (n : Str) (f : File) (ordered : List File)
    → is_covered n (cover_file f ordered)
      ≡ (is_covered n ordered || (is_gguf_name n && str_eq n f.name))
unfolding cover_file
is_covered-cover_file n f ordered = elim (Bool-cases (str_eq n f.name)) [
  | inl e ↦ rw ((str_eq_iff n f.name).0 e) (same f.name)
  | inr e ↦ rw e (other e)
]
  where
    same :
        (m : Str)
        → is_covered m (
            if not (is_gguf_name m) || is_covered m ordered
            then ordered
            else ordered ++ record { name = m; size = f.size } ∷ [])
          ≡ (is_covered m ordered || (is_gguf_name m && str_eq m m))
    same m = ground (
      arith,
      is_covered-append m ordered (record { name = m; size = f.size } ∷ []),
      str_eq_refl m,
    )

    other :
        str_eq n f.name ≡ false
        → is_covered n (
            if not (is_gguf_name f.name) || is_covered f.name ordered
            then ordered
            else ordered ++ record { name = f.name; size = f.size } ∷ [])
          ≡ (is_covered n ordered || (is_gguf_name n && false))
    other e = ground (arith, is_covered-append n ordered (f ∷ []))

is_covered-cover :
    (n : Str) (fs ordered : List File)
    → is_covered n (cover fs ordered)
      ≡ (is_covered n ordered || (is_gguf_name n && is_covered n fs))
unfolding cover
is_covered-cover n [] ordered = ground arith
is_covered-cover n (f ∷ fs) ordered =
    rw (is_covered-cover n fs (cover_file f ordered))
      (rw (is_covered-cover_file n f ordered) (ground arith))

is_covered-cover_groups :
    (n : Str) (gs : List (List File)) (ordered : List File)
    → is_covered n (cover_groups gs ordered)
      ≡ (is_covered n ordered || (is_gguf_name n && in_groups n gs))
unfolding cover_groups
is_covered-cover_groups n [] ordered = ground arith
is_covered-cover_groups n (g ∷ gs) ordered =
    rw (is_covered-cover_groups n gs (cover g ordered))
      (rw (is_covered-cover n g ordered) (ground arith))

-- The files of a plan in shard groups have different names, and a name is among them exactly when
-- it is the name of a GGUF file and stands in a group or in the plan's list.
pub covered_files-names :
    (plan : DownloadPlan)
    → DistinctNames (covered_files plan)
      × ((n : Str)
          → is_covered n (covered_files plan)
            ≡ (is_gguf_name n && (in_groups n plan.shard_groups || is_covered n plan.files)))
unfolding covered_files
covered_files-names plan = (
  cover-DistinctNames plan.files _ (cover_groups-DistinctNames plan.shard_groups [] tt),
  λ n.
      rw (is_covered-cover n plan.files (cover_groups plan.shard_groups []))
        (rw (is_covered-cover_groups n plan.shard_groups []) (ground arith)),
)
