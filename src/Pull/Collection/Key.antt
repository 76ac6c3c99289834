-- ===== src/Pull/Collection/Key.antt =====
-- The key and the names of a collection do not depend on the order of its artifacts.
use mathlib.Core.List.{Permᴰ}
use mathlib.Core.List.Permᴰ
use hali_client.Base.{
  List, ◌∷◌, ◌++◌, Str, str_lt, join, sort, sort-eq_of_perm, str_lt-IsOrder, str_lt_antisym,
  trim_space, map, ◌≡◌, refl, ap, Bool-cases, inl, inr,
}
use hali_client.Pull.{is_gguf_name, name_less}
use hali_client.Pull.Order.{name_less_asym, name_less_not_trans, name_less_antisym}
use hali_client.Pull.Collection.{
  DownloadedArtifact, Digests, key_part, line_end, build_collection_key, gguf_names,
}

map-perm {ℓ κ} :
    {A : Type ℓ} {B : Type κ} (f : A → B) {xs ys : List A}
    → Permᴰ xs ys
    → Permᴰ (map f xs) (map f ys)
map-perm f Permᴰ.nil = Permᴰ.nil
map-perm f (Permᴰ.cons e p) = Permᴰ.cons (ap f e) (map-perm f p)
map-perm f (Permᴰ.swap e q) = Permᴰ.swap (ap f e) (ap f q)
map-perm f (Permᴰ.trans p q) = Permᴰ.trans (map-perm f p) (map-perm f q)

gguf_names-cons :
    (a : DownloadedArtifact) (xs ys : List DownloadedArtifact)
    → Permᴰ (gguf_names xs) (gguf_names ys)
    → Permᴰ (gguf_names (a ∷ xs)) (gguf_names (a ∷ ys))
unfolding gguf_names
gguf_names-cons a xs ys p = elim (Bool-cases (is_gguf_name a.file_name)) [
  | inl h ↦ rw h (Permᴰ.cons refl p)
  | inr h ↦ rw h p
]

gguf_names-swap :
    (a b : DownloadedArtifact) (xs : List DownloadedArtifact)
    → Permᴰ (gguf_names (a ∷ b ∷ xs)) (gguf_names (b ∷ a ∷ xs))
unfolding gguf_names
gguf_names-swap a b xs = elim (Bool-cases (is_gguf_name a.file_name)) [
  | inl h ↦ elim (Bool-cases (is_gguf_name b.file_name)) [
    | inl k ↦ rw (h, k) (Permᴰ.swap refl refl)
    | inr k ↦ rw (h, k) (Permᴰ.refl _)
  ]
  | inr h ↦ rw h (Permᴰ.refl _)
]

gguf_names-perm :
    {xs ys : List DownloadedArtifact} → Permᴰ xs ys → Permᴰ (gguf_names xs) (gguf_names ys)
gguf_names-perm Permᴰ.nil = Permᴰ.refl _
gguf_names-perm (Permᴰ.cons {b = b} {l₁ = l} {l₂ = m} e p) =
    rw e (gguf_names-cons b l m (gguf_names-perm p))
gguf_names-perm (Permᴰ.swap {a = a} {b = b} {l = l} e f) = rw (← e, ← f) (gguf_names-swap a b l)
gguf_names-perm (Permᴰ.trans p q) = Permᴰ.trans (gguf_names-perm p) (gguf_names-perm q)

-- Artifacts in another order give the same key and the same list of files.
pub build_collection_key-eq_of_perm :
    (d : Digests) (repo_id revision : Str) {xs ys : List DownloadedArtifact}
    → Permᴰ xs ys
    → (build_collection_key d repo_id revision xs ≡ build_collection_key d repo_id revision ys)
      × (sort name_less (gguf_names xs) ≡ sort name_less (gguf_names ys))
unfolding build_collection_key
build_collection_key-eq_of_perm d repo_id revision p = (
  ap
      (λ parts. d.sha1_hex (
        trim_space repo_id
        ++ (line_end ∷ (trim_space revision ++ (line_end ∷ join line_end parts)))))
      (sort-eq_of_perm str_lt str_lt-IsOrder str_lt_antisym
        (map-perm (key_part d repo_id revision) p)),
  sort-eq_of_perm name_less (record { asym = name_less_asym; not_trans = name_less_not_trans })
      name_less_antisym (gguf_names-perm p),
)
