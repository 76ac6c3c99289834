-- ===== src/Pull/Collection/Reuse.antt =====
-- A collection that is made a second time.
use mathlib.Core.List.{Permᴰ}
use hali_client.Base.{
  Bool, false, List, [], ◌∷◌, Str, str_eq_refl, lookup-insert, is_empty, to_lower, trim_space,
  equal_fold, sort, Option, none, some, Dict, lookup, insert, Result, ok, err, ◌≡◌, refl, ap, ◌∙◌,
  sym, subst, Bool-cases, inl, inr, if◌then◌else◌,
}
use hali_client.Daemon.Server.{SeedStatusData}
use hali_client.Pull.{name_less}
use hali_client.Pull.Collection.{
  World, DownloadedArtifact, CollectionState, CollectionResult, CollectionError, mkdir_failed,
  Collections, build_collection_key, gguf_names, link_all, is_there, target_of, repo_dir_of,
  state_path_of, collection_of, linked, with_names, seed_collection_from_artifacts,
}
use hali_client.Pull.Collection.Key.{build_collection_key-eq_of_perm}

-- Linking meets no error when no link fails.
link_all-none :
    (fails : Str → Bool) (dir : Str) (xs : List DownloadedArtifact) (links : Dict Str)
    → ((t : Str) → fails t ≡ false)
    → (link_all fails dir xs links).1 ≡ none
unfolding link_all
link_all-none fails dir [] links h = refl
link_all-none fails dir (a ∷ xs) links h = elim (Bool-cases (is_there (target_of dir a) links)) [
  | inl k ↦ rw k (link_all-none fails dir xs links h)
  | inr k ↦
      rw (k, h (target_of dir a))
        (link_all-none fails dir xs (insert (target_of dir a) a.model_path links) h)
]

module _ (w : World) (repo_id revision : Str) (key : Str) (n : Str) (ns : List Str)
    (sd again : SeedStatusData) where
  -- The disk refuses nothing, the daemon seeds a directory as `sd` and, from the torrent file that
  -- this left, as `again`; a digest has no space around it.
  pub record IsWilling : Type 0 where
    pub makes : w.mkdir_fails ≡ false
    pub links : (t : Str) → w.link_fails t ≡ false
    pub writes : w.write_fails ≡ false
    pub seeds : w.seed_collection ≡ ok sd
    pub has_infohash : is_empty (trim_space sd.infohash) ≡ false
    pub seeds_again : w.seed_from_file (to_lower (trim_space sd.infohash)) ≡ ok again
    pub digest_trimmed : (s : Str) → trim_space (w.digests.sha1_hex s) ≡ w.digests.sha1_hex s

  abbrev state : CollectionState
  state = record { key = key; infohash = sd.infohash; files = n ∷ ns }

  linked_first :
      (r : Dict Str × Option Str) (c : Collections)
      → IsWilling
      → r.1 ≡ none
      → lookup (state_path_of w repo_id revision key) c.states ≡ none
      → linked w repo_id revision key (n ∷ ns) r c ≡ (
        record c {
          links = r.0;
          states = insert (state_path_of w repo_id revision key) state c.states;
        },
        ok (collection_of w repo_id revision key (n ∷ ns) sd),
      )
  linked_first (links, none) c h e f = rw (f, h.seeds, h.writes) refl
  linked_first (links, some x) c h e f = cc e

  linked_again :
      (r : Dict Str × Option Str) (c : Collections)
      → IsWilling
      → trim_space key ≡ key
      → r.1 ≡ none
      → lookup (state_path_of w repo_id revision key) c.states ≡ some state
      → linked w repo_id revision key (n ∷ ns) r c
        ≡ (record c { links = r.0 }, ok (collection_of w repo_id revision key (n ∷ ns) again))
  unfolding equal_fold
  linked_again (links, none) c h t e f =
      rw (f, t, str_eq_refl (to_lower key), h.has_infohash, h.seeds_again) refl
  linked_again (links, some x) c h t e f = cc e

  seed_run :
      (a : DownloadedArtifact) (xs : List DownloadedArtifact) (c : Collections)
      → IsWilling
      → sort name_less (gguf_names (a ∷ xs)) ≡ n ∷ ns
      → build_collection_key w.digests repo_id revision (a ∷ xs) ≡ key
      → seed_collection_from_artifacts w repo_id revision (a ∷ xs) c
        ≡ linked w repo_id revision key
            (n ∷ ns)
            (link_all w.link_fails (repo_dir_of w repo_id revision key) (a ∷ xs) c.links)
            c
  unfolding seed_collection_from_artifacts
  seed_run a xs c h e k =
      let run : Str → Collections × Result CollectionError CollectionResult = λ here.
        linked w repo_id revision here (n ∷ ns)
          (link_all w.link_fails (repo_dir_of w repo_id revision here) (a ∷ xs) c.links) c in
      ap (λ names. with_names w repo_id revision (a ∷ xs) names c) e
      ∙ ap
          (λ fails.
            if fails
            then (c, err mkdir_failed)
            else run (build_collection_key w.digests repo_id revision (a ∷ xs)))
          h.makes
      ∙ ap run k

  key_trimmed :
      (xs : List DownloadedArtifact)
      → IsWilling
      → build_collection_key w.digests repo_id revision xs ≡ key
      → trim_space key ≡ key
  unfolding build_collection_key
  key_trimmed xs h e = subst (λ s. trim_space s ≡ s) e (h.digest_trimmed _)

  -- When the disk refuses nothing, the daemon seeds what it is asked to and digests have no space
  -- around them: a collection with a GGUF file and without a state file is seeded as a directory, and
  -- when the same artifacts come again, in any order, the collection keeps its key, its directory and
  -- its files, its torrent is used again, and no state file changes.
  pub collection_reused :
      (a b : DownloadedArtifact) (xs ys : List DownloadedArtifact) (c : Collections)
      → IsWilling
      → Permᴰ (a ∷ xs) (b ∷ ys)
      → sort name_less (gguf_names (a ∷ xs)) ≡ n ∷ ns
      → build_collection_key w.digests repo_id revision (a ∷ xs) ≡ key
      → lookup (state_path_of w repo_id revision key) c.states ≡ none
      → let first = seed_collection_from_artifacts w repo_id revision (a ∷ xs) c in
        let second = seed_collection_from_artifacts w repo_id revision (b ∷ ys) first.0 in
        (first.1 ≡ ok (collection_of w repo_id revision key (n ∷ ns) sd))
        × (second.1 ≡ ok (collection_of w repo_id revision key (n ∷ ns) again))
        × (second.0.states ≡ first.0.states)
  collection_reused a b xs ys c h p e k f =
      let (same_key, same_names) = build_collection_key-eq_of_perm w.digests repo_id revision p in
      let links : (zs : List DownloadedArtifact) → Dict Str → Dict Str × Option Str =
        λ zs l. link_all w.link_fails (repo_dir_of w repo_id revision key) zs l in
      let path = state_path_of w repo_id revision key in
      let first =
        seed_run a xs c h e k
        ∙ linked_first (links (a ∷ xs) c.links) c h
            (link_all-none w.link_fails _ (a ∷ xs) c.links h.links) f in
      let after : Collections = record c {
        links = (links (a ∷ xs) c.links).0;
        states = insert path state c.states;
      } in
      let second =
        seed_run b ys after h (sym same_names ∙ e) (sym same_key ∙ k)
        ∙ linked_again (links (b ∷ ys) after.links) after h (key_trimmed (a ∷ xs) h k)
            (link_all-none w.link_fails _ (b ∷ ys) after.links h.links)
            (lookup-insert path path state c.states ∙ rw (str_eq_refl path) refl) in
      rw first (refl, ap (λ r. r.1) second, ap (λ r. r.0.states) second)
