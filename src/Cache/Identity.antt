-- ===== src/Cache/Identity.antt =====
-- What Save and SetIdentity leave on the disk.
use hali_client.Base.{
  ℕ, Bool, true, false, [], ◌∷◌, ◌++◌, ◌≡◌, refl, ◌∙◌, Str, str_eq, str_eq_refl, is_empty,
  trim_space, trim_left_by, trim_right_by, is_space, some, Dict, lookup, insert, lookup-insert, ok,
  Bool-cases, inl, inr, if◌then◌else◌,
}
use hali_client.Model.{ModelId, to_string}
use hali_client.Torrent.Identity.{TorrentIdentity}
use hali_client.Cache.{
  Metadata, Codec, normal, is_blank, canonical, no_faults, sealed, put_sealed, read_file,
  compute_identity_seal, validate_identity_seal, with_identity, known_or, set_identity, save,
  load_meta, dir_of, has,
}

-- JSON decodes what it encoded, and a digest is lower-case text without spaces.
pub record IsFaithful {Bytes : Type 0} (codec : Codec Bytes) : Type 0 where
  pub unmarshal-marshal : (m : Metadata) → codec.unmarshal (codec.marshal m) ≡ some m
  pub digest_normal : (s : Str) → normal (codec.sha256_hex s) ≡ codec.sha256_hex s
  pub digest_nonblank : (s : Str) → is_blank (codec.sha256_hex s) ≡ false

-- The fields that a seal needs, without the model's id.
pub record IsNamed (m : Metadata) : Type 0 where
  pub repo : is_blank m.hf_repo ≡ false
  pub revision : is_blank m.hf_revision ≡ false
  pub snapshot : is_blank m.hf_snapshot ≡ false

trim_right_by-nonempty :
    (p : ℕ → Bool) (w : Str) (c : ℕ) (rest : Str)
    → p c ≡ false
    → is_empty (trim_right_by p (w ++ (c ∷ rest))) ≡ false
unfolding trim_right_by is_empty
trim_right_by-nonempty p [] c rest h = elim (Bool-cases (is_empty (trim_right_by p rest))) [
  | inl e ↦ rw (e, h) refl
  | inr e ↦ rw e refl
]
trim_right_by-nonempty p (x ∷ w) c rest h = rw (trim_right_by-nonempty p w c rest h) refl

trim_left_by-nonempty :
    (p : ℕ → Bool) (w : Str) (c : ℕ) (rest : Str)
    → p c ≡ false
    → is_empty (trim_right_by p (trim_left_by p (w ++ (c ∷ rest)))) ≡ false
unfolding trim_left_by
trim_left_by-nonempty p [] c rest h = rw h (trim_right_by-nonempty p [] c rest h)
trim_left_by-nonempty p (x ∷ w) c rest h = elim (Bool-cases (p x)) [
  | inl e ↦ rw e (trim_left_by-nonempty p w c rest h)
  | inr e ↦ rw e (trim_right_by-nonempty p (x ∷ w) c rest h)
]

pub to_string-nonblank : (id : ModelId) → is_blank (to_string id) ≡ false
unfolding to_string trim_space
to_string-nonblank id = trim_left_by-nonempty is_space id.base b':' _ refl

module _ {Bytes : Type 0} (codec : Codec Bytes) (f : IsFaithful codec) where
  seal-nonblank : (m : Metadata) → is_blank (compute_identity_seal codec m) ≡ false
  unfolding compute_identity_seal
  seal-nonblank m = f.digest_nonblank (canonical m)

  seal-normal :
      (m : Metadata) → normal (compute_identity_seal codec m) ≡ compute_identity_seal codec m
  unfolding compute_identity_seal
  seal-normal m = f.digest_normal (canonical m)

  -- The seal is not an input of the seal.
  seal_of_sealed :
      (m : Metadata) (s : Str)
      → compute_identity_seal codec (record m { identity_seal = s }) ≡ compute_identity_seal codec m
  unfolding compute_identity_seal canonical
  seal_of_sealed m s = refl

  pub sealed-valid :
      (m : Metadata)
      → is_blank m.model_id ≡ false
      → IsNamed m
      → validate_identity_seal codec (sealed codec m) ≡ ok tt
  unfolding validate_identity_seal sealed
  sealed-valid m i h =
      rw
        (
          i,
          h.repo,
          h.revision,
          h.snapshot,
          seal-nonblank m,
          seal_of_sealed m (compute_identity_seal codec m),
          seal-normal m,
          str_eq_refl (compute_identity_seal codec m),
        )
        refl

  -- A write that does not fail stores the metadata with its seal, and no other file changes.
  pub put_sealed-stores :
      (dir : Str) (m : Metadata) (disk : Dict Bytes)
      → is_blank m.model_id ≡ false
      → IsNamed m
      → (put_sealed codec false dir m disk ≡ ok (insert dir (codec.marshal (sealed codec m)) disk))
        × (read_file codec (lookup dir (insert dir (codec.marshal (sealed codec m)) disk))
            ≡ ok (sealed codec m))
  unfolding put_sealed
  put_sealed-stores dir m disk i h = (
    rw (sealed-valid m i h) refl,
    rw
        (
          lookup-insert dir dir (codec.marshal (sealed codec m)) disk,
          str_eq_refl dir,
          f.unmarshal-marshal (sealed codec m),
        )
        refl,
  )

-- Save, of metadata that names its repository, revision and snapshot, in a directory under the root
-- and with no failing call, succeeds. The model is then in the store, LoadMeta returns the metadata
-- with the model's id, the time and its seal, and the file of any other directory is as before.
pub load_meta-save :
    {Bytes : Type 0} (codec : Codec Bytes) (root : Str) (is_under_root : Str → Bool) (now : Str)
    (id : ModelId) (meta : Metadata) (disk : Dict Bytes) (other : Str)
    → IsFaithful codec
    → IsNamed meta
    → is_under_root (dir_of codec root is_under_root id) ≡ true
    → str_eq (dir_of codec root is_under_root id) other ≡ false
    → (new : Dict Bytes) × (save codec root is_under_root no_faults now id meta disk ≡ ok new)
      × (has codec root is_under_root new id ≡ true)
      × (load_meta codec root is_under_root new id
          ≡ ok (sealed codec (record meta { model_id = to_string id; downloaded_at = now })))
      × (lookup other new ≡ lookup other disk)
unfolding save load_meta has
load_meta-save codec root is_under_root now id meta disk other f h u o =
    let m : Metadata = record meta { model_id = to_string id; downloaded_at = now } in
    let dir = dir_of codec root is_under_root id in
    let named : IsNamed m = record {
      repo = h.repo;
      revision = h.revision;
      snapshot = h.snapshot;
    } in
    let (put, read) = put_sealed-stores codec f dir m disk (to_string-nonblank id) named in
    let found = lookup-insert dir dir (codec.marshal (sealed codec m)) disk in
    (
      insert dir (codec.marshal (sealed codec m)) disk,
      rw u put,
      rw (u, found, str_eq_refl dir) refl,
      rw (read, sealed-valid codec f m (to_string-nonblank id) named) refl,
      rw (lookup-insert dir other (codec.marshal (sealed codec m)) disk, o) refl,
    )

known_or-if : (new old : Str) → known_or new old ≡ (if is_empty new then old else new)
known_or-if new old = elim (Bool-cases (is_empty new)) [ inl e ↦ rw e refl | inr e ↦ rw e refl ]

-- SetIdentity, of a file with an id and the names that a seal needs and with no failing call,
-- succeeds. The file then holds the metadata with each infohash of the identity that is not empty
-- in place of the old one, and a seal that is valid; the file of any other directory is as before.
set_identity-stores :
    {Bytes : Type 0} (codec : Codec Bytes) (dir other : Str) (id : TorrentIdentity) (m : Metadata)
    (disk : Dict Bytes)
    → IsFaithful codec
    → read_file codec (lookup dir disk) ≡ ok m
    → is_blank m.model_id ≡ false
    → IsNamed m
    → str_eq dir other ≡ false
    → (new : Dict Bytes) × (set_identity codec no_faults dir id disk ≡ ok new)
      × (read_file codec (lookup dir new)
          ≡ ok (
              sealed codec (record m {
                infohash = if is_empty id.infohash_v1 then m.infohash else id.infohash_v1;
                infohash_v2 = if is_empty id.infohash_v2 then m.infohash_v2 else id.infohash_v2;
              })))
      × (validate_identity_seal codec (sealed codec (with_identity id m)) ≡ ok tt)
      × (lookup other new ≡ lookup other disk)
unfolding set_identity with_identity
set_identity-stores codec dir other id m disk f r i h o =
    let n = with_identity id m in
    let named : IsNamed n =
      unfold with_identity in
      record { repo = h.repo; revision = h.revision; snapshot = h.snapshot } in
    let blank : is_blank n.model_id ≡ false = unfold with_identity in i in
    let (put, read) = put_sealed-stores codec f dir n disk blank named in
    (
      insert dir (codec.marshal (sealed codec n)) disk,
      rw r put,
      read ∙ (λ i. ok (
          sealed codec (record m {
            infohash = known_or-if id.infohash_v1 m.infohash i;
            infohash_v2 = known_or-if id.infohash_v2 m.infohash_v2 i;
          }))),
      sealed-valid codec f n blank named,
      rw (lookup-insert dir other (codec.marshal (sealed codec n)) disk, o) refl,
    )
