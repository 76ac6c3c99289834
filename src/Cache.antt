-- ===== src/Cache.antt =====
-- internal/cache/store.go and identity_seal.go: the metadata of the models on this machine. The
-- disk maps a model's directory to the bytes of its metadata.json. JSON and SHA-256 are parameters,
-- and so are the failures of the file system; an operation that returns an error leaves the disk
-- that it was given, but for what a failed write leaves of the file itself.
pub mod Identity
pub mod Evict
pub mod Tests
use hali_client.Base.{
  sort, ℕ, suc, ◌+◌, ◌-◌, has_prefix, Bool, true, false, not, ◌&&◌, ◌||◌, List, [], ◌∷◌, ◌++◌, Str,
  codes, str_eq, str_lt, is_empty, to_lower, trim_space, Option, none, some, Dict, lookup, insert,
  delete, leb, ltb, ◌==◌, if◌then◌else◌, Result, ok, err, ◌>>=◌, ◌>>◌, refuse, join_path,
}
use hali_client.Base.Int.{ℤ, pos, negsuc, ltb_ℤ, eqb_ℤ}
use hali_client.Model.{ModelId, to_string, store_path, parse}
use hali_client.Torrent.Identity.{TorrentIdentity}

pub record Metadata : Type 0 where
  pub model_id : Str
  pub hf_repo : Str
  pub hf_revision : Str
  pub hf_snapshot : Str
  pub infohash : Str
  pub infohash_v2 : Str
  pub identity_seal : Str
  pub files : List Str
  pub size : ℤ
  pub downloaded_at : Str

pub data CacheError : Type 0 where
  escapes_root missing_file malformed missing_field seal_mismatch bad_model_id io_error : CacheError

-- The functions of other packages, over the bytes of a file.
pub record Codec (Bytes : Type 0) : Type 0 where
  pub marshal : Metadata → Bytes
  pub unmarshal : Bytes → Option Metadata
  pub sha256_hex : Str → Str

-- Which calls of the file system fail.
pub record Faults : Type 0 where
  pub mkdir : Bool
  pub write : Bool
  pub rename : Bool

abbrev pub no_faults : Faults
no_faults = record { mkdir = false; write = false; rename = false }

abbrev pub normal : Str → Str
normal s = to_lower (trim_space s)

abbrev pub newline : ℕ
newline = 10

unfoldable pub canonical : Metadata → Str
canonical m =
    normal m.hf_repo
    ++ (newline
        ∷ (normal m.hf_revision
            ++ (newline
                ∷ (normal m.hf_snapshot
                    ++ (newline ∷ (normal m.infohash ++ (newline ∷ normal m.infohash_v2)))))))

abbrev pub is_blank : Str → Bool
is_blank s = is_empty (trim_space s)

abbrev pub unmarshalled : Option Metadata → Result CacheError Metadata
unmarshalled none = err malformed
unmarshalled (some m) = ok m

-- `new` unless it is empty
abbrev pub known_or : Str → Str → Str
known_or new old = if not (is_empty new) then new else old

unfoldable pub with_identity : TorrentIdentity → Metadata → Metadata
with_identity id m = record m {
  infohash = known_or id.infohash_v1 m.infohash;
  infohash_v2 = known_or id.infohash_v2 m.infohash_v2;
}

module _ {Bytes : Type 0} (codec : Codec Bytes) where
  unfoldable pub compute_identity_seal : Metadata → Str
  compute_identity_seal m = codec.sha256_hex (canonical m)

  unfoldable pub validate_identity_seal : Metadata → Result CacheError (Unit {0})
  validate_identity_seal m =
      refuse (is_blank m.model_id) missing_field
      >> refuse (is_blank m.hf_repo) missing_field
      >> refuse (is_blank m.hf_revision) missing_field
      >> refuse (is_blank m.hf_snapshot) missing_field
      >> refuse (is_blank m.identity_seal) missing_field
      >> refuse (not (str_eq (normal m.identity_seal) (compute_identity_seal m))) seal_mismatch

  -- The end of Save, SetInfohash and SetIdentity: the metadata with its seal, if it is valid
  unfoldable pub sealed : Metadata → Metadata
  sealed m = record m { identity_seal = compute_identity_seal m }

  unfoldable pub put_sealed : Bool → Str → Metadata → Dict Bytes → Result CacheError (Dict Bytes)
  put_sealed fails dir m disk =
      validate_identity_seal (sealed m)
      >> refuse fails io_error
      >> ok (insert dir (codec.marshal (sealed m)) disk)

  abbrev pub read_file : Option Bytes → Result CacheError Metadata
  read_file none = err missing_file
  read_file (some bytes) = unmarshalled (codec.unmarshal bytes)

  unfoldable pub set_infohash : Faults → Str → Str → Dict Bytes → Result CacheError (Dict Bytes)
  set_infohash faults dir infohash disk = read_file (lookup dir disk) >>= λ m.
      put_sealed (faults.write || faults.rename) dir (record m { infohash = infohash }) disk

  unfoldable pub set_identity :
      Faults → Str → TorrentIdentity → Dict Bytes → Result CacheError (Dict Bytes)
  set_identity faults dir id disk = read_file (lookup dir disk) >>= λ m.
      put_sealed (faults.write || faults.rename) dir (with_identity id m) disk

  -- The rest is over the store's root and the test of safepath.IsUnderRoot for a path in it.
  module _ (root : Str) (is_under_root : Str → Bool) where
    unfoldable pub dir_of : ModelId → Str
    dir_of id = join_path (root ∷ store_path id ∷ [])

    unfoldable pub has : Dict Bytes → ModelId → Bool
    has disk id =
        if not (is_under_root (dir_of id))
        then false
        else elim (lookup (dir_of id) disk) [ none ↦ false | some bytes ↦ true ]

    -- Save at a time that renders as `now`
    unfoldable pub save :
        Faults → Str → ModelId → Metadata → Dict Bytes → Result CacheError (Dict Bytes)
    save faults now id meta disk =
        refuse (not (is_under_root (dir_of id))) escapes_root
        >> refuse faults.mkdir io_error
        >> put_sealed faults.write (dir_of id)
            (record meta { model_id = to_string id; downloaded_at = now }) disk

    unfoldable pub load_meta : Dict Bytes → ModelId → Result CacheError Metadata
    load_meta disk id =
        read_file (lookup (dir_of id) disk) >>= λ m. validate_identity_seal m >> ok m

pub record Entry : Type 0 where
  pub id : ModelId
  pub meta : Metadata
  pub dir : Str

pub record EvictionResult : Type 0 where
  pub evicted_models : ℕ
  pub bytes_freed : ℕ
  pub bytes_before : ℕ
  pub bytes_after : ℕ

abbrev pub no_eviction : EvictionResult
no_eviction = record { evicted_models = 0; bytes_freed = 0; bytes_before = 0; bytes_after = 0 }

pub record Candidate : Type 0 where
  pub entry : Entry
  pub when : ℤ
  pub size : ℕ

abbrev pub id_error {ℓ} : {A : Type ℓ} {E : Type 0} → Result E A → Result CacheError A
id_error (ok a) = ok a
id_error (err e) = err bad_model_id

-- List: the files in the order in which the walk finds them
unfoldable pub list : {Bytes : Type 0} → Codec Bytes → Dict Bytes → Result CacheError (List Entry)
list codec [] = ok []
list codec ((dir, bytes) ∷ files) = unmarshalled (codec.unmarshal bytes) >>= λ m.
    validate_identity_seal codec m >>= λ u. id_error (parse m.model_id) >>= λ id.
    list codec files >>= λ es. ok (record { id = id; meta = m; dir = dir } ∷ es)

abbrev pub or_epoch : Option ℤ → ℤ
or_epoch none = pos 0
or_epoch (some t) = t

-- A negative size counts as zero.
abbrev pub size_of : ℤ → ℕ
size_of (pos n) = n
size_of (negsuc n) = 0

-- The first loop of EvictLRU; the parser of times gives nanoseconds from the epoch
unfoldable pub candidates : (Str → Option ℤ) → List Entry → List Candidate
candidates parse_time [] = []
candidates parse_time (e ∷ es) =
    record {
      entry = e;
      when = or_epoch (parse_time e.meta.downloaded_at);
      size = size_of e.meta.size;
    }
    ∷ candidates parse_time es

abbrev pub total_size : List Candidate → ℕ
total_size [] = 0
total_size (c ∷ cs) = c.size + total_size cs

-- The order of sort.Slice in EvictLRU
unfoldable pub is_before : Candidate → Candidate → Bool
is_before c d =
    if eqb_ℤ c.when d.when
    then str_lt (to_string c.entry.id) (to_string d.entry.id)
    else ltb_ℤ c.when d.when

unfoldable pub sort_by_age : List Candidate → List Candidate
unfolding sort
sort_by_age cs = sort is_before cs

-- os.RemoveAll: the directory with everything below it
abbrev pub is_in : Str → Str → Bool
is_in dir path = str_eq path dir || has_prefix path (dir ++ (b'/' ∷ []))

unfoldable pub remove_tree : {Bytes : Type 0} → Str → Dict Bytes → Dict Bytes
remove_tree dir [] = []
remove_tree dir ((path, bytes) ∷ files) =
    let rest = remove_tree dir files in if is_in dir path then rest else (path, bytes) ∷ rest

unfoldable pub evicted : EvictionResult → Candidate → EvictionResult
evicted res c = record {
  evicted_models = res.evicted_models + 1;
  bytes_freed = res.bytes_freed + c.size;
  bytes_before = res.bytes_before;
  bytes_after = res.bytes_after - c.size;
}

module _ {Bytes : Type 0} (is_under_root : Str → Bool) (fails : Str → Bool) (max_bytes : ℕ) where
  -- The last loop of EvictLRU, with the id of the model whose directory could not be removed
  unfoldable pub evict_loop :
      EvictionResult → List Candidate → Dict Bytes → EvictionResult × Option ModelId × Dict Bytes
  evict_loop res [] disk = (res, none, disk)
  evict_loop res (c ∷ cs) disk =
      let dir = c.entry.dir in
      let inside = is_under_root dir in
      let rest =
        evict_loop (if inside then evicted res c else res) cs
          (if inside then remove_tree dir disk else disk) in
      if leb res.bytes_after max_bytes
      then (res, none, disk)
      else if inside && fails dir
      then (res, some c.entry.id, disk)
      else rest

  -- EvictLRU after the listing
  unfoldable pub evict_candidates :
      List Candidate → Dict Bytes → EvictionResult × Option ModelId × Dict Bytes
  evict_candidates cs disk =
      let total = total_size cs in
      let res = record no_eviction { bytes_before = total; bytes_after = total } in
      if leb total max_bytes then (res, none, disk) else evict_loop res (sort_by_age cs) disk

-- EvictLRU
unfoldable pub evict_lru :
    {Bytes : Type 0}
    → Codec Bytes
    → (Str → Option ℤ)
    → (Str → Bool)
    → (Str → Bool)
    → ℤ
    → Dict Bytes
    → Result CacheError (EvictionResult × Option ModelId × Dict Bytes)
evict_lru codec parse_time is_under_root fails (pos (suc n)) disk = list codec disk >>= λ es.
    ok (evict_candidates is_under_root fails (suc n) (candidates parse_time es) disk)
evict_lru codec parse_time is_under_root fails max_bytes disk = ok (no_eviction, none, disk)
