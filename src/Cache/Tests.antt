-- ===== src/Cache/Tests.antt =====
-- Runs of the store with a codec that keeps the metadata as it is.
use mathlib.Core.List.{Permᴰ}
use hali_client.Base.{
  InOrder, ℕ, ◌+◌, ◌≡◌, refl, Bool, true, false, List, [], ◌∷◌, Str, codes, str_eq, is_empty,
  Option, none, some, Dict, lookup, Result, ok, if◌then◌else◌,
}
use hali_client.Base
use hali_client.Base.Int.{ℤ, pos}
use hali_client.Model
use hali_client.Model.{ModelId, to_string}
use hali_client.Torrent.Identity.{TorrentIdentity}
use hali_client.Cache
use hali_client.Cache.{
  Metadata, Codec, Entry, Candidate, EvictionResult, list, candidates, sort_by_age, evict_lru,
  no_faults, sealed, read_file, validate_identity_seal, with_identity, set_identity, save,
  load_meta, dir_of, has, is_blank, normal,
}
use hali_client.Cache.Identity.{IsFaithful, IsNamed, load_meta-save}
use hali_client.Cache.Evict.{
  evict_lru-IsEviction, IsEviction, IsOlder, eligible_of, at_start, never,
}

abbrev pub short_digest : Str → Str
short_digest [] = codes "00"
short_digest (c ∷ s) = codes "a1"

abbrev pub plain : Codec Metadata
plain = record { marshal = λ m. m; unmarshal = λ m. some m; sha256_hex = short_digest }

short_digest-normal : (s : Str) → normal (short_digest s) ≡ short_digest s
unfolding Base.trim_space Base.trim_left_by Base.trim_right_by Base.to_lower is_empty
short_digest-normal [] = refl
short_digest-normal (c ∷ s) = refl

short_digest-nonblank : (s : Str) → is_blank (short_digest s) ≡ false
unfolding Base.trim_space Base.trim_left_by Base.trim_right_by is_empty
short_digest-nonblank [] = refl
short_digest-nonblank (c ∷ s) = refl

pub plain-IsFaithful : IsFaithful plain
plain-IsFaithful = record {
  unmarshal-marshal = λ m. refl;
  digest_normal = short_digest-normal;
  digest_nonblank = short_digest-nonblank;
}

abbrev id_of : Str → ModelId
id_of quant = record {
  base = codes "qwen";
  size = codes "7b";
  variant = codes "chat";
  quant = quant;
  format = [];
  revision = [];
}

abbrev meta_of : Str → Str → ℕ → Metadata
meta_of quant at size = record {
  model_id = to_string (id_of quant);
  hf_repo = codes "Org/Qwen ";
  hf_revision = codes "main";
  hf_snapshot = codes "c0";
  infohash = [];
  infohash_v2 = [];
  identity_seal = codes "a1";
  files = [];
  size = pos size;
  downloaded_at = at;
}

abbrev meta : Metadata
meta = meta_of (codes "q4") (codes "b") 7

meta-IsNamed : IsNamed meta
unfolding Base.trim_space Base.trim_left_by Base.trim_right_by is_empty
meta-IsNamed = record { repo = refl; revision = refl; snapshot = refl }

meta-nonblank : is_blank meta.model_id ≡ false
unfolding Base.trim_space Base.trim_left_by Base.trim_right_by is_empty to_string
meta-nonblank = refl

abbrev anywhere : Str → Bool
anywhere dir = true

abbrev root : Str
root = codes "/m"

other_dir : str_eq (dir_of plain root anywhere (id_of (codes "q4"))) (codes "x") ≡ false
unfolding str_eq dir_of Model.store_path Base.join_path Base.join_parts Base.clean Base.clean_step
    Base.clean_segs Base.clean_text Base.split_by Base.join is_empty
other_dir = refl

load_meta-save_example :
    (new : Dict Metadata) × (save plain root anywhere no_faults
        (codes "now")
        (id_of (codes "q4"))
        meta
        []
      ≡ ok new)
    × (has plain root anywhere new (id_of (codes "q4")) ≡ true)
    × (load_meta plain root anywhere new (id_of (codes "q4"))
        ≡ ok (
            sealed plain (record meta {
              model_id = to_string (id_of (codes "q4"));
              downloaded_at = codes "now";
            })))
    × (lookup (codes "x") new ≡ lookup (codes "x") [])
load_meta-save_example =
    load_meta-save plain root anywhere (codes "now") (id_of (codes "q4")) meta [] (codes "x")
      plain-IsFaithful meta-IsNamed refl other_dir

abbrev one_file : Dict Metadata
one_file = (codes "d", meta) ∷ []

one_file_read : read_file plain (lookup (codes "d") one_file) ≡ ok meta
unfolding lookup str_eq
one_file_read = refl

not_d : str_eq (codes "d") (codes "x") ≡ false
unfolding str_eq
not_d = refl

abbrev v1_only : TorrentIdentity
v1_only = record { infohash_v1 = codes "f0"; infohash_v2 = [] }

-- The same sealed fields, in other letters.
abbrev meta_upper : Metadata
meta_upper = record meta { hf_repo = codes " ORG/qwen" }

meta-valid : validate_identity_seal plain meta ≡ ok tt
unfolding validate_identity_seal Cache.compute_identity_seal Cache.canonical Base.trim_space
    Base.trim_left_by Base.trim_right_by Base.to_lower is_empty str_eq to_string
meta-valid = refl

abbrev three : Dict Metadata
three =
    (codes "/m/new", meta_of (codes "q4") (codes "ccc") 30)
    ∷ (codes "/m/old", meta_of (codes "q5") (codes "a") 20)
    ∷ (codes "/m/mid", meta_of (codes "q6") (codes "bb") 10)
    ∷ []

-- A clock that reads the length of the text.
abbrev read_clock : Str → Option ℤ
read_clock at = some (pos (Base.length at))

abbrev three_entries : List Entry
three_entries =
    record {
      id = id_of (codes "q4");
      meta = meta_of (codes "q4") (codes "ccc") 30;
      dir = codes "/m/new";
    }
    ∷ record {
      id = id_of (codes "q5");
      meta = meta_of (codes "q5") (codes "a") 20;
      dir = codes "/m/old";
    }
    ∷ record {
      id = id_of (codes "q6");
      meta = meta_of (codes "q6") (codes "bb") 10;
      dir = codes "/m/mid";
    }
    ∷ []

three_listed : list plain three ≡ ok three_entries
unfolding list validate_identity_seal Cache.compute_identity_seal Cache.canonical Base.trim_space
    Base.trim_left_by Base.trim_right_by Base.to_lower is_empty str_eq to_string Model.parse
    Model.parse_parts Model.valid Model.is_safe_path_component Base.split_by Base.contains_by
three_listed = refl

evict_lru-IsEviction_example :
    (out : EvictionResult × Option ModelId × Dict Metadata) × (order : List Candidate) × (evict_lru
        plain read_clock anywhere never
        (pos 35)
        three
      ≡ ok out)
    × (out.1 ≡ none)
    × Permᴰ order (candidates read_clock three_entries)
    × InOrder IsOlder order
    × IsEviction 35
        (eligible_of anywhere order)
        (at_start (candidates read_clock three_entries))
        out.0
        three
        out.2
    × (out.0.bytes_freed + out.0.bytes_after ≡ out.0.bytes_before)
evict_lru-IsEviction_example =
    evict_lru-IsEviction plain read_clock anywhere 34 three three_entries three_listed
