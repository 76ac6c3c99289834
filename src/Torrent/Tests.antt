-- ===== src/Torrent/Tests.antt =====
-- Runs of the hasher and of the collector on concrete inputs.
use hali_client.Base.{
  ℕ, ◌+◌, ◌-◌, ◌<◌, ◌≡◌, refl, arith, true, false, not, ◌&&◌, is_empty, replicate, All, ◌++◌, List,
  [], ◌∷◌, Str, codes, length, drop, take, lookup, Result, ok, err, Option, none, some,
}
use hali_client.Base
use hali_client.Base.Int
use hali_client.Base.Int.{ℤ, pos}
use hali_client.Torrent.PieceHasher
use hali_client.Torrent.PieceHasher.{PieceHasher, panic, finalize, write, size_of}
use hali_client.Torrent.PieceHasher.Stream.{flatten}
use hali_client.Torrent.PieceHasher.Digests.{hash_stream, pieces_of, digests, hash_stream-pieces_of}
use hali_client.Safepath.{member}
use hali_client.Torrent.Magnet
use hali_client.Torrent.Magnet.{normalize_magnet_values, encode_hex, build_magnet}
use hali_client.Torrent.Identity.{TorrentIdentity}
use hali_client.Torrent.Stats
use hali_client.Torrent.Stats.{
  EngineModelState, Collector, seeding, new_collector, new_tracker, slots, history, current, sample,
  speed_since,
}
use hali_client.Torrent.Stats.Speed.{
  Reading, record_all, samples_from, last_speed, history-record_all,
}
use hali_client.Torrent.Stats.Lookups.{IsAligned, DistinctIds, find_model}
use hali_client.Torrent.Stats.Models.{IsSampled, sample-model_speeds}

-- The first byte of a piece for its digest.
abbrev first_byte : Str → Str
first_byte = take 1

abbrev chunks : List Str
chunks = codes "abc" ∷ [] ∷ codes "defg" ∷ []

chunks_hashed : hash_stream first_byte (pos 3) chunks ≡ ok (3, codes "adg")
unfolding PieceHasher.new PieceHasher.write_all PieceHasher.write PieceHasher.write_loop
    PieceHasher.write_part PieceHasher.end_piece finalize
chunks_hashed = refl

hash_stream-pieces_of_example :
    hash_stream first_byte (pos 3) chunks
    ≡ ok (
      length (pieces_of (length (flatten chunks)) 3 (flatten chunks)),
      digests first_byte (pieces_of (length (flatten chunks)) 3 (flatten chunks)),
    )
hash_stream-pieces_of_example = hash_stream-pieces_of first_byte 3 chunks (omega arith)

abbrev half : PieceHasher
half = record {
  piece_size = 4;
  offset = 2;
  piece_index = 0;
  hasher = codes "ab";
  pieces = [];
  finalized = false;
}

abbrev half_closed : PieceHasher
half_closed = record {
  piece_size = 4;
  offset = 0;
  piece_index = 1;
  hasher = [];
  pieces = codes "a";
  finalized = true;
}

half_finalized : finalize first_byte half ≡ ok (half_closed, codes "a")
unfolding finalize PieceHasher.end_piece
half_finalized = refl

abbrev v1 : TorrentIdentity
v1 = record { infohash_v1 = codes "f0"; infohash_v2 = [] }

abbrev both : TorrentIdentity
both = record { infohash_v1 = codes "00"; infohash_v2 = codes "e1" }

-- Whole bytes per second of whole seconds, for differences that are not negative.
abbrev whole_rate : ℤ → ℕ → ℤ
whole_rate d elapsed = pos (Int.pos_part d)

abbrev readings : List Reading
readings =
    record { total_down = pos 10; total_up = pos 1; now = 1_000_000_000 }
    ∷ record { total_down = pos 25; total_up = pos 0; now = 2_000_000_000 }
    ∷ []

readings-current : current (record_all whole_rate new_tracker readings) ≡ (pos 15, pos 0)
unfolding current Stats.record_sample Int.◌-ℤ◌
readings-current = refl

history-record_all_example :
    (history (record_all whole_rate new_tracker readings)
      ≡ drop (length readings - slots) (samples_from whole_rate none (pos 0) (pos 0) readings))
    × (current (record_all whole_rate new_tracker readings)
        ≡ last_speed (samples_from whole_rate none (pos 0) (pos 0) readings))
history-record_all_example = history-record_all whole_rate readings

abbrev model_of : Str → ℕ → EngineModelState
model_of id down = record {
  model_id = id;
  magnet_uri = [];
  status = seeding;
  down = pos down;
  up = pos 0;
  peers = 1;
  size_bytes = pos 9;
  written = pos 0;
  total = pos 0;
  is_job = false;
}

abbrev two_models : List EngineModelState
two_models = model_of (codes "a") 5 ∷ model_of (codes "b") 6 ∷ []

two_models-DistinctIds : DistinctIds two_models
unfolding Stats.is_active Base.str_eq
two_models-DistinctIds = (refl, (refl, tt))

new_collector-IsAligned : IsAligned new_collector
unfolding lookup
new_collector-IsAligned = record { downs = λ id. refl; ups = λ id. refl }

sample-model_speeds_example :
    let after = sample whole_rate new_collector two_models (pos 11) (pos 0) 7 8 in
    IsSampled whole_rate new_collector 7 (codes "b") (find_model (codes "b") two_models) after
    × (after.last_sample ≡ some 7)
    × IsAligned after
sample-model_speeds_example =
    sample-model_speeds whole_rate new_collector two_models (pos 11) (pos 0) 7 8 (codes "b")
      new_collector-IsAligned two_models-DistinctIds

abbrev trackers : List Str
trackers = codes " b" ∷ codes "" ∷ codes "a" ∷ codes "b " ∷ []

trackers_normal : normalize_magnet_values trackers ≡ codes "b" ∷ codes "a" ∷ []
unfolding normalize_magnet_values Magnet.new_values member Base.str_eq Base.is_empty Base.trim_space
    Base.trim_left_by Base.trim_right_by
trackers_normal = refl

abbrev twenty : List ℕ
twenty = replicate 20 171

bytes : All (λ c. c < 256) twenty
bytes = ground arith

abbrev uri : Str
uri = codes "magnet:?xt=urn:btih:abababababababababababababababababababab&dn=n&tr=b"

uri_built : build_magnet (λ s. s) twenty [] (codes "n ") (codes "b" ∷ codes "b" ∷ []) [] ≡ ok uri
unfolding build_magnet encode_hex Magnet.write_values normalize_magnet_values Magnet.new_values
    member Base.str_eq Base.is_empty Base.trim_space Base.trim_left_by Base.trim_right_by
uri_built = refl
