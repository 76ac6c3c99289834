-- ===== src/Torrent/Engine/Seeds/Tests.antt =====
-- A seed of one model, alone and beside another one.
use hali_client.Base.{ℕ, ◌≡◌, refl, [], codes, Str, some, Result, ok}
use hali_client.Torrent.Engine.Seeds.{Seeds, Torrent, seed_inner, add_torrent}

abbrev no_seeds : Seeds
no_seeds = record { cells = []; entries = []; seed_jobs = [] }

abbrev torrent : Torrent
torrent = record {
  infohash = codes "a";
  handle = some 4;
  identity = record { infohash_v1 = codes "a"; infohash_v2 = codes "b" };
  magnet_uri = codes "magnet:a";
}

abbrev client : ℕ → Result Str ℕ
client attempt = ok 4

built : seed_inner client (ok torrent) ≡ ok torrent
unfolding seed_inner add_torrent
built = refl
