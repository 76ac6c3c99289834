-- ===== src/Torrent/Engine/Seeds.antt =====
-- internal/torrent/engine.go: the seed jobs. Entries are shared by pointers, so they stand in a list of
-- cells and the table has their places. The building of a torrent and its identity are parameters.
pub mod Overlap
mod Tests
use hali_client.Base.{
  ℕ, zero, suc, ◌+◌, ◌^◌, Bool, true, false, not, ◌||◌, List, [], ◌∷◌, ◌++◌, Str, codes, contains,
  to_lower, Option, none, some, Dict, lookup, insert, length, get_or, set, if◌then◌else◌, Result,
  ok, err,
}
use hali_client.Torrent.Identity.{TorrentIdentity, identity_from_v1}
use hali_client.Torrent.Stats.{Status, hashing, seeding, failed}
use hali_client.Torrent.Engine.{TorrentEntry}

pub record SeedJob : Type 0 where
  pub id : Str
  pub model_id : Str
  pub identity : TorrentIdentity
  pub magnet_uri : Str
  pub done : Bool
  pub error : Str

pub record Seeds : Type 0 where
  pub cells : List TorrentEntry
  pub entries : Dict ℕ
  pub seed_jobs : Dict SeedJob

abbrev pub no_identity : TorrentIdentity
no_identity = record { infohash_v1 = []; infohash_v2 = [] }

-- &TorrentEntry{ModelID: modelID, Status: status}
abbrev pub new_entry : Str → Status → TorrentEntry
new_entry model_id status = record {
  model_id = model_id;
  identity = no_identity;
  magnet_uri = [];
  status = status;
  error = [];
  handle = none;
}

abbrev pub new_seed_job : Str → Str → SeedJob
new_seed_job id model_id = record {
  id = id;
  model_id = model_id;
  identity = no_identity;
  magnet_uri = [];
  done = false;
  error = [];
}

abbrev pub entry_at : ℕ → Seeds → TorrentEntry
entry_at p s = get_or s.cells p (new_entry [] hashing)

abbrev pub put_entry : ℕ → TorrentEntry → Seeds → Seeds
put_entry p entry s = record s { cells = set s.cells p entry }

-- StartSeed, StartSeedCollection and StartSeedFromTorrentFile before their goroutines
unfoldable pub add_seed_job : Str → Str → Seeds → Seeds
add_seed_job id model_id s = record s {
  seed_jobs = insert id (new_seed_job id model_id) s.seed_jobs;
}

-- The first critical section of Seed, SeedFromPieceHashes and SeedCollection: the entry is a new cell
unfoldable pub begin_seed : Str → Status → Seeds → Seeds
begin_seed model_id status s = record s {
  cells = s.cells ++ new_entry model_id status ∷ [];
  entries = insert model_id (length s.cells) s.entries;
}

-- What seedInner and seedCollectionInner make of a torrent: its v1 infohash, its identity and magnet
-- URI, and the client's torrent once it is there
pub record Torrent : Type 0 where
  pub infohash : Str
  pub handle : Option ℕ
  pub identity : TorrentIdentity
  pub magnet_uri : Str

-- isRetryableSeedErr
unfoldable pub is_retryable_seed_err : Str → Bool
is_retryable_seed_err e =
    let msg = to_lower e in
    contains msg (codes "timeout")
    || contains msg (codes "connection")
    || contains msg (codes "tempor")
    || contains msg (codes "reset")

abbrev pub adding_torrent : Str → Str
adding_torrent e = codes "adding torrent: " ++ e

-- One attempt to add a torrent to the client, with the rest of them if there are any left
abbrev pub after_add : ℕ → Result Str ℕ → Option (Result Str ℕ × List ℕ) → Result Str ℕ × List ℕ
after_add attempt (ok t) rest = (ok t, [])
after_add attempt (err e) none = (err (adding_torrent e), [])
after_add attempt (err e) (some rest) =
    if not (is_retryable_seed_err e)
    then (err (adding_torrent e), [])
    else (rest.0, 2 ^ attempt ∷ rest.1)

-- The loop of seedAddMaxRetries attempts, with the waits in seconds
unfoldable pub add_torrent : (ℕ → Result Str ℕ) → Result Str ℕ × List ℕ
add_torrent client =
    after_add 0 (client 0) (some (after_add 1 (client 1) (some (after_add 2 (client 2) none))))

-- The end of seedInner: the entry gets its identity once the client has the torrent
unfoldable pub set_torrent : ℕ → Torrent → Seeds → Seeds
set_torrent p t s =
    put_entry p
      (record (entry_at p s) {
        identity = t.identity;
        magnet_uri = t.magnet_uri;
        handle = t.handle;
      })
      s

-- seedInner behind the building of the torrent, which is given or has failed
unfoldable pub seed_inner : (ℕ → Result Str ℕ) → Result Str Torrent → Result Str Torrent
unfolding add_torrent
seed_inner client (err e) = err e
seed_inner client (ok t) = elim ((add_torrent client).0) [
  | err e ↦ err e
  | ok handle ↦ ok (record t { handle = some handle })
]

-- The last critical section of Seed, SeedFromPieceHashes and SeedCollection
unfoldable pub end_seed : ℕ → Result Str Torrent → Seeds → Seeds
end_seed p (err e) s = put_entry p (record (entry_at p s) { status = failed; error = e }) s
end_seed p (ok t) s = put_entry p (record (entry_at p s) { status = seeding }) s

-- The entry of SeedFromTorrentFile, which is made only when the torrent is in the client
unfoldable pub add_file_entry : Str → TorrentIdentity → Str → ℕ → Seeds → Seeds
add_file_entry model_id identity magnet_uri handle s = record s {
  cells =
      s.cells
      ++ record {
        model_id = model_id;
        identity = identity;
        magnet_uri = magnet_uri;
        status = seeding;
        error = [];
        handle = some handle;
      }
        ∷ [];
  entries = insert model_id (length s.cells) s.entries;
}

abbrev pub with_entry : Option ℕ → Str → Seeds → SeedJob → SeedJob
with_entry none infohash s job = record job { done = true; identity = identity_from_v1 infohash }
with_entry (some p) infohash s job = record job {
  done = true;
  identity = (entry_at p s).identity;
  magnet_uri = (entry_at p s).magnet_uri;
}

-- What the goroutine of a seed job writes at its end
abbrev pub finished_job : Result Str Torrent → Seeds → SeedJob → SeedJob
finished_job (err e) s job = record job { done = true; error = e }
finished_job (ok t) s job = with_entry (lookup job.model_id s.entries) t.infohash s job

unfoldable pub finish_seed_job : SeedJob → Result Str Torrent → Seeds → Seeds
finish_seed_job job r s = record s { seed_jobs = insert job.id (finished_job r s job) s.seed_jobs }

-- SeedJobStatus
abbrev pub seed_job_status : Str → Seeds → Option SeedJob
seed_job_status id s = lookup id s.seed_jobs

-- The entry that seedInner fills, if it gets so far
abbrev pub filled : ℕ → Result Str Torrent → Seeds → Seeds
filled p (err e) s = s
filled p (ok t) s = set_torrent p t s

-- The goroutine of StartSeed or StartSeedCollection, when nothing else comes between
unfoldable pub run_seed :
    Str → Str → Status → (ℕ → Result Str ℕ) → Result Str Torrent → Seeds → Seeds
unfolding begin_seed seed_inner end_seed finish_seed_job
run_seed id model_id status client built s =
    let p = length s.cells in
    let r = seed_inner client built in
    finish_seed_job (new_seed_job id model_id) r
      (end_seed p r (filled p r (begin_seed model_id status (add_seed_job id model_id s))))
