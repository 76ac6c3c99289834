-- ===== src/Torrent/Engine/Seeds/Overlap.antt =====
-- The seed jobs, one alone and two of the same model at once.
use hali_client.Base.{
  ℕ, ◌≡◌, ◌<◌, refl, sym, ap, ◌∙◌, true, [], ◌∷◌, Str, some, lookup, lookup-insert, length,
  length-append, length-set, set, get_or-set_self, get_or-set_ne, get_or-append_last, str_eq_refl,
  Result, ok, arith,
}
use hali_client.Torrent.Identity.{TorrentIdentity}
use hali_client.Torrent.Stats.{Status, hashing, seeding}
use hali_client.Torrent.Engine.{TorrentEntry}
use hali_client.Torrent.Engine.Seeds.{
  SeedJob, Seeds, Torrent, new_entry, new_seed_job, no_identity, entry_at, put_entry, add_seed_job,
  begin_seed, set_torrent, end_seed, finish_seed_job, finished_job, seed_job_status, run_seed,
  seed_inner,
}

entry_at-put_entry :
    (p : ℕ) (e : TorrentEntry) (s : Seeds) → p < length s.cells → entry_at p (put_entry p e s) ≡ e
entry_at-put_entry p e s h = get_or-set_self s.cells p e (new_entry [] hashing) h

begun :
    (model_id : Str) (status : Status) (s : Seeds)
    → entry_at (length s.cells) (begin_seed model_id status s) ≡ new_entry model_id status
unfolding begin_seed
begun model_id status s =
    get_or-append_last s.cells (new_entry model_id status) (new_entry [] hashing)

begun_length :
    (model_id : Str) (status : Status) (s : Seeds)
    → length s.cells < length (begin_seed model_id status s).cells
unfolding begin_seed
begun_length model_id status s =
    omega (arith, length-append s.cells (new_entry model_id status ∷ []))

-- The entry of a torrent that is seeded
abbrev pub seeded_entry : Str → Torrent → TorrentEntry
seeded_entry model_id t = record {
  model_id = model_id;
  identity = t.identity;
  magnet_uri = t.magnet_uri;
  status = seeding;
  error = [];
  handle = t.handle;
}

-- The entry of a seed once it has been filled and its status set
ended_entry :
    (p : ℕ) (model_id : Str) (status : Status) (t : Torrent) (s : Seeds)
    → entry_at p s ≡ new_entry model_id status
    → p < length s.cells
    → entry_at p (end_seed p (ok t) (set_torrent p t s)) ≡ seeded_entry model_id t
unfolding end_seed set_torrent
ended_entry p model_id status t s e h =
    let x = record (entry_at p s) {
      identity = t.identity;
      magnet_uri = t.magnet_uri;
      handle = t.handle;
    } in
    let one = entry_at-put_entry p x s h in
    entry_at-put_entry p (record (entry_at p (put_entry p x s)) { status = seeding })
      (put_entry p x s) (omega (arith, length-set s.cells p x))
    ∙ ap (λ (y : TorrentEntry). record y { status = seeding }) one
    ∙ ap
        (λ (y : TorrentEntry). record y {
          identity = t.identity;
          magnet_uri = t.magnet_uri;
          handle = t.handle;
          status = seeding;
        })
        e

-- The job of a seed that has ended well
abbrev pub seeded_job : Str → Str → TorrentIdentity → Str → SeedJob
seeded_job id model_id identity magnet_uri = record {
  id = id;
  model_id = model_id;
  identity = identity;
  magnet_uri = magnet_uri;
  done = true;
  error = [];
}

finished :
    (id model_id : Str) (p : ℕ) (t : Torrent) (s : Seeds)
    → lookup model_id s.entries ≡ some p
    → seed_job_status id (finish_seed_job (new_seed_job id model_id) (ok t) s)
      ≡ some (seeded_job id model_id (entry_at p s).identity (entry_at p s).magnet_uri)
unfolding finish_seed_job
finished id model_id p t s h =
    lookup-insert id id (finished_job (ok t) s (new_seed_job id model_id)) s.seed_jobs
    ∙ rw (str_eq_refl, h) refl

-- The engine behind a seed that has built its torrent, before its job ends
abbrev ended : ℕ → Torrent → Seeds → Seeds
ended p t s = end_seed p (ok t) (set_torrent p t s)

ended_lookup :
    (model_id : Str) (p q : ℕ) (status : Status) (t : Torrent) (s : Seeds)
    → q ≡ length s.cells
    → lookup model_id (ended p t (begin_seed model_id status s)).entries ≡ some q
unfolding end_seed set_torrent begin_seed
ended_lookup model_id p q status t s e =
    lookup-insert model_id model_id (length s.cells) s.entries ∙ rw str_eq_refl (ap some (sym e))

other_entry : (p q : ℕ) (t : Torrent) (s : Seeds) → p < q → entry_at q (ended p t s) ≡ entry_at q s
unfolding end_seed set_torrent
other_entry p q t s h =
    get_or-set_ne (set s.cells p _) p q _ (new_entry [] hashing) (λ e. absurd (omega (arith, e)))
    ∙ get_or-set_ne s.cells p q _ (new_entry [] hashing) (λ e. absurd (omega (arith, e)))

-- A seed job whose goroutine runs without another seed of its model in between, and whose torrent is
-- built and taken by the client: the job is done without an error and has the identity and the
-- magnet URI of the torrent, and the model's entry is seeding with the same ones.
run_seed-seeded :
    (id model_id : Str) (status : Status) (client : ℕ → Result Str ℕ) (built : Result Str Torrent)
    (t : Torrent) (s : Seeds)
    → seed_inner client built ≡ ok t
    → let f = run_seed id model_id status client built s in
      (seed_job_status id f ≡ some (seeded_job id model_id t.identity t.magnet_uri))
      × (p : ℕ) × (lookup model_id f.entries ≡ some p)
      × (entry_at p f ≡ seeded_entry model_id t)
unfolding run_seed add_seed_job finish_seed_job
run_seed-seeded id model_id status client built t s h = rw h (
    let s0 = add_seed_job id model_id s in
    let p = length s0.cells in
    let entry =
      ended_entry p model_id status t (begin_seed model_id status s0) (begun model_id status s0)
        (begun_length model_id status s0) in
    let found = ended_lookup model_id p p status t s0 refl in
    (
      finished id model_id p t (ended p t (begin_seed model_id status s0)) found
          ∙ ap (λ (x : TorrentEntry). some (seeded_job id model_id x.identity x.magnet_uri)) entry,
      p,
      found,
      entry,
    ))

-- When another seed of the same model makes its entry while the torrent of a seed job is built, the job
-- ends done and without an error, but with no identity and no magnet URI: it copies them from the
-- entry of the other seed, which does not have them yet.
overlapping_seeds :
    (id model_id : Str) (status other : Status) (t : Torrent) (s : Seeds)
    → let mine = begin_seed model_id status (add_seed_job id model_id s) in
      let both = begin_seed model_id other mine in
      let built = end_seed (length s.cells) (ok t) (set_torrent (length s.cells) t both) in
      seed_job_status id (finish_seed_job (new_seed_job id model_id) (ok t) built)
      ≡ some (seeded_job id model_id no_identity [])
unfolding add_seed_job
overlapping_seeds id model_id status other t s =
    let s0 = add_seed_job id model_id s in
    let mine = begin_seed model_id status s0 in
    let q = length mine.cells in
    let both = begin_seed model_id other mine in
    let p = length s.cells in
    finished id model_id q t (ended p t both) (ended_lookup model_id p q other t mine refl)
    ∙ ap (λ (x : TorrentEntry). some (seeded_job id model_id x.identity x.magnet_uri))
        (other_entry p q t both (begun_length model_id status s0) ∙ begun model_id other mine)
