-- ===== src/Torrent/Engine/Limit.antt =====
-- The limit on concurrent downloads, of starts that run alone and of starts that overlap.
use hali_client.Base.{
  ℕ, suc, ◌≤◌, ◌≡◌, refl, ◌∙◌, Bool, true, false, not, ◌&&◌, ◌∷◌, [], List, Str, none, lookup,
  insert, lookup-insert, Dict, str_eq, Bool-cases, inl, inr, arith, Result, ok, refuse, ◌>>◌,
  >>=-eq-ok,
}
use hali_client.Base.Int.{ℤ, pos, ◌≤ℤ◌, ◌<ℤ◌, ltb_ℤ, leb_ℤ}
use hali_client.Torrent.Engine.{
  Engine, Task, DownloadJob, active_download_jobs, has_room, set_max_concurrent_downloads,
}
use hali_client.Torrent.Engine.Start.{
  new_task, Client, StartError, too_many_downloads, prepare, add_job, start_download,
}
use hali_client.Torrent.Engine.Steps.{Turn, Turn-KeepsCount, empty_engine}

active-insert_new :
    (id : Str) (t : Task) (d : Dict Task)
    → active_download_jobs (insert id t d) ≤ suc (active_download_jobs d)
unfolding insert active_download_jobs
active-insert_new id t [] = ground arith
active-insert_new id t ((j, u) ∷ d) = ground (arith, active-insert_new id t d)

active-insert_fresh :
    (id : Str) (t : Task) (d : Dict Task)
    → lookup id d ≡ none
    → t.job.done ≡ false
    → active_download_jobs (insert id t d) ≡ suc (active_download_jobs d)
unfolding insert active_download_jobs lookup
active-insert_fresh id t [] h k = ground (arith, k)
active-insert_fresh id t ((j, u) ∷ d) h k = elim (Bool-cases (str_eq j id)) [
  | inl same ↦ absurd (cc (rw same at h))
  | inr other ↦ rw other (ground (arith, active-insert_fresh id t d (rw other at h) k))
]

-- A limit that is set, and at most `high`
abbrev pub IsLimit : ℤ → ℤ → Type 0
IsLimit high limit = (pos 0 <ℤ limit) × (limit ≤ℤ high)

-- The limit of the engine is one of at most `high`, and so is the number of its active jobs.
abbrev IsWithin : ℤ → Engine → Type 0
IsWithin high e = IsLimit high e.max_dl_jobs × (pos (active_download_jobs e.jobs) ≤ℤ high)

room_lt :
    (limit : ℤ) (n : ℕ)
    → not (ltb_ℤ (pos 0) limit && leb_ℤ limit (pos n)) ≡ true
    → pos 0 <ℤ limit
    → pos (suc n) ≤ℤ limit
room_lt limit n h p = ground arith

has_room-lt :
    (e : Engine)
    → has_room e ≡ true
    → pos 0 <ℤ e.max_dl_jobs
    → pos (suc (active_download_jobs e.jobs)) ≤ℤ e.max_dl_jobs
unfolding has_room
has_room-lt e h p = room_lt e.max_dl_jobs (active_download_jobs e.jobs) h p

refused :
    {A : Type 0} (room : Bool) (r : Result StartError A) {a : A}
    → (refuse (not room) too_many_downloads >> r) ≡ ok a
    → room ≡ true
refused true r h = refl
refused false r h = absurd (cc h)

start_room :
    (client : Client) (now meta_timeout : ℕ) (job_id model_dir model_id ih_hex ih_v2 : Str)
    (peer_addrs : List Str) (e f : Engine)
    → start_download client now meta_timeout job_id model_dir model_id ih_hex ih_v2 peer_addrs e
      ≡ ok f
    → (has_room e ≡ true) × (job : DownloadJob) × (f ≡ add_job now meta_timeout job e)
unfolding start_download
start_room client now meta_timeout job_id model_dir model_id ih_hex ih_v2 peer_addrs e f h =
    let (job, p, k) =
      >>=-eq-ok
        (refuse (not (has_room e)) too_many_downloads
          >> prepare client now job_id model_dir model_id ih_hex ih_v2 peer_addrs)
        (λ job. ok (add_job now meta_timeout job e)) h in
    (
      refused (has_room e) (prepare client now job_id model_dir model_id ih_hex ih_v2 peer_addrs) p,
      job,
      cc k,
    )

-- Behind a start the engine is within its own limit.
added_within :
    (now meta_timeout : ℕ) (job : DownloadJob) (e f : Engine)
    → has_room e ≡ true
    → f ≡ add_job now meta_timeout job e
    → (f.max_dl_jobs ≡ e.max_dl_jobs)
      × (pos 0 <ℤ e.max_dl_jobs → pos (active_download_jobs f.jobs) ≤ℤ f.max_dl_jobs)
unfolding add_job
added_within now meta_timeout job e f h q = rw q (
  refl,
  λ p.
      let room = has_room-lt e h p in
      let more = active-insert_new job.id (new_task now meta_timeout job) e.jobs in
      ground (arith, room, more),
)

module _ (valid_utf8 : Str → Bool) (escape : Str → Str) (rate : ℤ → ℕ → ℤ) (from_hex : Str → List ℕ)
    (meta_timeout : ℕ) (client : Client) (high : ℤ) where
  -- Steps in which each StartDownload runs alone, and SetMaxConcurrentDownloads sets limits of at most
  -- `high`.
  pub data Serial (e : Engine) : Engine → Type 0 where
    here : Serial e e
    turn :
        {f g : Engine}
        → Serial e f
        → Turn valid_utf8 escape rate from_hex meta_timeout f g
        → Serial e g
    limited :
        (limit : ℤ) {f : Engine}
        → Serial e f
        → IsLimit high limit
        → Serial e (set_max_concurrent_downloads limit f)
    started :
        (now : ℕ) (job_id model_dir model_id ih_hex ih_v2 : Str) (peer_addrs : List Str)
        {f g : Engine}
        → Serial e f
        → start_download client now meta_timeout job_id model_dir model_id ih_hex ih_v2 peer_addrs f
          ≡ ok g
        → Serial e g

  Serial-IsWithin :
      (limit : ℤ) (e : Engine)
      → IsLimit high limit
      → Serial (empty_engine limit) e
      → IsWithin high e
  Serial-IsWithin limit e l here = unfold active_download_jobs in (l, ground (arith, l.0, l.1))
  Serial-IsWithin limit e l (turn {f} r t) =
      let (k, count, same) = Turn-KeepsCount valid_utf8 escape rate from_hex meta_timeout t in
      let (m, before) = Serial-IsWithin limit f l r in (rw same m, ground (arith, before, count))
  Serial-IsWithin limit e l (limited n {f} r m) = (m, (Serial-IsWithin limit f l r).1)
  Serial-IsWithin limit e l (started now i d m a b ps {f} r q) =
      let (room, job, k) = start_room client now meta_timeout i d m a b ps f e q in
      let ((set, bound), _) = Serial-IsWithin limit f l r in
      let (same, within) = added_within now meta_timeout job f e room k in
      (rw same (set, bound), ground (arith, rw same at (within set), bound))

  -- While no two calls of StartDownload overlap and every limit that is set is between one and `high`,
  -- the number of active downloads never exceeds `high`.
  pub Serial-active_download_jobs :
      (limit : ℤ) (e : Engine)
      → IsLimit high limit
      → Serial (empty_engine limit) e
      → pos (active_download_jobs e.jobs) ≤ℤ high
  Serial-active_download_jobs limit e l r = (Serial-IsWithin limit e l r).1

-- Right behind a call of StartDownload that lets a download through and that no other call overlaps,
-- the number of active downloads does not exceed the limit, if one is set, whatever limits were set
-- before; the limit is still the same.
pub start_download-active_download_jobs :
    (client : Client) (now meta_timeout : ℕ) (job_id model_dir model_id ih_hex ih_v2 : Str)
    (peer_addrs : List Str) (e f : Engine)
    → start_download client now meta_timeout job_id model_dir model_id ih_hex ih_v2 peer_addrs e
      ≡ ok f
    → pos 0 <ℤ e.max_dl_jobs
    → (f.max_dl_jobs ≡ e.max_dl_jobs) × (pos (active_download_jobs f.jobs) ≤ℤ f.max_dl_jobs)
start_download-active_download_jobs client now meta_timeout i d m a b ps e f q set =
    let (room, job, k) = start_room client now meta_timeout i d m a b ps e f q in
    let (same, within) = added_within now meta_timeout job e f room k in (same, within set)

-- Two calls of StartDownload that both look at the jobs before either adds its own: with one place
-- left, both are let through, and the number of active downloads then exceeds the limit by one.
pub overlapping_starts :
    (now meta_timeout : ℕ) (e : Engine) (first other : DownloadJob)
    → e.max_dl_jobs ≡ pos (suc (active_download_jobs e.jobs))
    → lookup first.id e.jobs ≡ none
    → lookup other.id e.jobs ≡ none
    → str_eq first.id other.id ≡ false
    → first.done ≡ false
    → other.done ≡ false
    → let f = add_job now meta_timeout other (add_job now meta_timeout first e) in
      (has_room e ≡ true) × (f.max_dl_jobs <ℤ pos (active_download_jobs f.jobs))
unfolding has_room add_job
overlapping_starts now meta_timeout e first other m a b n c d =
    let one = active-insert_fresh first.id (new_task now meta_timeout first) e.jobs a c in
    let absent : lookup other.id (insert first.id (new_task now meta_timeout first) e.jobs) ≡ none =
      lookup-insert first.id other.id (new_task now meta_timeout first) e.jobs ∙ rw n b in
    let two =
      active-insert_fresh other.id (new_task now meta_timeout other)
        (insert first.id (new_task now meta_timeout first) e.jobs) absent d in
    (rw m (ground arith), rw m (omega (arith, one, two)))
