-- ===== src/Torrent/Engine/Keeps.antt =====
-- What every step of the download jobs keeps: their consistency, and each job in a later state; and
-- that no step but a start raises the number of active jobs.
use hali_client.Base.{
  ◌≤◌, ℕ, ◌≡◌, ◌≢◌, refl, Bool, true, false, ◌∷◌, [], Str, none, Option-cases, some, lookup, insert,
  lookup-insert, All, All-insert, All-lookup, arith, if◌then◌else◌, List, inl, inr, Dict, str_eq,
  str_eq_iff, subst, not, Bool-cases, ap, ◌∙◌, sym,
}
use hali_client.Base.Int.{ℤ}
use hali_client.Torrent.Engine.{
  active_download_jobs, Engine, Task, DownloadJob, Phase, Signal, JobError, PeerCounts, no_error,
  returned, failing, looking, testing, selecting, counting, polling, timing, choosing, expiring,
  arrived, named, stopping, cancel_download, job_status, fail, fail_open, refreshed,
  canceled_by_user, internal_panic,
}
use hali_client.Torrent.Engine.Run.{advance, run, panicked}
use hali_client.Torrent.Engine.Start.{add_job}
use hali_client.Torrent.Engine.Later.{
  IsLater, later_refl, moved, canceled_later, refreshed_later, advance_later,
}
use hali_client.Torrent.Engine.Jobs.{Fits, IsConsistent, AllConsistent, advance-IsConsistent}

-- The task of an operation on a job, written back under its name.
abbrev put : Str → Task → Engine → Engine
put id t e = record e { jobs = insert id t e.jobs }

-- Every job of an engine is in a later state in another one.
abbrev pub AreLater : Engine → Engine → Type 0
AreLater e e' =
    (id : Str) (t : Task)
    → lookup id e.jobs ≡ some t
    → (t' : Task) × (lookup id e'.jobs ≡ some t') × IsLater t t'

pub same_jobs : (e : Engine) → AreLater e e
same_jobs e id t h = (t, h, later_refl t)

put_later :
    (id : Str) (t t' : Task) (e : Engine)
    → lookup id e.jobs ≡ some t
    → IsLater t t'
    → AreLater e (put id t' e)
put_later id t t' e h l j u k = elim (Bool-cases (str_eq id j)) [
  | inl same ↦
      let q : id ≡ j = (str_eq_iff id j).0 same in
      let k' : lookup id e.jobs ≡ some u = subst (λ i. lookup i e.jobs ≡ some u) (sym q) k in
      let w : t ≡ u = cc (h, k') in
      (t', lookup-insert id j t' e.jobs ∙ rw same refl, subst (λ x. IsLater x t') w l)
  | inr other ↦ (u, lookup-insert id j t' e.jobs ∙ rw other k, later_refl u)
]

pub lookup-AllConsistent :
    (e : Engine) (id : Str) (t : Task)
    → AllConsistent e
    → lookup id e.jobs ≡ some t
    → IsConsistent t.job t.phase
lookup-AllConsistent e id t h k =
    All-lookup (λ (x : Str × Task). IsConsistent x.1.job x.1.phase) id t e.jobs h k

pub put-AllConsistent :
    (id : Str) (t : Task) (e : Engine)
    → AllConsistent e
    → IsConsistent t.job t.phase
    → AllConsistent (put id t e)
put-AllConsistent id t e h c =
    All-insert (λ (x : Str × Task). IsConsistent x.1.job x.1.phase) id t e.jobs h c

canceled-Fits :
    (written total : ℤ) (e : JobError) (p : Phase)
    → Fits false e written total p
    → Fits true canceled_by_user written total p
canceled-Fits written total e (failing x) h = (h.0, λ d q. cc q)
canceled-Fits written total e (looking t) h = (h.0, λ d q. cc q)
canceled-Fits written total e (testing t) h = (h.0, λ d q. cc q)
canceled-Fits written total e (selecting t) h = (h.0, λ d q. cc q)
canceled-Fits written total e (counting t m) h = (h.0, λ d q. cc q)
canceled-Fits written total e returned h = absurd (cc (h.0))
canceled-Fits written total e (polling d m) h = λ d q. cc q
canceled-Fits written total e (timing d m) h = λ d q. cc q
canceled-Fits written total e (choosing d m) h = λ d q. cc q
canceled-Fits written total e expiring h = λ d q. cc q
canceled-Fits written total e (arrived info) h = λ d q. cc q
canceled-Fits written total e (named info) h = λ d q. cc q
canceled-Fits written total e stopping h = λ d q. cc q

pub settled :
    (job : DownloadJob) (p : Phase)
    → IsConsistent job p
    → (p ≡ returned → job.done ≡ true)
      × (job.done ≡ true → job.error ≡ no_error → (p ≡ returned) × (job.written ≡ job.total))
settled job (failing e) h = (λ r. absurd (cc r), λ d n. absurd (h.1 d n))
settled job (looking t) h = (λ r. absurd (cc r), λ d n. absurd (h.1 d n))
settled job (testing t) h = (λ r. absurd (cc r), λ d n. absurd (h.1 d n))
settled job (selecting t) h = (λ r. absurd (cc r), λ d n. absurd (h.1 d n))
settled job (counting t m) h = (λ r. absurd (cc r), λ d n. absurd (h.1 d n))
settled job returned h = (λ r. h.0, λ d n. (refl, h.1 n))
settled job (polling d m) h = (λ r. absurd (cc r), λ c n. absurd (h c n))
settled job (timing d m) h = (λ r. absurd (cc r), λ c n. absurd (h c n))
settled job (choosing d m) h = (λ r. absurd (cc r), λ c n. absurd (h c n))
settled job expiring h = (λ r. absurd (cc r), λ c n. absurd (h c n))
settled job (arrived info) h = (λ r. absurd (cc r), λ c n. absurd (h c n))
settled job (named info) h = (λ r. absurd (cc r), λ c n. absurd (h c n))
settled job stopping h = (λ r. absurd (cc r), λ c n. absurd (h c n))

cancel_at :
    (done : Bool) (job : DownloadJob) (p : Phase)
    → job.done ≡ done
    → IsConsistent job p
    → IsConsistent (if not done then fail canceled_by_user job else job) p
cancel_at true job p d h = h
cancel_at false job p d h =
    canceled-Fits job.written job.total job.error p
      (subst (λ b. Fits b job.error job.written job.total p) d h)

-- What a step keeps: the consistency of the jobs, and every job in a later state.
abbrev pub Keeps : Engine → Engine → Type 0
Keeps e f = (AllConsistent e → AllConsistent f) × AreLater e f

-- And the number of active jobs is not higher, and the limit is the same.
abbrev pub KeepsCount : Engine → Engine → Type 0
KeepsCount e f =
    Keeps e f
    × (active_download_jobs f.jobs ≤ active_download_jobs e.jobs)
    × (f.max_dl_jobs ≡ e.max_dl_jobs)

active-insert :
    (id : Str) (t t' : Task) (d : Dict Task)
    → lookup id d ≡ some t
    → (t.job.done ≡ true → t'.job.done ≡ true)
    → active_download_jobs (insert id t' d) ≤ active_download_jobs d
unfolding lookup insert active_download_jobs
active-insert id t t' [] h k = absurd (cc h)
active-insert id t t' ((j, u) ∷ d) h k = elim (Bool-cases (str_eq j id)) [
  | inl same ↦
      let g : some u ≡ some t = rw same at h in
      let w : u ≡ t = cc g in
      let v : t.job.done ≡ u.job.done = ap (λ (x : Task). x.job.done) (sym w) in
      rw same (ground (arith, k, v))
  | inr other ↦ rw other (ground (arith, active-insert id t t' d (rw other at h) k))
]

pub same_jobs-Keeps : (e f : Engine) → f.jobs ≡ e.jobs → Keeps e f
same_jobs-Keeps e f q = (
  λ h. subst (All (λ (x : Str × Task). IsConsistent x.1.job x.1.phase)) (sym q) h,
  λ id t h. (t, subst (λ d. lookup id d ≡ some t) (sym q) h, later_refl t),
)

pub same_jobs-KeepsCount :
    (e f : Engine) → f.jobs ≡ e.jobs → f.max_dl_jobs ≡ e.max_dl_jobs → KeepsCount e f
same_jobs-KeepsCount e f q m = (same_jobs-Keeps e f q, rw q (omega arith), m)

put-KeepsCount :
    (id : Str) (t t' : Task) (e f : Engine)
    → lookup id e.jobs ≡ some t
    → f.jobs ≡ insert id t' e.jobs
    → f.max_dl_jobs ≡ e.max_dl_jobs
    → (IsConsistent t.job t.phase → IsConsistent t'.job t'.phase)
    → IsLater t t'
    → KeepsCount e f
put-KeepsCount id t t' e f h q m c l = (
  (
    λ a.
        subst (All (λ (x : Str × Task). IsConsistent x.1.job x.1.phase)) (sym q)
          (put-AllConsistent id t' e a (c (lookup-AllConsistent e id t a h))),
    λ j u k.
        let (v, g, k') = put_later id t t' e h l j u k in
        (v, subst (λ d. lookup j d ≡ some v) (sym q) g, k'),
  ),
  rw q (active-insert id t t' e.jobs h l.still_done),
  m,
)

pub cancel_download-KeepsCount : (id : Str) (e : Engine) → KeepsCount e (cancel_download id e).1
unfolding cancel_download
cancel_download-KeepsCount id e = elim (Option-cases (lookup id e.jobs)) [
  | inl missing ↦
      same_jobs-KeepsCount e ((cancel_download id e).1) (rw (cancel_download, missing) refl)
        (rw (cancel_download, missing) refl)
  | inr found ↦
      let (t, h) = found in
      put-KeepsCount id t (record t { job = fail_open canceled_by_user t.job }) e
        ((cancel_download id e).1) h (rw (cancel_download, h) refl) (rw (cancel_download, h) refl)
        (cancel_at t.job.done t.job t.phase refl) (canceled_later t.job.done t refl)
]

pub job_status-KeepsCount :
    (now : ℕ) (stats : PeerCounts) (id : Str) (e : Engine)
    → KeepsCount e (job_status now stats id e).1
unfolding job_status
job_status-KeepsCount now stats id e = elim (Option-cases (lookup id e.jobs)) [
  | inl missing ↦
      same_jobs-KeepsCount e ((job_status now stats id e).1) (rw (job_status, missing) refl)
        (rw (job_status, missing) refl)
  | inr found ↦
      let (t, h) = found in
      put-KeepsCount id t (record t { job = refreshed now t.job }) e ((job_status now stats id e).1)
        h (rw (job_status, h) refl) (rw (job_status, h) refl) (λ c. c) (refreshed_later now t)
]

pub panicked-KeepsCount :
    (value id : Str) (t : Task) (e : Engine)
    → lookup id e.jobs ≡ some t
    → t.phase ≢ returned
    → KeepsCount e (panicked value id e)
unfolding panicked
panicked-KeepsCount value id t e h n =
    put-KeepsCount id t (record { job = fail (internal_panic value) t.job; phase = returned }) e
      (panicked value id e) h (rw (panicked, h) refl) (rw (panicked, h) refl)
      (λ c. (refl, λ q. absurd (cc q)))
      (moved t.job (fail (internal_panic value) t.job) t.phase returned (λ d. refl) refl n)

pub add_job-Keeps :
    (now meta_timeout : ℕ) (job : DownloadJob) (e : Engine)
    → job.done ≡ false
    → lookup job.id e.jobs ≡ none
    → Keeps e (add_job now meta_timeout job e)
unfolding add_job
add_job-Keeps now meta_timeout job e still_open fresh = (
  λ c. put-AllConsistent job.id _ e c (λ d. absurd (cc (still_open, d))),
  λ id t h. elim (Bool-cases (str_eq job.id id)) [
    | inl same ↦
        let q : job.id ≡ id = (str_eq_iff job.id id).0 same in
        absurd (cc (fresh, subst (λ i. lookup i e.jobs ≡ some t) (sym q) h))
    | inr other ↦ (t, lookup-insert job.id id _ e.jobs ∙ rw other h, later_refl t)
  ],
)

later_trans : (t u v : Task) → IsLater t u → IsLater u v → IsLater t v
later_trans t u v f g = record {
  still_done = λ d. g.still_done (f.still_done d);
  same_phase = λ p. g.same_phase (f.same_phase p);
  same_error = λ p d. g.same_error (f.same_phase p) (f.still_done d) ∙ f.same_error p d;
  same_written = λ p. g.same_written (f.same_phase p) ∙ f.same_written p;
  same_identity = g.same_identity ∙ f.same_identity;
}

pub Keeps-trans : (e f g : Engine) → Keeps e f → Keeps f g → Keeps e g
Keeps-trans e f g (c, l) (d, m) = (
  λ h. d (c h),
  λ id t h. let (u, k, p) = l id t h in let (v, j, q) = m id u k in (v, j, later_trans t u v p q),
)

module _ (valid_utf8 : Str → Bool) (escape : Str → Str) (rate : ℤ → ℕ → ℤ) (from_hex : Str → List ℕ)
    (meta_timeout : ℕ) where
  pub run-KeepsCount :
      (now : ℕ) (event : Signal) (id : Str) (e : Engine)
      → KeepsCount e (run valid_utf8 escape rate from_hex meta_timeout now event id e)
  unfolding run
  run-KeepsCount now event id e = elim (Option-cases (lookup id e.jobs)) [
    | inl missing ↦
        same_jobs-KeepsCount e (run valid_utf8 escape rate from_hex meta_timeout now event id e)
          (rw (run, missing) refl) (rw (run, missing) refl)
    | inr found ↦
        let (t, h) = found in
        let ih = from_hex t.job.identity.infohash_v1 in
        put-KeepsCount id t
          (advance valid_utf8 escape rate ih meta_timeout now e.closed event t.job t.phase).0 e
          (run valid_utf8 escape rate from_hex meta_timeout now event id e) h (rw (run, h) refl)
          (rw (run, h) refl)
          (advance-IsConsistent valid_utf8 escape rate ih meta_timeout now e.closed event t.job
            t.phase)
          (advance_later valid_utf8 escape rate ih meta_timeout now e.closed event t.job t.phase)
  ]
