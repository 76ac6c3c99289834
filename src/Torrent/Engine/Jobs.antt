-- ===== src/Torrent/Engine/Jobs.antt =====
-- What holds of the engine's download jobs after any sequence of steps of their goroutines and of
-- the callers, in any order.
use hali_client.Base.{
  sym, ◌∙◌, not, ℕ, ◌≡◌, ◌≢◌, refl, Bool, true, false, Bool-cases, inl, inr, [], Str, leb, All,
  arith, if◌then◌else◌, Result, ok, err, List,
}
use hali_client.Base.Int.{ℤ, pos, negsuc, ◌-ℤ◌, eqb_ℤ}
use hali_client.Safepath.{is_safe_filename}
use hali_client.Torrent.Magnet.{MagnetError, build_magnet}
use hali_client.Torrent.Engine.{
  Engine, Task, TorrentInfo, metadata_timeout, engine_shutdown, unsafe_filename, DownloadJob, Phase,
  Signal, JobError, no_error, returned, failing, looking, testing, selecting, counting, polling,
  timing, choosing, expiring, arrived, named, stopping, fail, is_canceled, is_canceled_error,
  canceled_by_user, internal_panic, idle, shut_down, ticked, got_info, window_over,
}
use hali_client.Torrent.Engine.Run.{counted, with_uri, advance, count_bytes, progress}

-- A job that is done has an error.
abbrev IsOpen : Bool → JobError → Type 0
IsOpen done error = done ≡ true → error ≢ no_error

-- What holds of a job's fields Done, Error, Written and Total while its goroutine is at a place:
-- only a goroutine that has returned leaves a job done without an error, and then it is complete.
abbrev pub Fits : Bool → JobError → ℤ → ℤ → Phase → Type 0
Fits done error written total (failing e) = (e ≢ no_error) × IsOpen done error
Fits done error written total (looking t) = (total ≡ t) × IsOpen done error
Fits done error written total (testing t) = (total ≡ t) × IsOpen done error
Fits done error written total (selecting t) = (total ≡ t) × IsOpen done error
Fits done error written total (counting t missing) = (total ≡ t) × IsOpen done error
Fits done error written total returned = (done ≡ true) × (error ≡ no_error → written ≡ total)
Fits done error written total (polling d m) = IsOpen done error
Fits done error written total (timing d m) = IsOpen done error
Fits done error written total (choosing d m) = IsOpen done error
Fits done error written total expiring = IsOpen done error
Fits done error written total (arrived info) = IsOpen done error
Fits done error written total (named info) = IsOpen done error
Fits done error written total stopping = IsOpen done error

abbrev pub IsConsistent : DownloadJob → Phase → Type 0
IsConsistent job p = Fits job.done job.error job.written job.total p

abbrev pub AllConsistent : Engine → Type 0
AllConsistent e = All (λ (x : Str × Task). IsConsistent x.1.job x.1.phase) e.jobs

canceled_error : (e : JobError) → is_canceled_error e ≡ true → e ≢ no_error
canceled_error canceled_by_user h = λ q. cc q
canceled_error no_error h = absurd (cc)
canceled_error metadata_timeout h = absurd (cc)
canceled_error engine_shutdown h = absurd (cc)
canceled_error (unsafe_filename w) h = absurd (cc)
canceled_error (internal_panic w) h = absurd (cc)

canceled_done :
    (job : DownloadJob) → is_canceled job ≡ true → (job.done ≡ true) × (job.error ≢ no_error)
canceled_done job h = (ground (arith), canceled_error job.error (ground (arith)))

minus_zero : (a b : ℤ) → eqb_ℤ b (pos 0) ≡ true → a -ℤ b ≡ a
unfolding ◌-ℤ◌
minus_zero (pos a) (pos b) h = ground arith
minus_zero (negsuc a) (pos b) h = ground arith
minus_zero a (negsuc b) h = absurd (cc)

-- A place that the goroutine leaves when its job was canceled.
unless_canceled :
    (job : DownloadJob) (p : Phase)
    → IsOpen job.done job.error
    → IsConsistent job p
    → IsConsistent job (if is_canceled job then returned else p)
unless_canceled job p o h = elim (Bool-cases (is_canceled job)) [
  | inl e ↦ let (d, n) = canceled_done job e in rw e (d, λ q. absurd (n q))
  | inr e ↦ rw e h
]

either :
    (b : Bool) (job : DownloadJob) (p q : Phase)
    → IsConsistent job p
    → IsConsistent job q
    → IsConsistent job (if b then p else q)
either true job p q hp hq = hp
either false job p q hp hq = hq

with_uri-IsConsistent :
    (r : Result MagnetError Str) (info : TorrentInfo) (job : DownloadJob)
    → job.total ≡ info.total_length
    → IsOpen job.done job.error
    → IsConsistent (with_uri r job) (looking info.total_length)
with_uri-IsConsistent (ok uri) info job e o = (e, o)
with_uri-IsConsistent (err x) info job e o = (e, o)

counted-IsConsistent :
    (done complete : Bool) (total missing : ℤ) (job moved : DownloadJob)
    → job.done ≡ done
    → eqb_ℤ missing (pos 0) ≡ complete
    → moved.total ≡ total
    → moved.written ≡ total -ℤ missing
    → IsOpen job.done job.error
    → IsOpen moved.done moved.error
    → let t = (counted done complete total job moved).0 in IsConsistent t.job t.phase
counted-IsConsistent true complete total missing job moved d c e w o k = (d, λ q. absurd (o d q))
counted-IsConsistent false true total missing job moved d c e w o k =
    (refl, λ q. w ∙ minus_zero total missing c ∙ sym e)
counted-IsConsistent false false total missing job moved d c e w o k = (e, k)

fail_open-IsConsistent :
    (done : Bool) (e : JobError) (job : DownloadJob)
    → job.done ≡ done
    → e ≢ no_error
    → IsOpen job.done job.error
    → IsConsistent (if not done then fail e job else job) returned
fail_open-IsConsistent true e job d n o = (d, λ q. absurd (o d q))
fail_open-IsConsistent false e job d n o = (refl, λ q. absurd (n q))

module _ (valid_utf8 : Str → Bool) (escape : Str → Str) (rate : ℤ → ℕ → ℤ) where
  count_bytes-IsConsistent :
      (now : ℕ) (total missing : ℤ) (job : DownloadJob)
      → job.total ≡ total
      → IsOpen job.done job.error
      → let t = (count_bytes valid_utf8 escape rate now total missing job).0 in
        IsConsistent t.job t.phase
  unfolding count_bytes progress
  count_bytes-IsConsistent now total missing job e o =
      counted-IsConsistent job.done (eqb_ℤ missing (pos 0)) total missing job
        (progress valid_utf8 escape rate now total missing job) refl refl e refl o o

  pub advance-IsConsistent :
      (ih : List ℕ) (meta_timeout now : ℕ) (closed : Bool) (event : Signal) (job : DownloadJob)
      (p : Phase)
      → IsConsistent job p
      → let t = (advance valid_utf8 escape rate ih meta_timeout now closed event job p).0 in
        IsConsistent t.job t.phase
  unfolding advance
  advance-IsConsistent ih meta_timeout now closed event job (polling d m) h =
      unless_canceled job (timing d m) h h
  advance-IsConsistent ih meta_timeout now closed event job (timing d m) h =
      either (leb d now) job expiring (choosing d m) h h
  advance-IsConsistent ih meta_timeout now closed (got_info info) job (choosing d m) h = h
  advance-IsConsistent ih meta_timeout now closed (window_over n) job (choosing d m) h = h
  advance-IsConsistent ih meta_timeout now closed shut_down job (choosing d m) h = (λ q. cc q, h)
  advance-IsConsistent ih meta_timeout now closed idle job (choosing d m) h = h
  advance-IsConsistent ih meta_timeout now closed (ticked missing) job (choosing d m) h = h
  advance-IsConsistent ih meta_timeout now closed event job expiring h =
      unless_canceled job (failing metadata_timeout) h (λ q. cc q, h)
  advance-IsConsistent ih meta_timeout now closed event job (failing e) h =
      (refl, λ q. absurd (h.0 q))
  advance-IsConsistent ih meta_timeout now closed event job (arrived info) h =
      either closed job (failing engine_shutdown)
        (if not (is_safe_filename valid_utf8 info.best_name)
          then failing (unsafe_filename info.best_name)
          else named info)
        (λ q. cc q, h)
        (either (not (is_safe_filename valid_utf8 info.best_name)) job
          (failing (unsafe_filename info.best_name)) (named info) (λ q. cc q, h) h)
  advance-IsConsistent ih meta_timeout now closed event job (named info) h =
      with_uri-IsConsistent (build_magnet escape ih job.identity.infohash_v2 info.best_name [] [])
        info (record job { total = info.total_length; filename = info.best_name }) refl h
  advance-IsConsistent ih meta_timeout now closed event job (looking total) h =
      unless_canceled job (testing total) h.1 h
  advance-IsConsistent ih meta_timeout now closed event job (testing total) h =
      either closed job stopping (selecting total) h.1 h
  advance-IsConsistent ih meta_timeout now closed shut_down job (selecting total) h = h.1
  advance-IsConsistent ih meta_timeout now closed (ticked missing) job (selecting total) h = h
  advance-IsConsistent ih meta_timeout now closed idle job (selecting total) h = h
  advance-IsConsistent ih meta_timeout now closed (got_info info) job (selecting total) h = h
  advance-IsConsistent ih meta_timeout now closed (window_over n) job (selecting total) h = h
  advance-IsConsistent ih meta_timeout now closed event job stopping h =
      fail_open-IsConsistent job.done engine_shutdown job refl (λ q. cc q) h
  advance-IsConsistent ih meta_timeout now closed event job (counting total missing) h =
      count_bytes-IsConsistent now total missing job h.0 h.1
  advance-IsConsistent ih meta_timeout now closed event job returned h = h
