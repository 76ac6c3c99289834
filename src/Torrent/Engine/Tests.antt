-- ===== src/Torrent/Engine/Tests.antt =====
-- A download of ten bytes, and the properties of the engine's jobs applied to it.
use hali_client.Base.{
  ℕ, ◌≤◌, ◌≡◌, refl, Bool, true, false, [], ◌∷◌, List, Str, codes, Option, none, some, lookup,
  insert, arith, contains, replicate, str_eq, to_lower, trim_space, trim_left_by, trim_right_by,
  is_empty, Result, ok, err,
}
use hali_client.Base.Int.{ℤ, pos, ◌-ℤ◌, ◌<ℤ◌, ◌≤ℤ◌}
use hali_client.Safepath.{is_safe_filename, is_safe_trimmed, runes_pass, member}
use hali_client.Torrent.Magnet.{build_magnet}
use hali_client.Torrent.Engine.{
  counting, Engine, Task, DownloadJob, Signal, idle, got_info, ticked, no_error, returned,
  active_download_jobs, has_room, cancel_download,
}
use hali_client.Torrent.Engine.Run.{run, advance, count_bytes, progress}
use hali_client.Torrent.Engine.Start.{
  Client, StartError, new_job, new_task, add_job, prepare, start_download,
}
use hali_client.Torrent.Engine.Steps.{Run, Turn, Step, empty_engine, Run-IsConsistent, Run-absorbs}
use hali_client.Torrent.Engine.Limit.{
  Serial, Serial-active_download_jobs, start_download-active_download_jobs, overlapping_starts,
}
use hali_client.Torrent.Engine.Totals.{Counters}
use hali_client.Torrent.Engine.Wait.{await_metadata, await_metadata_ends}

abbrev any_utf8 : Str → Bool
any_utf8 s = true

abbrev no_escape : Str → Str
no_escape s = s

abbrev per_second : ℤ → ℕ → ℤ
per_second bytes time = bytes

abbrev zero_hash : Str → List ℕ
zero_hash s = replicate 20 0

abbrev job_of : Str → DownloadJob
job_of id = new_job 0 id (codes "m") (record { infohash_v1 = codes "a"; infohash_v2 = [] }) [] 7

abbrev run_with : Signal → Engine → Engine
run_with event = run any_utf8 no_escape per_second zero_hash 10 1 event (codes "j")

abbrev started : Engine
started = add_job 0 10 (job_of (codes "j")) (empty_engine (pos 1))

abbrev Reached : Engine → Engine → Type 0
Reached = Run any_utf8 no_escape per_second zero_hash 10

abbrev drive : List Signal → Engine → Engine
drive [] e = e
drive (event ∷ events) e = drive events (run_with event e)

driven : (events : List Signal) (e f : Engine) → Reached e f → Reached e (drive events f)
driven [] e f r = r
driven (event ∷ events) e f r =
    driven events e (run_with event f) (Run.next r (Step.turn (Turn.ran 1 event (codes "j") f)))

start : Reached (empty_engine (pos 1)) started
unfolding lookup
start = Run.next Run.here (Step.added 0 (job_of (codes "j")) (empty_engine (pos 1)) refl refl)

abbrev signals : List Signal
signals =
    idle
    ∷ idle
    ∷ got_info (record { total_length = pos 10; best_name = codes "m.gguf" })
    ∷ idle
    ∷ idle
    ∷ idle
    ∷ idle
    ∷ ticked (pos 0)
    ∷ []

-- The engine before the last tick is counted, and behind it
abbrev counting_engine : Engine
counting_engine = drive signals started

abbrev complete_engine : Engine
complete_engine = run_with idle counting_engine

abbrev or_task : Option Task → Task
or_task none = new_task 0 10 (job_of (codes "j"))
or_task (some t) = t

abbrev complete_task : Task
complete_task = or_task (lookup (codes "j") complete_engine.jobs)

complete_found : lookup (codes "j") complete_engine.jobs ≡ some complete_task
unfolding run advance count_bytes progress lookup insert str_eq add_job is_safe_filename
    is_safe_trimmed trim_space trim_left_by trim_right_by is_empty runes_pass member to_lower ◌-ℤ◌
    contains build_magnet
complete_found = refl

complete_reached : Reached (empty_engine (pos 1)) complete_engine
complete_reached =
    driven (idle ∷ []) (empty_engine (pos 1)) counting_engine
      (driven signals (empty_engine (pos 1)) started start)

Run-IsConsistent_example :
    (complete_task.phase ≡ returned → complete_task.job.done ≡ true)
    × (complete_task.job.done ≡ true
        → complete_task.job.error ≡ no_error
        → (complete_task.phase ≡ returned) × (complete_task.job.written ≡ complete_task.job.total))
Run-IsConsistent_example =
    Run-IsConsistent any_utf8 no_escape per_second zero_hash 10 (pos 1) complete_engine
      complete_reached (codes "j") complete_task complete_found

complete_done : (complete_task.job.done ≡ true) × (complete_task.job.error ≡ no_error)
unfolding run advance count_bytes progress lookup insert str_eq add_job is_safe_filename
    is_safe_trimmed trim_space trim_left_by trim_right_by is_empty runes_pass member to_lower ◌-ℤ◌
    contains build_magnet
complete_done = (refl, refl)

-- A cancellation behind the completion
canceled_after : Reached complete_engine (cancel_download (codes "j") complete_engine).1
canceled_after = Run.next Run.here (Step.turn (Turn.canceled (codes "j") complete_engine))

Run-absorbs_example :
    (u : Task) × (lookup (codes "j") (cancel_download (codes "j") complete_engine).1.jobs ≡ some u)
    × (u.job.done ≡ true)
    × (u.job.identity ≡ complete_task.job.identity)
    × (complete_task.job.error ≡ no_error
        → (u.job.error ≡ no_error) × (u.job.written ≡ complete_task.job.written))
Run-absorbs_example =
    Run-absorbs any_utf8 no_escape per_second zero_hash 10 (pos 1) complete_engine
      (cancel_download (codes "j") complete_engine).1 complete_reached canceled_after (codes "j")
      complete_task complete_found complete_done.0

abbrev counting_task : Task
counting_task = or_task (lookup (codes "j") counting_engine.jobs)

counting_found :
    (lookup (codes "j") counting_engine.jobs ≡ some counting_task)
    × (counting_task.job.done ≡ false)
unfolding run advance count_bytes progress lookup insert str_eq add_job is_safe_filename
    is_safe_trimmed trim_space trim_left_by trim_right_by is_empty runes_pass member to_lower ◌-ℤ◌
    contains build_magnet
counting_found = (refl, refl)

abbrev client : Client
client = record {
  from_hex = λ s. some (replicate 20 0);
  mkdir_all = λ s. true;
  escape = no_escape;
  parses_magnet = λ s. true;
  add_torrent = λ uri peers. some 7;
}

abbrev engine_of : Result StartError Engine → Engine
engine_of (ok e) = e
engine_of (err x) = empty_engine (pos 0)

abbrev alone : Engine
alone =
    engine_of (
      start_download client 0 10 (codes "j") [] (codes "m") (codes "a") [] []
        (empty_engine (pos 1)))

alone_ok :
    start_download client 0 10 (codes "j") [] (codes "m") (codes "a") [] [] (empty_engine (pos 1))
    ≡ ok alone
unfolding start_download prepare build_magnet has_room active_download_jobs trim_space trim_left_by
    trim_right_by is_empty to_lower
alone_ok = refl

-- The limit is lowered from two to one before the only download starts.
Serial-active_download_jobs_example : pos (active_download_jobs alone.jobs) ≤ℤ pos 2
Serial-active_download_jobs_example =
    Serial-active_download_jobs any_utf8 no_escape per_second zero_hash 10 client (pos 2) (pos 2)
      alone (omega arith, omega arith)
      (Serial.started 0 (codes "j") [] (codes "m") (codes "a") [] []
        (Serial.limited (pos 1) Serial.here (omega arith, omega arith)) alone_ok)

start_download-active_download_jobs_example :
    (alone.max_dl_jobs ≡ pos 1) × (pos (active_download_jobs alone.jobs) ≤ℤ alone.max_dl_jobs)
start_download-active_download_jobs_example =
    start_download-active_download_jobs client 0 10 (codes "j") [] (codes "m") (codes "a") [] []
      (empty_engine (pos 1)) alone alone_ok (omega arith)

overlapping_starts_example :
    (has_room (empty_engine (pos 1)) ≡ true)
    × ((add_job 0 10 (job_of (codes "k")) started).max_dl_jobs
        <ℤ pos (active_download_jobs (add_job 0 10 (job_of (codes "k")) started).jobs))
unfolding active_download_jobs lookup str_eq
overlapping_starts_example =
    overlapping_starts 0 10 (empty_engine (pos 1)) (job_of (codes "j")) (job_of (codes "k")) refl
      refl refl refl refl refl

-- A peer in every round, and timers that are on time
await_metadata_ends_example :
    (t : ℕ) × (await_metadata 10 (λ k. 1) (λ k. 0) 31 0 5 15 35 ≡ some t)
    × (15 ≤ t)
    × (t ≤ 38)
    × (((k : ℕ) → ◌≡◌ {A = ℕ} 1 0) → t ≤ 18)
await_metadata_ends_example = await_metadata_ends 10 5 3 (λ k. 1) (λ k. 0) (λ k. omega arith)

-- Every torrent has read five bytes and written two.
abbrev counters : ℕ → Counters
counters h = record { down = 5; up = 2 }

counting_handle :
    (lookup (codes "j") counting_engine.jobs
      ≡ some (record { job = counting_task.job; phase = counting (pos 10) (pos 0) }))
    × (counting_task.job.handle ≡ some 7)
    × (lookup counting_task.job.model_id counting_engine.entries ≡ none)
unfolding run advance count_bytes progress lookup insert str_eq add_job is_safe_filename
    is_safe_trimmed trim_space trim_left_by trim_right_by is_empty runes_pass member to_lower ◌-ℤ◌
    contains build_magnet
counting_handle = (refl, refl, refl)
