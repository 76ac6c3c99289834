-- ===== src/Hf.antt =====
-- internal/hf/client.go: the download of a file from Hugging Face, over the two files that it writes
-- and the writer that gets the bytes for hashing. The server, the disk's faults and the context are
-- parameters. An error is its text, which is all that the retries look at.
pub mod Copy
pub mod Complete
pub mod Retries
pub mod Api
pub mod Files
mod Tests
use hali_client.Base.{
  ℕ, zero, suc, ◌+◌, ◌*◌, ◌^◌, Bool, true, false, not, ◌&&◌, ◌||◌, List, [], ◌∷◌, ◌++◌, Str, codes,
  contains, Option, none, some, length, take, ltb, ◌==◌, if◌then◌else◌, Result, ok, err,
}

-- The .tmp file, the destination, and the bytes that the tee has been given, if there is a tee.
pub record Disk : Type 0 where
  pub tmp : Option Str
  pub dest : Option Str
  pub tee : Option Str

-- What the disk refuses in an attempt: the directory, opening the .tmp file for reading and for
-- writing, and the renaming.
pub record Faults : Type 0 where
  pub mkdir_all : Option Str
  pub open_prefix : Option Str
  pub open_tmp : Option Str
  pub rename : Option Str

-- An HTTP response: its status with the text, the bytes of the body that arrive, the error that ends
-- the copy, if it is not the end of the body, and whether the watchdog caused it.
pub record Response : Type 0 where
  pub status : ℕ
  pub status_text : Str
  pub body : Str
  pub copy_error : Option Str
  pub watchdog : Bool

abbrev pub stored : Option Str → Str
stored none = []
stored (some w) = w

-- resumeAt, the size of a .tmp file that is not empty
abbrev pub resume_at : Disk → ℕ
resume_at d = length (stored d.tmp)

-- What an attempt leaves: the error or the number of bytes, and the disk
abbrev pub Attempt : Type 0
Attempt = Result Str ℕ × Disk

-- hashResumedPrefix, for a .tmp file of at least `n` bytes
abbrev pub fed : Option Str → Str → Option Str
fed none w = none
fed (some seen) w = some (seen ++ w)

abbrev pub hash_prefix : Option Str → Option Str → Str → Disk → Result Str Disk
hash_prefix fault none w d = ok d
hash_prefix (some e) (some seen) w d = err e
hash_prefix none (some seen) w d = ok (record d { tee = fed (some seen) w })

unfoldable pub hash_resumed_prefix : Option Str → ℕ → Disk → Result Str Disk
hash_resumed_prefix fault zero d = ok d
hash_resumed_prefix fault (suc n) d = hash_prefix fault d.tee (take (suc n) (stored d.tmp)) d

-- os.Rename, and the removal of the .tmp file where it fails
abbrev pub rename_tmp : Option Str → Option Str → (Str → Str) → ℕ → Disk → Attempt
rename_tmp (some e) tmp wrap n d = (err (wrap e), record d { tmp = none })
rename_tmp none none wrap n d =
    (err (wrap (codes "no such file or directory")), record d { tmp = none })
rename_tmp none (some w) wrap n d = (ok n, record d { tmp = none; dest = some w })

abbrev pub finish : Option Str → (Str → Str) → ℕ → Disk → Attempt
finish fault wrap n d = rename_tmp fault d.tmp wrap n d

-- The end of the copy, by its error
abbrev pub end_copy : Option Str → Option Str → Bool → ℕ → Disk → Attempt
end_copy (some e) rename watchdog n d = (
  err (if watchdog then codes "download stalled with no progress" else e),
  record d { tmp = none },
)
end_copy none rename watchdog n d = finish rename (λ e. e) n d

-- The copy into the .tmp file, which starts empty unless the download resumes
abbrev pub copied : Response → ℕ → Disk → Disk
copied r at d = record d {
  tmp = some (if ltb 0 at then stored d.tmp ++ r.body else r.body);
  tee = fed d.tee r.body;
}

abbrev pub open_and_copy : Option Str → Option Str → Response → ℕ → Disk → Attempt
open_and_copy (some e) rename r at d = (err e, d)
open_and_copy none rename r at d =
    end_copy r.copy_error rename r.watchdog (length r.body + at) (copied r at d)

-- A step that has the disk's error, or goes on from its disk
abbrev pub go_on : Result Str Disk → Disk → (Disk → Attempt) → Attempt
go_on (err e) d next = (err e, d)
go_on (ok hashed) d next = next hashed

-- The part behind the status: the prefix for the tee, and the copy
unfoldable pub receive_body : Faults → Response → ℕ → Disk → Attempt
unfolding hash_resumed_prefix
receive_body faults r at d =
    go_on (hash_resumed_prefix faults.open_prefix at d) d
      (open_and_copy faults.open_tmp faults.rename r at)

abbrev pub already_complete : Str → Str
already_complete e = codes "file already complete but rename failed: " ++ e

-- The switch over the status. The statuses that answer with a retryableError and the others give
-- the same text.
unfoldable pub on_status : Faults → Response → ℕ → Disk → Attempt
unfolding hash_resumed_prefix receive_body
on_status faults r at d =
    if r.status == 200
    then receive_body faults r 0 (if ltb 0 at then record d { tmp = none } else d)
    else if r.status == 206
    then receive_body faults r at d
    else if r.status == 416
    then go_on (hash_resumed_prefix faults.open_prefix at d) d
        (finish faults.rename already_complete at)
    else (err (codes "download returned " ++ r.status_text), d)

abbrev pub on_response : Faults → Result Str Response → ℕ → Disk → Attempt
on_response faults (err e) at d = (err e, d)
on_response faults (ok r) at d = on_status faults r at d

-- downloadOnce. The server gets the offset of the Range header; a request that fails has its error.
unfoldable pub download_once : Faults → (ℕ → Result Str Response) → Disk → Attempt
unfolding on_status
download_once faults server d = elim faults.mkdir_all [
  | some e ↦ (err e, d)
  | none ↦ on_response faults (server (resume_at d)) (resume_at d) d
]

-- isRetryable
unfoldable pub is_retryable : Str → Bool
is_retryable msg =
    contains msg (codes "connection reset")
    || contains msg (codes "broken pipe")
    || contains msg (codes "timeout")
    || contains msg (codes "EOF")
    || contains msg (codes "tls:")
    || contains msg (codes "no such host")

-- What goes on around the attempts: the server and the faults of each, and the error of the context,
-- if it has ended, before and during the wait behind each.
pub record World : Type 0 where
  pub server : ℕ → ℕ → Result Str Response
  pub faults : ℕ → Faults
  pub ended : ℕ → Option Str
  pub ended_waiting : ℕ → Option Str

abbrev pub result_of : (d : Disk) → Result Str ℕ → (Result Str ℕ × Disk) × List ℕ
result_of d r = ((r, d), [])

-- What Download does behind attempt `k`, which left `d`: it returns, or it waits and goes on
unfoldable pub after_attempt :
    Option Str → Option Str → ℕ → Result Str ℕ → Disk → Attempt × List ℕ → Attempt × List ℕ
after_attempt ended ended_waiting k (ok n) d rest = result_of d (ok n)
after_attempt (some c) ended_waiting k (err e) d rest =
    result_of d (err (if not (is_retryable e) then e else c))
after_attempt none (some c) k (err e) d rest =
    if not (is_retryable e) then result_of d (err e) else ((err c, d), 5 * 2 ^ k ∷ [])
after_attempt none none k (err e) d rest =
    if not (is_retryable e) then result_of d (err e) else (rest.0, 5 * 2 ^ k ∷ rest.1)

-- Attempt `k` of Download and at most `left` further ones, with the waits in seconds
unfoldable pub download_from : World → ℕ → ℕ → Disk → Attempt × List ℕ
unfolding download_once after_attempt
download_from w zero k d = let r = download_once (w.faults k) (w.server k) d in result_of r.1 r.0
download_from w (suc left) k d =
    let r = download_once (w.faults k) (w.server k) d in
    let rest = download_from w left (k + 1) r.1 in
    after_attempt (w.ended k) (w.ended_waiting k) k r.0 r.1 rest

abbrev max_retries : ℕ
max_retries = 3

unfoldable pub download : World → Disk → Attempt × List ℕ
unfolding download_from
download w d = download_from w max_retries 0 d
