-- ===== src/Hf/Tests.antt =====
-- Downloads and file lists of a small repository, and the properties of the client applied to them.
use hali_client.Base.{
  ℕ, zero, suc, contains_byte, ◌≡◌, refl, subst, arith, true, false, [], ◌∷◌, List, Str, codes,
  none, some, drop, Result, ok, contains, has_prefix, contains_by,
}
use hali_client.Base.Int.{pos}
use hali_client.Hf.{Disk, Response, World, download_once, download, is_retryable}
use hali_client.Hf.Copy.{IsHonest, IsOutcome}
use hali_client.Hf.Complete.{IsServerOf, download_once-IsOutcome}
use hali_client.Hf.Retries.{IsEnd, download-IsEnd, no_faults}
use hali_client.Hf.Api.{Reply}
use hali_client.Hf.Files.{ApiFile}

abbrev content : Str
content = 1 ∷ 2 ∷ 3 ∷ []

abbrev reply : ℕ → Response
reply at = record {
  status = 206;
  status_text = [];
  body = drop at content;
  copy_error = none;
  watchdog = false;
}

abbrev serve : ℕ → Result Str Response
serve at = ok (reply at)

serve-IsServerOf : IsServerOf content serve
serve-IsServerOf at r h =
    let same : reply at ≡ r = cc h in
    subst (IsHonest content at) same
      (λ q. absurd (omega (arith, q)), λ q e. refl, λ q. absurd (omega (arith, q)))

abbrev begun : Disk
begun = record { tmp = some (1 ∷ []); dest = none; tee = some [] }

download_once-IsOutcome_example :
    IsOutcome content
      (some [])
      none
      (download_once no_faults serve begun).0
      (download_once no_faults serve begun).1
download_once-IsOutcome_example =
    download_once-IsOutcome content no_faults serve begun refl serve-IsServerOf

abbrev world : World
world = record {
  server = λ k. serve;
  faults = λ k. no_faults;
  ended = λ k. none;
  ended_waiting = λ k. none;
}

download-IsEnd_example : IsEnd content none (download world begun).0.0 (download world begun).0.1
download-IsEnd_example = download-IsEnd content world begun (λ k. serve-IsServerOf) refl

abbrev down : Response
down = record {
  status = 503;
  status_text = codes "503 Service Unavailable";
  body = [];
  copy_error = none;
  watchdog = false;
}

eof_retryable : is_retryable (codes "unexpected EOF") ≡ true
unfolding is_retryable contains has_prefix
eof_retryable = refl

-- Busy at first, then an answer
abbrev busy_once : ℕ → Result Str Reply
busy_once zero = ok (record { status = 429; status_text = []; body = [] })
busy_once (suc k) = ok (record { status = 200; status_text = []; body = content })

abbrev siblings : List ApiFile
siblings =
    record { name = codes "big.GGUF"; size = pos 9; lfs = none }
    ∷ record { name = codes "README.md"; size = pos 1; lfs = none }
    ∷ record { name = codes "q/small.gguf"; size = pos 0; lfs = none }
    ∷ []

abbrev tree : List ApiFile
tree = record { name = codes "q/small.gguf"; size = pos 4; lfs = none } ∷ []

nested_name : contains_byte b'/' (codes "q/small.gguf") ≡ true
unfolding contains_by
nested_name = refl
