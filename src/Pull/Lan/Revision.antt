-- ===== src/Pull/Lan/Revision.antt =====
-- The revision of a LAN hint.
use mathlib.Core.Path.{ap₂}
use hali_client.Base.{
  ltb, length, err, sym, not, ◌||◌, ℕ, Bool, false, Str, Dict, Option, some, Result, ok, ◌≡◌, refl,
  ap, ◌∙◌, if◌then◌else◌,
}
use hali_client.Cache.{is_blank}
use hali_client.Daemon.Lan.Observed.{LanQueryData}
use hali_client.Daemon.Server.{Response}
use hali_client.Pull.Poll.{Tick, Wanted}
use hali_client.Pull.Lan.{
  lan_panics, with_hint, candidate, or_trimmed, from_hint, lan_started, try_lan_download, LanError,
}

or_trimmed_asked : (x y z : Str) → is_blank x ≡ false → or_trimmed x y ≡ or_trimmed x z
or_trimmed_asked x y z h = rw h refl

with_hint_same :
    {Bytes : Type 0} (w : Wanted Bytes) (q : LanQueryData) (repo revision : Str)
    → is_blank w.hf_repo ≡ false
    → is_blank w.hf_revision ≡ false
    → with_hint w q ≡ with_hint w (record q { hf_repo = repo; revision = revision })
unfolding with_hint
with_hint_same w q repo revision a b =
    ap₂
      (λ r v. record w {
        hf_repo = r;
        hf_revision = v;
        infohash = q.infohash;
        infohash_v2 = q.infohash_v2;
      })
      (or_trimmed_asked w.hf_repo q.hf_repo repo a)
      (or_trimmed_asked w.hf_revision q.revision revision b)

-- When a repository and a revision are asked for, the repository and the revision of the hint on the
-- LAN are not looked at: a hint of any other revision is downloaded in the same way, and its file is
-- stored under the revision that was asked for.
try_lan_download_any_revision :
    {Bytes : Type 0} (w : Wanted Bytes) (q : LanQueryData) (repo revision : Str)
    (one other started : Result Str Response) (ticks : ℕ → Tick) (fuel : ℕ) (disk : Dict Bytes)
    → is_blank w.hf_repo ≡ false
    → is_blank w.hf_revision ≡ false
    → candidate w.json one ≡ some q
    → candidate w.json other ≡ some (record q { hf_repo = repo; revision = revision })
    → try_lan_download w one started ticks fuel disk
      ≡ try_lan_download w other started ticks fuel disk
unfolding try_lan_download with_hint
try_lan_download_any_revision w q repo revision one other started ticks fuel disk a b e f =
    let rest : Option LanQueryData → Option (Dict _ × Result LanError Bool) = λ c.
      if not w.daemon_runs then some (disk, ok false) else from_hint w c started ticks fuel disk in
    ap rest e
    ∙ ap
        (λ v.
          if not w.daemon_runs
          then some (disk, ok false)
          else if is_blank v.hf_repo || is_blank v.hf_revision
          then some (disk, ok false)
          else if ltb (length v.infohash) 8
          then some (disk, err lan_panics)
          else lan_started w v started ticks fuel disk)
        (with_hint_same w q repo revision a b)
    ∙ sym (ap rest f)
