-- ===== src/Policy/Limits.antt =====
-- What the policy guarantees of the effective settings.
use hali_client.Base.{◌≡◌, refl, arith, some}
use hali_client.Base.Int.{ℤ, pos, negsuc, ◌≤ℤ◌, ◌<ℤ◌}
use hali_client.Policy.{Settings, Policy, clamped, apply}

clamped-ceiling :
    (limit upload : ℤ)
    → pos 0 <ℤ limit
    → pos 0 ≤ℤ upload
    → (pos 0 <ℤ clamped limit upload) × (clamped limit upload ≤ℤ limit)
unfolding clamped
clamped-ceiling (pos l) (pos u) h k = ground arith
clamped-ceiling (pos l) (negsuc u) h k = absurd (omega arith)
clamped-ceiling (negsuc l) u h k = absurd (omega arith)

-- Under a policy with a ceiling above zero, and for a user's limit that is not negative (where
-- zero means no limit), the effective upload limit is above zero and at most the ceiling, and the
-- download limit stays.
pub apply-ceiling :
    (p : Policy) (user : Settings) (ceiling : ℤ)
    → p.max_upload_kbps ≡ some ceiling
    → pos 0 <ℤ ceiling
    → pos 0 ≤ℤ user.max_upload_kbps
    → (pos 0 <ℤ (apply p user).max_upload_kbps)
      × ((apply p user).max_upload_kbps ≤ℤ ceiling)
      × ((apply p user).max_download_kbps ≡ user.max_download_kbps)
unfolding apply
apply-ceiling p user ceiling e h k =
    let (low, high) = clamped-ceiling ceiling user.max_upload_kbps h k in rw e (low, high, refl)
