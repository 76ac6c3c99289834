-- ===== src/Torrent/Identity.antt =====
-- internal/torrent/identity.go: v1 and v2 infohashes of one torrent.
use hali_client.Base.{Str, [], is_empty, ◌&&◌, not, if◌then◌else◌, Option, none, some}

pub record TorrentIdentity : Type 0 where
  pub infohash_v1 : Str
  pub infohash_v2 : Str

-- GetCanonicalInfohash; `none` is ErrNoIdentity
unfoldable pub canonical_infohash : TorrentIdentity → Option Str
unfolding is_empty
canonical_infohash id =
    if not (is_empty id.infohash_v2)
    then some id.infohash_v2
    else if not (is_empty id.infohash_v1)
    then some id.infohash_v1
    else none

unfoldable pub merge : TorrentIdentity → TorrentIdentity → TorrentIdentity
unfolding is_empty
merge existing incoming =
    let adopted =
      if is_empty existing.infohash_v2 && not (is_empty incoming.infohash_v2)
      then record existing { infohash_v2 = incoming.infohash_v2 }
      else existing in
    if is_empty adopted.infohash_v1 && not (is_empty incoming.infohash_v1)
    then record adopted { infohash_v1 = incoming.infohash_v1 }
    else adopted

-- IdentityFromV1
unfoldable pub identity_from_v1 : Str → TorrentIdentity
identity_from_v1 ih = record { infohash_v1 = ih; infohash_v2 = [] }
