-- ===== src/Config/Tests.antt =====
-- A configuration and a commented text, and the properties of the settings applied to them.
use hali_client.Base.{◌≡◌, refl, [], ◌∷◌, List, codes, none, contains, has_prefix, contains_by}
use hali_client.Base.Int.{pos}
use hali_client.Config.{File}
use hali_client.Config.Comments.{
  Piece, plain, quoted, line, block, strip_json_comments, write_all, write_uncommented,
  stays_inside, strip_json_comments-write_all,
}

abbrev settings : File
settings = record {
  debug = none;
  telemetry_enabled = none;
  registry_ingest_url = [];
  lan_hmac_enabled = none;
  max_upload_mbps = pos 3;
  max_download_mbps = pos 0;
  pull_concurrency = pos 0;
  torrent_meta_timeout_ms = pos 0;
  ipc_deadline_ms = pos 0;
  launch_timeout_ms = pos 0;
  q_bittorrent = none;
  transmission = none;
}

abbrev pieces : List Piece
pieces =
    plain (codes "{ ")
    ∷ quoted (codes "a//b")
    ∷ plain (codes " : 1 ")
    ∷ block (codes " * / ")
    ∷ line (codes " the end")
    ∷ plain (codes "}")
    ∷ []

strip_json_comments-write_all_example :
    strip_json_comments (write_all pieces) ≡ write_uncommented pieces
unfolding contains has_prefix contains_by stays_inside
strip_json_comments-write_all_example =
    strip_json_comments-write_all pieces
      ((refl, refl), (refl, ((refl, refl), (refl, (refl, ((refl, refl), tt))))))
