-- ===== src/Protocol/Tests.antt =====
-- Runs of the parser, with the parts of one URL.
use hali_client.Base.{
  ℕ, ◌≡◌, refl, Bool, true, false, List, [], ◌∷◌, Str, codes, str_eq, Option, none, some, Result,
  ok, err, if◌then◌else◌,
}
use hali_client.Base
use hali_client.Protocol
use hali_client.Protocol.{
  HaliUrl, Url, UrlLibrary, parse, sanitize_requested_file, invalid_file, repository_id,
}
use hali_client.Protocol.Safe.{IsSafeUrl, parse-IsSafeUrl}

abbrev query : Str → Str
query key = if str_eq key (codes "file") then codes "a/b.gguf" else []

abbrev lib : UrlLibrary
lib = record {
  parse_url = λ raw. some (record {
    scheme = codes "HALI";
    host = codes "model";
    path = codes "/Qwen/Q3";
    raw_query = codes "file=a/b.gguf";
  });
  path_unescape = λ p. some p;
  parse_query = λ q. some query;
}

abbrev asked : HaliUrl
asked = record {
  action = codes "model";
  namespace = codes "Qwen";
  name = codes "Q3";
  version = [];
  file = codes "a/b.gguf";
  all = false;
}

parsed : parse lib (codes "hali://model/Qwen/Q3?file=a/b.gguf") ≡ ok asked
unfolding parse str_eq Base.to_lower Base.split_by Base.clean Base.clean_text Base.clean_segs
    Base.clean_step Base.join Base.trim_prefix Base.has_prefix Base.is_empty Protocol.names_of
    Protocol.matches_name Protocol.with_query Protocol.check_version sanitize_requested_file
    Protocol.check_file Base.contains_by Base.trim_space Base.trim_left_by Base.trim_right_by
    Protocol.parse_all_flag Protocol.matches_sha Protocol.matches_version
parsed = refl

climbing : sanitize_requested_file (codes "a/../../b") ≡ err invalid_file
unfolding sanitize_requested_file str_eq Base.split_by Base.has_prefix Base.is_empty
    Protocol.check_file Base.contains_by Base.trim_space Base.trim_left_by Base.trim_right_by
climbing = refl

asked_repository : repository_id asked ≡ codes "Qwen/Q3"
unfolding repository_id
asked_repository = refl

parse-IsSafeUrl_example : IsSafeUrl asked
parse-IsSafeUrl_example =
    parse-IsSafeUrl lib (codes "hali://model/Qwen/Q3?file=a/b.gguf") asked parsed
