-- ===== src/Protocol/Safe.antt =====
-- What a URL that Parse accepts can hold.
use hali_client.Base.{
  ℕ, ◌≤◌, ◌≡◌, ◌⊎◌, inl, inr, refl, sym, subst, arith, Bool, true, false, not, ◌&&◌, ◌||◌, List, [],
  ◌∷◌, Str, codes, str_eq, is_empty, trim_space, to_lower, contains_byte, contains_by, ◌==◌,
  has_prefix, str_eq_iff, trim_prefix, clean, dot_dot, split, all, length, ltb, Result, ok, err,
  ◌>>◌, >>=-eq-ok, refuse, Bool-cases,
}
use hali_client.Protocol.{
  HaliUrl, UrlLibrary, ParseError, matches_name, matches_sha, matches_version, is_plain_segment,
  check_file, sanitize_requested_file, check_version, names_of, parse_all_flag, with_query, parse,
  or_error, invalid_file, invalid_version, invalid_name, invalid_namespace, too_long, malformed_url,
  unsupported_scheme, unsupported_action, bad_encoding, traversal, bad_query,
}

-- A path that stays below the directory it is taken in: no empty segment, no dots, no backslash.
pub record IsSafeFile (file : Str) : Type 0 where
  pub short : length file ≤ 512
  pub forward : contains_byte b'\\' file ≡ false
  pub segments : all is_plain_segment (split b'/' file) ≡ true

-- Empty, `latest`, a hash or a tag.
abbrev pub IsVersion : Str → Type 0
IsVersion v =
    ((is_empty v ≡ true) ⊎ (str_eq v (codes "latest") ≡ true))
    ⊎ ((matches_sha v ≡ true) ⊎ (matches_version v ≡ true))

pub record IsSafeUrl (h : HaliUrl) : Type 0 where
  pub action_is : h.action ≡ codes "model"
  pub namespace_is : matches_name 63 h.namespace ≡ true
  pub name_is : matches_name 127 h.name ≡ true
  pub version_is : IsVersion h.version
  pub file_is : (h.file ≡ []) ⊎ IsSafeFile h.file

ok-injective : {A : Type 0} (a b : A) → ◌≡◌ {A = Result ParseError A} (ok a) (ok b) → a ≡ b
ok-injective a b h = cc h

de_morgan :
    (a b c d : Bool)
    → (not a && not b && not c && not d) ≡ false
    → ((a ≡ true) ⊎ (b ≡ true)) ⊎ ((c ≡ true) ⊎ (d ≡ true))
de_morgan true b c d h = inl (inl refl)
de_morgan false true c d h = inl (inr refl)
de_morgan false false true d h = inr (inl refl)
de_morgan false false false true h = inr (inr refl)
de_morgan false false false false h = cc h

chained :
    {A : Type 0} (m : Result ParseError (Unit {0})) (k : Result ParseError A) {a : A}
    → (m >> k) ≡ ok a
    → (m ≡ ok tt) × (k ≡ ok a)
chained (ok tt) k h = (refl, h)
chained (err e) k h = cc h

passed : (b : Bool) (e : ParseError) → refuse b e ≡ ok tt → b ≡ false
passed true e h = cc h
passed false e h = refl

not-false : (b : Bool) → not b ≡ false → b ≡ true
not-false true h = refl
not-false false h = sym h

at_most : (n : ℕ) → ltb 512 n ≡ false → n ≤ 512
at_most n h = ground arith

check_file-IsSafeFile : (s file : Str) → check_file s ≡ ok file → IsSafeFile file
unfolding check_file
check_file-IsSafeFile s file h =
    let (r5, same) = chained _ (ok s) h in
    let (r4, plain) =
      chained _ (refuse (not (all is_plain_segment (split b'/' s))) invalid_file) r5 in
    let (r3, rooted) = chained _ (refuse (has_prefix s (codes "/")) invalid_file) r4 in
    let (r2, control) =
      chained _ (refuse (contains_by (λ c. c == 13 || c == 10 || c == 9) s) invalid_file) r3 in
    let (long, back) = chained _ (refuse (contains_byte b'\\' s) invalid_file) r2 in
    subst IsSafeFile (ok-injective s file same) (record {
      short = at_most (length s) (passed _ invalid_file long);
      forward = passed _ invalid_file back;
      segments = not-false _ (passed _ invalid_file plain);
    })

sanitize_requested_file-IsSafeFile :
    (raw file : Str) → sanitize_requested_file raw ≡ ok file → (file ≡ []) ⊎ IsSafeFile file
unfolding sanitize_requested_file
sanitize_requested_file-IsSafeFile raw file h = elim (Bool-cases (is_empty (trim_space raw))) [
  | inl e ↦ inl (sym (ok-injective [] file (rw e at h)))
  | inr e ↦ inr (check_file-IsSafeFile (trim_space raw) file (rw e at h))
]

check_version-shape : (s version : Str) → check_version s ≡ ok version → IsVersion version
unfolding check_version
check_version-shape s version h =
    let (r, same) = chained _ (ok s) h in
    subst IsVersion (ok-injective s version same) (
      de_morgan (is_empty s) (str_eq s (codes "latest")) (matches_sha s) (matches_version s)
        (passed _ invalid_version r))

names_of-shape :
    (segs : List Str) (names : Str × Str)
    → names_of segs ≡ ok names
    → (matches_name 63 names.0 ≡ true) × (matches_name 127 names.1 ≡ true)
unfolding names_of
names_of-shape [] names h = cc h
names_of-shape (a ∷ []) names h = cc h
names_of-shape (a ∷ b ∷ []) names h =
    let (r4, same) = chained _ (ok (a, b)) h in
    let (r3, second) = chained _ (refuse (not (matches_name 127 b)) invalid_name) r4 in
    let (r2, first) = chained _ (refuse (not (matches_name 63 a)) invalid_namespace) r3 in
    subst (λ n. (matches_name 63 n.0 ≡ true) × (matches_name 127 n.1 ≡ true))
      (ok-injective (a, b) names same)
      (not-false _ (passed _ invalid_namespace first), not-false _ (passed _ invalid_name second))
names_of-shape (a ∷ b ∷ c ∷ segs) names h = cc h

with_query-IsSafeUrl :
    (action : Str) (names : Str × Str) (get : Str → Str) (h : HaliUrl)
    → action ≡ codes "model"
    → (matches_name 63 names.0 ≡ true) × (matches_name 127 names.1 ≡ true)
    → with_query action names get ≡ ok h
    → IsSafeUrl h
unfolding with_query
with_query-IsSafeUrl action names get h model (first, second) e =
    let (version, v, e1) = >>=-eq-ok (check_version (get (codes "version"))) _ e in
    let (file, f, e2) = >>=-eq-ok (sanitize_requested_file (get (codes "file"))) _ e1 in
    let (everything, a, e3) = >>=-eq-ok (parse_all_flag (get (codes "all"))) _ e2 in
    subst IsSafeUrl (ok-injective _ h e3) (record {
      action_is = model;
      namespace_is = first;
      name_is = second;
      version_is = check_version-shape (get (codes "version")) version v;
      file_is = sanitize_requested_file-IsSafeFile (get (codes "file")) file f;
    })

-- A URL that Parse accepts asks for a model by a namespace and a name that match their patterns (so
-- neither is empty, starts with a dot or holds a slash), a version that is empty, `latest`, a hash
-- or a tag, and a file that is empty or a relative path of at most 512 bytes without a backslash,
-- an empty segment or a segment of dots.
pub parse-IsSafeUrl :
    (lib : UrlLibrary) (raw : Str) (h : HaliUrl) → parse lib raw ≡ ok h → IsSafeUrl h
unfolding parse
parse-IsSafeUrl lib raw h e =
    let (t0, long, e0) = >>=-eq-ok (refuse (ltb 2048 (length raw)) too_long) _ e in
    let (u, parsed, e1) = >>=-eq-ok (or_error malformed_url (lib.parse_url raw)) _ e0 in
    let (t2, scheme, e2) =
      >>=-eq-ok (refuse (not (str_eq (to_lower u.scheme) (codes "hali"))) unsupported_scheme) _
        e1 in
    let (t3, host, e3) =
      >>=-eq-ok (refuse (not (str_eq (to_lower u.host) (codes "model"))) unsupported_action) _ e2 in
    let (decoded, unescaped, e4) =
      >>=-eq-ok (or_error bad_encoding (lib.path_unescape u.path)) _ e3 in
    let (t5, clear, e5) =
      >>=-eq-ok (refuse (not (all (λ s. not (str_eq s dot_dot)) (split b'/' decoded))) traversal) _
        e4 in
    let (names, named, e6) =
      >>=-eq-ok (names_of (split b'/' (trim_prefix (clean decoded) (codes "/")))) _ e5 in
    let (get, queried, e7) = >>=-eq-ok (or_error bad_query (lib.parse_query u.raw_query)) _ e6 in
    let model : to_lower u.host ≡ codes "model" =
      (str_eq_iff (to_lower u.host) (codes "model")).0
        (not-false (str_eq (to_lower u.host) (codes "model")) (passed _ unsupported_action host)) in
    with_query-IsSafeUrl (to_lower u.host) names get h model
      (names_of-shape (split b'/' (trim_prefix (clean decoded) (codes "/"))) names named) e7
