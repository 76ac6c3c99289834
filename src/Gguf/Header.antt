-- ===== src/Gguf/Header.antt =====
-- The headers that pass are those that are written for a supported version and sane counts.
use hali_client.Base.{
  ◌↔◌, ◌∙◌, sym, subst, ltb, refuse, ◌>>◌, ◌||◌, false, ℕ, zero, suc, ◌*◌, ◌/◌, ◌%◌, ◌^◌, ◌≤◌, ◌<◌,
  ◌≡◌, refl, arith, [], ◌∷◌, ◌++◌, Str, codes, str_eq, Result, ok,
}
use hali_client.Gguf.{
  max_sane_count, HeaderError, too_short, invalid_magic, unsupported_version, tensor_count,
  meta_kv_count, validate_header, little_endian,
}

-- A number in `n` bytes, the lowest first
unfoldable pub to_bytes : ℕ → ℕ → Str
to_bytes zero v = []
to_bytes (suc n) v = v % 256 ∷ to_bytes n (v / 256)

little_endian-to_bytes : (n v : ℕ) → v < 256 ^ n → little_endian (to_bytes n v) ≡ v
unfolding little_endian to_bytes
little_endian-to_bytes zero v h = omega arith
little_endian-to_bytes (suc n) v h =
    let power : 256 ^ suc n ≡ 256 * 256 ^ n = omega arith in
    let rest : little_endian (to_bytes n (v / 256)) ≡ v / 256 =
      little_endian-to_bytes n (v / 256) (omega (arith, power)) in
    omega (arith, rest)

-- A header as the format has it, in front of the rest of a file
abbrev pub write_header : ℕ → ℕ → ℕ → Str → Str
write_header version tensors pairs rest =
    codes "GGUF" ++ (to_bytes 4 version ++ (to_bytes 8 tensors ++ (to_bytes 8 pairs ++ rest)))

-- The checks behind the magic bytes, of the three numbers
abbrev checks : ℕ → ℕ → ℕ → Result HeaderError (Unit {0})
checks version tensors pairs =
    refuse false too_short
    >> refuse false invalid_magic
    >> refuse (ltb version 1 || ltb 3 version) unsupported_version
    >> refuse (ltb max_sane_count tensors) tensor_count
    >> refuse (ltb max_sane_count pairs) meta_kv_count

read_header :
    (version tensors pairs : ℕ) (rest : Str)
    → validate_header (write_header version tensors pairs rest)
      ≡ checks
          (little_endian (to_bytes 4 version))
          (little_endian (to_bytes 8 tensors))
          (little_endian (to_bytes 8 pairs))
unfolding validate_header str_eq to_bytes little_endian
read_header version tensors pairs rest = refl

checks_iff :
    (version tensors pairs : ℕ)
    → (checks version tensors pairs ≡ ok tt)
      ↔ ((1 ≤ version) × (version ≤ 3) × (tensors ≤ 1000000) × (pairs ≤ 1000000))
checks_iff version tensors pairs = ground arith

-- A file with a header in the format's layout passes just if its version is one to three and neither
-- of its counts exceeds a million, whatever numbers of 32 and of 64 bits they are.
pub validate_header-write_header :
    (version tensors pairs : ℕ) (rest : Str)
    → version < 256 ^ 4
    → tensors < 256 ^ 8
    → pairs < 256 ^ 8
    → (validate_header (write_header version tensors pairs rest) ≡ ok tt)
      ↔ ((1 ≤ version) × (version ≤ 3) × (tensors ≤ 1000000) × (pairs ≤ 1000000))
validate_header-write_header version tensors pairs rest h k l =
    let same : validate_header (write_header version tensors pairs rest)
        ≡ checks version tensors pairs =
      read_header version tensors pairs rest ∙ λ i.
      checks (little_endian-to_bytes 4 version h i) (little_endian-to_bytes 8 tensors k i)
        (little_endian-to_bytes 8 pairs l i) in
    subst
      (λ r. (r ≡ ok tt) ↔ ((1 ≤ version) × (version ≤ 3) × (tensors ≤ 1000000) × (pairs ≤ 1000000)))
      (sym same) (checks_iff version tensors pairs)
