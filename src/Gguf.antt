-- ===== src/Gguf.antt =====
-- internal/gguf/validate.go: the check of a model file's header.
pub mod Header
mod Tests
use hali_client.Base.{
  ℕ, ◌+◌, ◌*◌, not, ◌||◌, List, [], ◌∷◌, Str, codes, str_eq, length, take, drop, ltb, Result, ok,
  err, refuse, ◌>>◌,
}

abbrev pub header_size : ℕ
header_size = 24

abbrev pub max_sane_count : ℕ
max_sane_count = 1000000

pub data HeaderError : Type 0 where
  too_short invalid_magic unsupported_version tensor_count meta_kv_count : HeaderError

-- binary.LittleEndian.Uint32 and Uint64
unfoldable pub little_endian : Str → ℕ
little_endian [] = 0
little_endian (b ∷ bs) = b + 256 * little_endian bs

-- buf[from:to], for to - from bytes
abbrev pub field : ℕ → ℕ → Str → ℕ
field from size buf = little_endian (take size (drop from buf))

-- ValidateHeader, of the bytes of a file that can be opened and read
unfoldable pub validate_header : Str → Result HeaderError (Unit {0})
unfolding str_eq little_endian
validate_header file =
    let buf = take header_size file in
    let version = field 4 4 buf in
    refuse (ltb (length buf) header_size) too_short
    >> refuse (not (str_eq (take 4 buf) (codes "GGUF"))) invalid_magic
    >> refuse (ltb version 1 || ltb 3 version) unsupported_version
    >> refuse (ltb max_sane_count (field 8 8 buf)) tensor_count
    >> refuse (ltb max_sane_count (field 16 8 buf)) meta_kv_count
