-- ===== src/Gguf/Tests.antt =====
-- A header of version three.
use hali_client.Base.{◌≤◌, ◌≡◌, ◌↔◌, arith, [], ok}
use hali_client.Gguf.{validate_header}
use hali_client.Gguf.Header.{write_header, validate_header-write_header}

validate_header-write_header_example :
    (validate_header (write_header 3 291 24 []) ≡ ok tt)
    ↔ ((1 ≤ 3) × (3 ≤ 3) × (291 ≤ 1000000) × (24 ≤ 1000000))
validate_header-write_header_example =
    validate_header-write_header 3 291 24 [] (omega arith) (omega arith) (omega arith)
