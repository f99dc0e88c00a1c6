-- ===== src/Http.antt =====
-- http_parser.py. `Request` is the request side, `Response` the response side, `Chunked` the scan
-- of a chunked body.
pub mod Request
pub mod Response
pub mod Chunked
use l7_load_balancer.Prelude.{ℤ, negsuc, List, [], ◌∷◌}
use l7_load_balancer.Bytes.{Bytes}

abbrev pub header_delim : Bytes
header_delim = b'\r' ∷ b'\n' ∷ b'\r' ∷ b'\n' ∷ []

abbrev pub line_delim : Bytes
line_delim = b'\r' ∷ b'\n' ∷ []

-- -2
abbrev pub content_length_absent : ℤ
content_length_absent = negsuc 1
