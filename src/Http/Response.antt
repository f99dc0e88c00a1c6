-- ===== src/Http/Response.antt =====
-- http_parser.py: what the balancer reads of a response.
use l7_load_balancer.Prelude.{
  List, [], ◌∷◌, Option, none, some, Bool, false, if◌then◌else◌, take, ℤ, pos, negsuc, ◌||◌,
}
use l7_load_balancer.Bytes.{Bytes, codes, is, find, partition, split_max, split, strip, lower}
use l7_load_balancer.Bytes.Number.{int}
use l7_load_balancer.Http.{header_delim, line_delim, content_length_absent}

-- `int(parts[1])` and the reason.
status_code : Option ℤ → Bytes → Option (ℤ × Bytes)
status_code none reason = none
status_code (some code) reason = some (code, reason)

status_of : List Bytes → Option (ℤ × Bytes)
unfolding status_code
status_of (version ∷ code ∷ reason ∷ []) = status_code (int 10 code) reason
status_of (version ∷ code ∷ []) = status_code (int 10 code) []
status_of _ = none

-- `none` is `(None, None)`.
unfoldable pub parse_response_status : Bytes → Option (ℤ × Bytes)
unfolding status_of
parse_response_status buf = elim (find line_delim buf) [
  | none ↦ none
  | some end ↦ status_of (split_max 2 b' ' (take end buf))
]

-- `header_section.split("\r\n")[1:]` of a buffer whose headers are complete.
abbrev pub tail_lines : List Bytes → List Bytes
tail_lines [] = []
tail_lines (first ∷ lines) = lines

unfoldable pub header_lines_of : Bytes → Option (List Bytes)
header_lines_of buf = elim (find header_delim buf) [
  | none ↦ none
  | some hdr_end ↦ some (tail_lines (split line_delim (take hdr_end buf)))
]

-- The value of the first line with the header `name`, which is given in lower case.
unfoldable pub find_header : Bytes → List Bytes → Option Bytes
find_header name [] = none
find_header name (line ∷ lines) =
    let rest = find_header name lines in
    elim (partition b':' line) [
      | none ↦ rest
      | some (key, value) ↦ if is (lower (strip key)) name then some (strip value) else rest
    ]

length_value : Option Bytes → ℤ
length_value none = content_length_absent
length_value (some value) = elim (int 10 value) [ none ↦ pos 0 | some n ↦ n ]

-- -1 while the headers are incomplete, -2 without the header.
unfoldable pub get_response_content_length : Bytes → ℤ
unfolding header_lines_of find_header length_value
get_response_content_length buf = elim (header_lines_of buf) [
  | none ↦ negsuc 0
  | some lines ↦ length_value (find_header (codes "content-length") lines)
]

-- `"chunked" in [p.strip() for p in value.split(",")]`
any_chunked : List Bytes → Bool
any_chunked [] = false
any_chunked (p ∷ ps) = is (strip p) (codes "chunked") || any_chunked ps

chunked_value : Option Bytes → Bool
unfolding any_chunked
chunked_value none = false
chunked_value (some value) = any_chunked (split (codes ",") (lower value))

unfoldable pub is_chunked_response : Bytes → Option Bool
unfolding header_lines_of find_header chunked_value
is_chunked_response buf = elim (header_lines_of buf) [
  | none ↦ none
  | some lines ↦ some (chunked_value (find_header (codes "transfer-encoding") lines))
]
