-- ===== src/Http/Request.antt =====
-- http_parser.py: parsing, header injection and serialisation of a request.
pub mod Lines
pub mod Stable
pub mod Fields
pub mod RoundTrip
use l7_load_balancer.Prelude.{
  ℕ, ◌+◌, List, [], ◌∷◌, ◌++◌, Option, none, some, if◌then◌else◌, length, take, ℤ, pos, ◌+ℤ◌, ltb_ℤ,
}
use l7_load_balancer.Prelude.Dict.{lookup, insert}
use l7_load_balancer.Bytes.{
  Bytes, Bytes-discrete, codes, is, find, slice, partition, split_max, split, strip, lower,
}
use l7_load_balancer.Bytes.Number.{int}
use l7_load_balancer.Http.{header_delim, line_delim}

-- `Dict[str, str]`, in insertion order.
abbrev pub Headers : Type 0
Headers = List (Bytes × Bytes)

pub record HttpRequest : Type 0 where
  pub method : Bytes
  pub path : Bytes
  pub version : Bytes
  pub headers : Headers
  pub body : Bytes
  pub raw_header_bytes : Bytes
  pub header_length : ℕ

-- One header line: a line with no colon is passed over.
unfoldable pub add_header : Bytes → Headers → Headers
add_header line headers = elim (partition b':' line) [
  | none ↦ headers
  | some (name, value) ↦ insert Bytes-discrete (strip name) (strip value) headers
]

-- The loop over `lines[1:]`.
unfoldable pub add_headers : List Bytes → Headers → Headers
unfolding add_header
add_headers [] headers = headers
add_headers (line ∷ lines) headers = add_headers lines (add_header line headers)

abbrev value_or_zero : Option ℤ → ℤ
value_or_zero none = pos 0
value_or_zero (some n) = n

-- The first header of that name counts, whatever its case; a bad number counts as 0.
unfoldable pub get_content_length : Headers → ℤ
get_content_length [] = pos 0
get_content_length ((key, value) ∷ headers) =
    if is (lower key) (codes "content-length")
    then value_or_zero (int 10 value)
    else get_content_length headers

-- The end of `try_parse_request`: the body, once it is all there.
unfoldable pub with_body : Bytes → ℕ → HttpRequest → Option HttpRequest
with_body buf header_length req =
    let total_needed = pos header_length +ℤ get_content_length req.headers in
    if ltb_ℤ (pos (length buf)) total_needed
    then none
    else some (record req {
      body = slice buf (pos header_length) total_needed;
      raw_header_bytes = take header_length buf;
      header_length = header_length;
    })

-- The request line and the header lines. `split` gives at least one line.
unfoldable pub parse_lines : Bytes → ℕ → List Bytes → Option HttpRequest
unfolding with_body
parse_lines buf header_length [] = none
parse_lines buf header_length (request_line ∷ lines) = elim (split_max 2 b' ' request_line) [
  | method ∷ path ∷ version ∷ [] ↦ with_body buf header_length (record {
    method = method;
    path = path;
    version = version;
    headers = add_headers lines [];
    body = [];
    raw_header_bytes = [];
    header_length = 0;
  })
  | _ ↦ none
]

unfoldable pub try_parse_request : Bytes → Option HttpRequest
unfolding parse_lines
try_parse_request buf = elim (find header_delim buf) [
  | none ↦ none
  | some hdr_end ↦ parse_lines buf (hdr_end + 4) (split line_delim (take hdr_end buf))
]

-- The loop of `inject_forwarded_for`: the first key of that name, in its own spelling.
unfoldable pub find_forwarded_for : Headers → Option Bytes
find_forwarded_for [] = none
find_forwarded_for ((key, value) ∷ headers) =
    if is (lower key) (codes "x-forwarded-for") then some key else find_forwarded_for headers

-- `headers[key]` of a key that is there.
abbrev pub value_of : Option Bytes → Bytes
value_of none = []
value_of (some v) = v

unfoldable pub inject_forwarded_for : HttpRequest → Bytes → HttpRequest
unfolding find_forwarded_for
inject_forwarded_for req client_ip = elim (find_forwarded_for req.headers) [
  | some existing ↦
      let old = value_of (lookup Bytes-discrete existing req.headers) in
      record req {
        headers = insert Bytes-discrete existing (old ++ codes ", " ++ client_ip) req.headers;
      }
  | none ↦ record req {
    headers = insert Bytes-discrete (codes "X-Forwarded-For") client_ip req.headers;
  }
]

-- The header lines behind the request line, each with the line break before it.
unfoldable pub header_lines : Headers → Bytes
header_lines [] = []
header_lines ((name, value) ∷ headers) =
    line_delim ++ (name ++ (codes ": " ++ (value ++ header_lines headers)))

unfoldable pub serialise_request : HttpRequest → Bytes
unfolding header_lines
serialise_request req =
    req.method
    ++ (b' '
        ∷ (req.path
            ++ (b' ' ∷ (req.version ++ (header_lines req.headers ++ (header_delim ++ req.body))))))
