-- ===== src/Http/Request/RoundTrip.antt =====
-- A request is parsed back from what is sent for it.
use mathlib.Core.Option
use l7_load_balancer.Prelude.{
  ℕ, ◌+◌, ◌-◌, ◌≡◌, ◌≢◌, sym, ap, ◌∙◌, subst, [], ◌∷◌, ◌++◌, map, append_assoc, some, false, arith,
  length, take, pos, ◌+ℤ◌, ltb_ℤ, length-append, take-append, take_of_length-le,
}
use l7_load_balancer.Prelude.Heap.{All}
use l7_load_balancer.Prelude.Dict.{Distinct}
use l7_load_balancer.Bytes.Number.RoundTrip.{All-append}
use l7_load_balancer.Bytes.{Bytes, Bytes-discrete, find, slice, split_go, split}
use l7_load_balancer.Bytes.Find.{drop-append_add, slice-pos, +ℤ-pos}
use l7_load_balancer.Http.{line_delim, header_delim}
use l7_load_balancer.Http.Request.{
  Headers, HttpRequest, get_content_length, with_body, parse_lines, try_parse_request,
  serialise_request,
}
use l7_load_balancer.Http.Request.Lines.{
  Lacks, joined, IsLine, find_past, find-joined, split-joined, split-request_line,
}
use l7_load_balancer.Http.Request.Fields.{
  names, IsHeader, line_of, add-lines, header_lines_lem, Distinct-AllNew,
}

-- A request that can be written as it stands.
pub record IsPlain (req : HttpRequest) : Type 0 where
  pub method : Lacks b' ' req.method × Lacks b'\r' req.method
  pub path : Lacks b' ' req.path × Lacks b'\r' req.path
  pub version : Lacks b'\r' req.version
  pub headers : All IsHeader req.headers
  pub once : Distinct Bytes-discrete (names req.headers)
  pub sized : get_content_length req.headers ≡ pos (length req.body)

abbrev pub request_line : HttpRequest → Bytes
request_line req = req.method ++ b' ' ∷ (req.path ++ b' ' ∷ req.version)

abbrev pub head : HttpRequest → Bytes
head req = request_line req ++ joined (map line_of req.headers)

-- The number of bytes before the body.
abbrev pub head_length : HttpRequest → ℕ
head_length req = length (head req) + 4

serialise_request_lem :
    (req : HttpRequest) → serialise_request req ≡ head req ++ (header_delim ++ req.body)
unfolding serialise_request
serialise_request_lem req =
    let rest : Bytes = joined (map line_of req.headers) ++ (header_delim ++ req.body) in
    rw (header_lines_lem req.headers) (
      sym (
        append_assoc (request_line req) (joined (map line_of req.headers))
          (header_delim ++ req.body)
        ∙ append_assoc req.method (b' ' ∷ (req.path ++ b' ' ∷ req.version)) rest
        ∙ ap (λ s. req.method ++ b' ' ∷ s) (append_assoc req.path (b' ' ∷ req.version) rest)))

lines-IsLine : (hs : Headers) → All IsHeader hs → All IsLine (map line_of hs)
lines-IsLine [] a = tt
lines-IsLine (h ∷ hs) a = (
  (
    All-append (λ c. c ≢ b'\r') h.0 _ a.0.1 (omega arith, (omega arith, a.0.2)),
    omega (arith, length-append h.0 (b':' ∷ b' ' ∷ h.1)),
  ),
  lines-IsLine hs a.1,
)

module _ (req : HttpRequest) (v : IsPlain req) where
  abbrev behind : Bytes
  behind = header_delim ++ req.body

  request_line-Lacks : Lacks b'\r' (request_line req)
  request_line-Lacks =
      All-append (λ c. c ≢ b'\r') req.method _ v.method.1
        (omega arith, All-append (λ c. c ≢ b'\r') req.path _ v.path.1 (omega arith, v.version))

  find-head : find header_delim (head req ++ behind) ≡ some (length (head req))
  find-head =
      let ls = map line_of req.headers in
      ap (find header_delim) (append_assoc (request_line req) (joined ls) behind)
      ∙ find_past (request_line req) (joined ls ++ behind) request_line-Lacks
      ∙ ap (Option.map (λ k. length (request_line req) + k))
          (find-joined ls req.body (lines-IsLine req.headers v.headers))
      ∙ ap some (sym (length-append (request_line req) (joined ls)))

  split-head :
      split line_delim (take (length (head req)) (head req ++ behind))
      ≡ request_line req ∷ map line_of req.headers
  unfolding split
  split-head =
      ap (split_go line_delim 0 []) (take-append (head req) behind)
      ∙ split-joined [] (request_line req) (map line_of req.headers) request_line-Lacks
          (lines-IsLine req.headers v.headers)

  with_body_lem :
      (r : HttpRequest)
      → get_content_length r.headers ≡ pos (length req.body)
      → with_body (head req ++ behind) (head_length req) r
        ≡ some (record r {
          body = req.body;
          raw_header_bytes = take (head_length req) (head req ++ behind);
          header_length = head_length req;
        })
  unfolding with_body
  with_body_lem r e =
      let n : ℕ = length req.body in
      let k : ℕ = head_length req in
      let buf : Bytes = head req ++ behind in
      let total : pos k +ℤ get_content_length r.headers ≡ pos (k + n) =
        ap (λ z. pos k +ℤ z) e ∙ +ℤ-pos k n in
      let long : k + n ≡ length buf = omega (arith, length-append (head req) behind) in
      let enough : ltb_ℤ (pos (length buf)) (pos (k + n)) ≡ false = ground (arith, long) in
      let there : slice buf (pos k) (pos (k + n)) ≡ req.body =
        slice-pos buf k (k + n)
        ∙ ap (take (k + n - k)) (drop-append_add (head req) behind 4)
        ∙ take_of_length-le (k + n - k) req.body (omega arith) in
      rw (total, enough, there)

  -- What `parse_lines` makes of the lines, before the body.
  abbrev bare : HttpRequest
  bare = record req { body = []; raw_header_bytes = []; header_length = 0 }

  parse_lines_lem :
      (buf : Bytes) (k : ℕ)
      → parse_lines buf k (request_line req ∷ map line_of req.headers) ≡ with_body buf k bare
  unfolding parse_lines
  parse_lines_lem buf k =
      let read = add-lines req.headers [] v.headers (Distinct-AllNew [] req.headers v.once) in
      rw (parse_lines, split-request_line req.method req.path req.version v.method.0 v.path.0, read)

  abbrev placed : Bytes → HttpRequest
  placed buf = record req {
    raw_header_bytes = take (head_length req) buf;
    header_length = head_length req;
  }

  parse-head : try_parse_request (head req ++ behind) ≡ some (placed (head req ++ behind))
  unfolding try_parse_request
  parse-head =
      rw (try_parse_request, find-head, split-head)
        (parse_lines_lem (head req ++ behind) (head_length req) ∙ with_body_lem bare v.sized)

  -- A request is parsed back as it is from what is sent for it, body included, where the request
  -- line has no stray space, no part has a carriage return, each header has no white space around
  -- its name and value and no colon in its name, no name comes twice, and Content-Length is the
  -- length of the body (the body may hold anything); the parse adds where the body begins.
  pub try_parse-serialise_request :
      try_parse_request (serialise_request req)
      ≡ some (record req {
        raw_header_bytes = take (head_length req) (serialise_request req);
        header_length = head_length req;
      })
  try_parse-serialise_request =
      subst (λ buf. try_parse_request buf ≡ some (placed buf)) (sym (serialise_request_lem req))
        parse-head
