-- ===== src/Tests/Requests.antt =====
-- Requests, as they are sent to a backend.
use l7_load_balancer.Prelude.{◌≡◌, ◌∷◌, [], ◌++◌, refl, some, arith, take}
use native.Mathlib.Decide.{ℕ_discrete}
use l7_load_balancer.Prelude.Dict.{contains}
use l7_load_balancer.Bytes.{Bytes-discrete, codes, is, is_space, lstrip, strip, lower}
use l7_load_balancer.Bytes.Number.{int, magnitude, digits, digit_value, negate}
use l7_load_balancer.Http.Request.{
  HttpRequest, get_content_length, try_parse_request, serialise_request,
}
use l7_load_balancer.Http.Request.Stable.{try_parse_request-append}
use l7_load_balancer.Http.Request.RoundTrip.{IsPlain, head_length, try_parse-serialise_request}

-- A value may have colons in it, and the body anything.
abbrev post : HttpRequest
post = record {
  method = codes "PUT";
  path = codes "/a";
  version = codes "HTTP/1.1";
  headers = (codes "Host", codes "x:1") ∷ (codes "Content-Length", codes "5") ∷ [];
  body = codes "\r\n\r\nZ";
  raw_header_bytes = [];
  header_length = 0;
}

post-IsPlain : IsPlain post
unfolding is is_space lstrip strip lower contains Bytes-discrete ℕ_discrete get_content_length int
    magnitude digits digit_value negate
post-IsPlain = record {
  method = (
    (omega arith, (omega arith, (omega arith, tt))),
    (omega arith, (omega arith, (omega arith, tt))),
  );
  path = ((omega arith, (omega arith, tt)), (omega arith, (omega arith, tt)));
  version = (
    omega arith,
    (
      omega arith,
      (omega arith, (omega arith, (omega arith, (omega arith, (omega arith, (omega arith, tt)))))),
    ),
  );
  headers = (
    (
      (omega arith, (omega arith, (omega arith, (omega arith, tt)))),
      (omega arith, (omega arith, (omega arith, (omega arith, tt)))),
      (omega arith, (omega arith, (omega arith, tt))),
      refl,
      refl,
    ),
    (
      (
        (
          omega arith,
          (
            omega arith,
            (
              omega arith,
              (
                omega arith,
                (
                  omega arith,
                  (
                    omega arith,
                    (
                      omega arith,
                      (
                        omega arith,
                        (
                          omega arith,
                          (
                            omega arith,
                            (omega arith, (omega arith, (omega arith, (omega arith, tt)))),
                          ),
                        ),
                      ),
                    ),
                  ),
                ),
              ),
            ),
          ),
        ),
        (
          omega arith,
          (
            omega arith,
            (
              omega arith,
              (
                omega arith,
                (
                  omega arith,
                  (
                    omega arith,
                    (
                      omega arith,
                      (
                        omega arith,
                        (
                          omega arith,
                          (
                            omega arith,
                            (omega arith, (omega arith, (omega arith, (omega arith, tt)))),
                          ),
                        ),
                      ),
                    ),
                  ),
                ),
              ),
            ),
          ),
        ),
        (omega arith, tt),
        refl,
        refl,
      ),
      tt,
    ),
  );
  once = (refl, (refl, tt));
  sized = refl;
}

try_parse-serialise_request_example :
    try_parse_request (serialise_request post)
    ≡ some (record post {
      raw_header_bytes = take (head_length post) (serialise_request post);
      header_length = head_length post;
    })
try_parse-serialise_request_example = try_parse-serialise_request post post-IsPlain

-- The start of another request comes behind it.
try_parse_request-append_example :
    try_parse_request (serialise_request post ++ codes "GET /b")
    ≡ some (record post {
      raw_header_bytes = take (head_length post) (serialise_request post);
      header_length = head_length post;
    })
try_parse_request-append_example =
    try_parse_request-append (serialise_request post) (codes "GET /b")
      (record post {
        raw_header_bytes = take (head_length post) (serialise_request post);
        header_length = head_length post;
      })
      5 post-IsPlain.sized (try_parse-serialise_request post post-IsPlain)
