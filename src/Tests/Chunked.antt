-- ===== src/Tests/Chunked.antt =====
-- Chunked bodies, after tests/test_http_parser.py.
use l7_load_balancer.Prelude.{ℕ, [], ◌∷◌, List, arith, ◌++◌, ◌≡◌, ◌≤◌, refl, pos, ◌+ℤ◌, length}
use native.Mathlib.Decide.{ℕ_discrete}
use l7_load_balancer.Bytes.{
  Bytes, Bytes-discrete, codes, is, starts_with, find, clip, slice, find_from, split_max, split_go,
  is_space, lstrip, strip,
}
use l7_load_balancer.Bytes.Number.{digit_value, digits, magnitude, negate, int}
use l7_load_balancer.Http.Chunked.{
  Framing, out_of_fuel, framed, incomplete, chunk_size, last_chunk_at, last_chunk, data_chunk,
  sized_chunk, round_at, round, scan, try_consume_chunked_body,
}
use l7_load_balancer.Http.Chunked.Ends.{scan-Fits}
use l7_load_balancer.Prelude.{◌≢◌}
use l7_load_balancer.Prelude.Dict.{contains}
use l7_load_balancer.Http.Chunked.NoMinus.{try_consume_chunked_body_returns}
use l7_load_balancer.Http.Chunked.Framed.{Chunk, encode, IsLast, AllChunks, try_consume-encode}
use l7_load_balancer.Http.Chunked.Cut.{try_consume-cut}
use l7_load_balancer.Http.Chunked.Loops.{back_line, scan-loops}

-- One chunk of three bytes, the last chunk, and a byte behind it.
abbrev body : Bytes
body = codes "3\r\nabc\r\n0\r\n\r\nX"

unfoldable consume : Bytes → Framing
unfolding ◌+ℤ◌ ℕ_discrete Bytes-discrete is starts_with find clip slice find_from split_max split_go
    is_space lstrip strip digit_value digits magnitude negate int chunk_size last_chunk_at
    last_chunk data_chunk sized_chunk round_at round scan try_consume_chunked_body
consume = try_consume_chunked_body

body_framed : consume body ≡ framed (pos 13)
unfolding consume
body_framed = refl

body_scanned : scan 17 body (pos 0) ≡ framed (pos 13)
unfolding consume
body_scanned = refl

cut_incomplete : consume (codes "3\r\nab") ≡ incomplete
unfolding consume
cut_incomplete = refl

scan-Fits_example : (n : ℕ) × (pos 13 ≡ pos n) × (n ≤ length body)
scan-Fits_example = scan-Fits 17 body (pos 0) (pos 13) body_scanned

-- A chunk of one byte, and the size line -6 behind it.
abbrev looping : Bytes
looping = back_line (codes "1\r\nX") []

scan-loops_example : scan 1000 looping (pos 6) ≡ out_of_fuel
scan-loops_example = scan-loops (codes "1\r\nX") [] 1000

-- The scan from the start gets there.
looping_consumed : consume looping ≡ out_of_fuel
unfolding consume
looping_consumed = refl

try_consume_chunked_body_returns_example : try_consume_chunked_body body ≢ out_of_fuel
try_consume_chunked_body_returns_example =
    try_consume_chunked_body_returns body (unfold contains ℕ_discrete in refl)

-- Two chunks, with an extension, leading zeros and an upper-case digit, and a last chunk.
abbrev two_chunks : List Chunk
two_chunks =
    record { line = codes "3;x=1"; content = codes "abc" }
    ∷ record { line = codes "00A"; content = codes "a\r\n0\r\n\r\nxy" }
    ∷ []

two_chunks-AllChunks : AllChunks two_chunks
unfolding is_space lstrip strip digit_value digits magnitude negate int chunk_size split_max
two_chunks-AllChunks = (
  record {
    plain = (omega arith, (omega arith, (omega arith, (omega arith, (omega arith, tt)))));
    sized = refl;
    full = omega arith;
  },
  (
    record {
      plain = (omega arith, (omega arith, (omega arith, tt)));
      sized = refl;
      full = omega arith;
    },
    tt,
  ),
)

zero-IsLast : IsLast (codes "0")
unfolding is_space lstrip strip digit_value digits magnitude negate int chunk_size split_max
zero-IsLast = record { plain = (omega arith, tt); sized = refl }

try_consume-encode_example :
    try_consume_chunked_body (encode two_chunks (codes "0"))
    ≡ framed (pos (length (encode two_chunks (codes "0"))))
try_consume-encode_example =
    try_consume-encode two_chunks (codes "0") two_chunks-AllChunks zero-IsLast

-- It is cut inside the second chunk, behind what looks like its end.
abbrev arrived : Bytes
arrived = codes "3;x=1\r\nabc\r\n00A\r\na\r\n0\r\n\r\n"

arrived_is_cut : arrived ++ codes "xy\r\n0\r\n\r\n" ≡ encode two_chunks (codes "0")
unfolding encode
arrived_is_cut = refl

try_consume-cut_example : try_consume_chunked_body arrived ≡ incomplete
try_consume-cut_example =
    try_consume-cut two_chunks (codes "0") arrived (codes "xy\r\n0\r\n\r\n") two_chunks-AllChunks
      zero-IsLast arrived_is_cut (λ e. cc)
