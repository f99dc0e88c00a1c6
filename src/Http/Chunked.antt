-- ===== src/Http/Chunked.antt =====
-- `try_consume_chunked_body` of http_parser.py. The loop takes fuel, one unit for each chunk;
-- `out_of_fuel` is a loop that has not ended yet. Positions are integers: Python's `int` also reads a
-- negative size, which moves the position back, and a negative index counts from the end.
pub mod Ends
pub mod Loops
pub mod Framed
pub mod Cut
pub mod NoMinus
use l7_load_balancer.Prelude.{
  ℕ, zero, suc, ◌+◌, List, [], ◌∷◌, Option, none, some, not, if◌then◌else◌, length, ℤ, pos, ◌+ℤ◌,
  ltb_ℤ,
}
use l7_load_balancer.Bytes.{Bytes, is, find_from, slice, split_max, strip}
use l7_load_balancer.Bytes.Number.{int}
use l7_load_balancer.Http.{header_delim, line_delim}

pub data Framing : Type 0 where
  framed : ℤ → Framing
  incomplete : Framing
  out_of_fuel : Framing

abbrev first_part : List Bytes → Bytes
first_part [] = []
first_part (p ∷ ps) = p

-- The size on a size line, its chunk extension stripped; `none` is a ValueError.
unfoldable pub chunk_size : Bytes → Option ℤ
chunk_size size_line = int 16 (strip (first_part (split_max 1 b';' size_line)))

-- Behind the last chunk: the trailers and the final line break. The argument is where a blank line
-- was found.
unfoldable pub last_chunk_at : Bytes → ℤ → Option ℕ → Framing
last_chunk_at body p (some trailer_end) = framed (pos (trailer_end + 4))
last_chunk_at body p none =
    if is (slice body p (p +ℤ pos 2)) line_delim then framed (p +ℤ pos 2) else incomplete

unfoldable pub last_chunk : Bytes → ℤ → Framing
last_chunk body p = last_chunk_at body p (find_from header_delim body p)

-- What one round of the loop does: it returns, or it goes on at a position.
pub data Round : Type 0 where
  done : Framing → Round
  go_on : ℤ → Round

-- A chunk of `size` bytes whose data starts at `p`.
unfoldable pub data_chunk : Bytes → ℤ → ℤ → Round
data_chunk body size p =
    if ltb_ℤ (pos (length body)) (p +ℤ (size +ℤ pos 2))
    then done incomplete
    else if not (is (slice body (p +ℤ size) (p +ℤ size +ℤ pos 2)) line_delim)
    then done incomplete
    else go_on (p +ℤ size +ℤ pos 2)

unfoldable pub sized_chunk : Bytes → Option ℤ → ℤ → Round
sized_chunk body none p = done incomplete
sized_chunk body (some (pos zero)) p = done (last_chunk body p)
sized_chunk body (some size) p = data_chunk body size p

-- The argument is where the size line ends.
unfoldable pub round_at : Bytes → ℤ → Option ℕ → Round
round_at body p none = done incomplete
round_at body p (some line_end) =
    sized_chunk body (chunk_size (slice body p (pos line_end))) (pos (line_end + 2))

unfoldable pub round : Bytes → ℤ → Round
round body p = round_at body p (find_from line_delim body p)

-- The loop returns, or goes on.
abbrev pub after_round : Round → (ℤ → Framing) → Framing
after_round (done r) rest = r
after_round (go_on q) rest = rest q

unfoldable pub scan : ℕ → Bytes → ℤ → Framing
scan zero body p = out_of_fuel
scan (suc fuel) body p = after_round (round body p) (scan fuel body)

-- The fuel that suffices where no size is negative (`scan_ends`).
unfoldable pub try_consume_chunked_body : Bytes → Framing
try_consume_chunked_body body = scan (suc (length body)) body (pos 0)
