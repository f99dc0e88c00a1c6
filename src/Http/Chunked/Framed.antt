-- ===== src/Http/Chunked/Framed.antt =====
-- A chunked body is framed at its end, whatever its size lines look like.
use mathlib.Core.Option
use l7_load_balancer.Prelude.{
  ℕ, zero, suc, ◌+◌, ◌≤◌, ◌<◌, ◌≡◌, ◌≢◌, refl, sym, ap, ◌∙◌, List, [], ◌∷◌, ◌++◌, some, none, true,
  false, arith, length, drop, take, pos, ltb_ℤ, length-append, length-drop, take-append,
  drop-append,
}
use l7_load_balancer.Prelude.Heap.{All}
use l7_load_balancer.Bytes.{Bytes, is, starts_with, find, find_from, slice}
use l7_load_balancer.Bytes.Find.{slice-pos, find_from-pos, +ℤ-pos}
use l7_load_balancer.Http.{line_delim, header_delim}
use l7_load_balancer.Http.Chunked.{
  framed, go_on, done, chunk_size, data_chunk, last_chunk, last_chunk_at, sized_chunk, round_at,
  round, scan, try_consume_chunked_body,
}

-- A chunk with its size line, which may have leading zeros, white space and extensions.
pub record Chunk : Type 0 where
  pub line : Bytes
  pub content : Bytes

abbrev pub broken : Bytes → Bytes → Bytes
broken line rest = line ++ b'\r' ∷ b'\n' ∷ rest

-- The chunks, the line of the last one, and the final line break.
unfoldable pub encode : List Chunk → Bytes → Bytes
encode [] last = broken last (b'\r' ∷ b'\n' ∷ [])
encode (c ∷ cs) last = broken c.line (broken c.content (encode cs last))

abbrev pub NoBreak : Bytes → Type 0
NoBreak line = All (λ c. c ≢ b'\r') line

-- The size line says the length of the data, which is not empty.
pub record IsChunk (c : Chunk) : Type 0 where
  pub plain : NoBreak c.line
  pub sized : chunk_size c.line ≡ some (pos (length c.content))
  pub full : 1 ≤ length c.content

pub record IsLast (last : Bytes) : Type 0 where
  pub plain : NoBreak last
  pub sized : chunk_size last ≡ some (pos 0)

abbrev pub AllChunks : List Chunk → Type 0
AllChunks [] = Unit
AllChunks (c ∷ cs) = IsChunk c × AllChunks cs

drop_nil : (n : ℕ) → drop {A = ℕ} n [] ≡ []
drop_nil zero = refl
drop_nil (suc n) = refl

drop-drop : (a b : ℕ) (s : Bytes) → drop (a + b) s ≡ drop b (drop a s)
drop-drop zero b s = ap (λ n. drop n s) (omega arith)
drop-drop (suc a) b [] = drop_nil (suc a + b) ∙ sym (drop_nil b)
drop-drop (suc a) b (x ∷ s) = ap (λ n. drop n (x ∷ s)) same ∙ drop-drop a b s
  where
    same : suc a + b ≡ suc (a + b)
    same = omega arith

find-broken :
    (line rest : Bytes) → NoBreak line → find line_delim (broken line rest) ≡ some (length line)
unfolding find starts_with
find-broken [] rest n = refl
find-broken (c ∷ line) rest n = rw (other c n.0, find-broken line rest n.1)
  where
    other : (c : ℕ) → c ≢ b'\r' → starts_with line_delim (c ∷ broken line rest) ≡ false
    other c n = ground arith

-- What stands at a position of the body, and where it ends.
module _ (body : Bytes) (p : ℕ) (part rest : Bytes) (h : drop p body ≡ part ++ rest)
    (q : p ≤ length body) where
  part_ends : p + length part + length rest ≡ length body
  part_ends = omega (arith, q, length-drop p body, ap length h, length-append part rest)

  pub slice-part : slice body (pos p) (pos (p + length part)) ≡ part
  slice-part =
      slice-pos body p (p + length part)
      ∙ ap (λ n. take n (drop p body)) (omega arith)
      ∙ ap (take (length part)) h
      ∙ take-append part rest

  drop-part : drop (p + length part) body ≡ rest
  drop-part = drop-drop p (length part) body ∙ ap (drop (length part)) h ∙ drop-append part rest

module _ (body : Bytes) (p : ℕ) (line rest : Bytes) (h : drop p body ≡ broken line rest)
    (q : p ≤ length body) where
  pub line_at : NoBreak line → find_from line_delim body (pos p) ≡ some (p + length line)
  line_at n =
      find_from-pos line_delim body p q
      ∙ ap (λ s. Option.map (λ k. p + k) (find line_delim s)) h
      ∙ ap (Option.map (λ k. p + k)) (find-broken line rest n)

  short : p + length line ≤ length body
  short = omega (arith, part_ends body p line (line_delim ++ rest) h q)

  stands : drop (p + length line) body ≡ line_delim ++ rest
  stands = drop-part body p line (line_delim ++ rest) h q

  pub behind-line : drop (p + length line + 2) body ≡ rest
  behind-line = drop-part body (p + length line) line_delim rest stands short

  break_at : is (slice body (pos (p + length line)) (pos (p + length line + 2))) line_delim ≡ true
  unfolding is
  break_at =
      ap (λ s. is s line_delim) (slice-part body (p + length line) line_delim rest stands short)

  pub line_ends : p + length line + 2 + length rest ≡ length body
  line_ends = part_ends body (p + length line) line_delim rest stands short

-- A round of the loop at a chunk goes on behind it.
pub round-chunk :
    (body : Bytes) (p : ℕ) (c : Chunk) (rest : Bytes)
    → IsChunk c
    → drop p body ≡ broken c.line (broken c.content rest)
    → p ≤ length body
    → round body (pos p) ≡ go_on (pos (p + length c.line + 2 + length c.content + 2))
unfolding round round_at
round-chunk body p c rest v h q =
    let line_h = behind-line body p c.line (broken c.content rest) h q in
    let line_q : p + length c.line + 2 ≤ length body =
      omega (arith, line_ends body p c.line (broken c.content rest) h q) in
    let data_q = line_ends body (p + length c.line + 2) c.content rest line_h line_q in
    rw
      (
        line_at body p c.line (broken c.content rest) h q v.plain,
        slice-part body p c.line (line_delim ++ broken c.content rest) h q,
        v.sized,
      )
      (goes (p + length c.line + 2) (length c.content) v.full data_q
        (break_at body (p + length c.line + 2) c.content rest line_h line_q))
  where
    goes :
        (p n : ℕ)
        → 1 ≤ n
        → p + n + 2 + length rest ≡ length body
        → is (slice body (pos (p + n)) (pos (p + n + 2))) line_delim ≡ true
        → sized_chunk body (some (pos n)) (pos p) ≡ go_on (pos (p + n + 2))
    goes p zero f e b = absurd (omega (arith, f))
    goes p (suc n) f e b =
        let not_past : ltb_ℤ (pos (length body)) (pos (p + (suc n + 2))) ≡ false =
          ground (arith, e) in
        unfold sized_chunk data_chunk in
        rw (
          +ℤ-pos (suc n) 2,
          +ℤ-pos p (suc n + 2),
          not_past,
          +ℤ-pos p (suc n),
          +ℤ-pos (p + suc n) 2,
          b,
        )

pub round-last :
    (body : Bytes) (p : ℕ) (last : Bytes)
    → IsLast last
    → drop p body ≡ broken last (b'\r' ∷ b'\n' ∷ [])
    → p ≤ length body
    → round body (pos p) ≡ done (framed (pos (length body)))
unfolding round round_at sized_chunk
round-last body p last v h q =
    let there = behind-line body p last line_delim h q in
    let ends = line_ends body p last line_delim h q in
    rw
      (
        line_at body p last line_delim h q v.plain,
        slice-part body p last (line_delim ++ line_delim) h q,
        v.sized,
      )
      (ap done (closes (p + length last + 2) there ends))
  where
    closes :
        (p : ℕ)
        → drop p body ≡ line_delim
        → p + 2 ≡ length body
        → last_chunk body (pos p) ≡ framed (pos (length body))
    closes p h e =
        let nothing : find_from header_delim body (pos p) ≡ none =
          find_from-pos header_delim body p (omega (arith, e))
          ∙ ap (λ s. Option.map (λ k. p + k) (find header_delim s)) h
          ∙ unfold find starts_with in refl in
        let closed : is (slice body (pos p) (pos (p + 2))) line_delim ≡ true =
          ap (λ s. is s line_delim) (slice-part body p line_delim [] h (omega (arith, e)))
          ∙ unfold is in refl in
        unfold last_chunk last_chunk_at in
        rw (nothing, +ℤ-pos p 2, closed) (ap (λ n. framed (pos n)) e)

scan-encode :
    (cs : List Chunk) (last body : Bytes) (p fuel : ℕ)
    → AllChunks cs
    → IsLast last
    → drop p body ≡ encode cs last
    → p ≤ length body
    → length body < p + fuel
    → scan fuel body (pos p) ≡ framed (pos (length body))
unfolding scan encode
scan-encode cs last body p zero a v h q f = absurd (omega (arith, q, f))
scan-encode [] last body p (suc fuel) a v h q f = rw (round-last body p last v h q)
scan-encode (c ∷ cs) last body p (suc fuel) a v h q f =
    let line_h = behind-line body p c.line (broken c.content (encode cs last)) h q in
    let line_q : p + length c.line + 2 ≤ length body =
      omega (arith, line_ends body p c.line (broken c.content (encode cs last)) h q) in
    let next_h =
      behind-line body (p + length c.line + 2) c.content (encode cs last) line_h line_q in
    let next_q = line_ends body (p + length c.line + 2) c.content (encode cs last) line_h line_q in
    rw (round-chunk body p c (encode cs last) a.0 h q) (
      scan-encode cs last body (p + length c.line + 2 + length c.content + 2) fuel a.1 v next_h
        (omega (arith, next_q)) (omega (arith, f)))

-- Try_consume_chunked_body frames a chunked body at its end: for any chunks of at least one byte,
-- whatever their bytes, each under a size line without carriage return that chunk_size reads as
-- the number of its bytes, behind them a line that it reads as 0, and the final line break.
pub try_consume-encode :
    (cs : List Chunk) (last : Bytes)
    → AllChunks cs
    → IsLast last
    → try_consume_chunked_body (encode cs last) ≡ framed (pos (length (encode cs last)))
unfolding try_consume_chunked_body
try_consume-encode cs last a v =
    scan-encode cs last (encode cs last) 0 (suc (length (encode cs last))) a v refl (omega arith)
      (omega arith)
