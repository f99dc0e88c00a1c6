-- ===== src/Http/Chunked/Cut.antt =====
-- A chunked body that is cut short is not framed, wherever it is cut.
use mathlib.Core.Option
use l7_load_balancer.Prelude.{
  ℕ, zero, suc, ◌+◌, ◌-◌, ◌≤◌, ◌<◌, ◌≡◌, ◌≢◌, refl, sym, ap, ◌∙◌, List, [], ◌∷◌, ◌++◌, some, none,
  true, false, arith, length, drop, take, pos, ltb_ℤ, ◌⊎◌, inl, inr,
}
use l7_load_balancer.Bytes.{Bytes, is, starts_with, find, find_from, slice}
use l7_load_balancer.Bytes.Find.{slice-pos, find_from-pos, +ℤ-pos}
use l7_load_balancer.Http.{line_delim, header_delim}
use l7_load_balancer.Http.Chunked.{
  incomplete, done, data_chunk, last_chunk, last_chunk_at, sized_chunk, round_at, round, scan,
  try_consume_chunked_body,
}
use l7_load_balancer.Http.Chunked.Framed.{
  Chunk, broken, encode, NoBreak, IsChunk, IsLast, AllChunks, line_at, slice-part, behind-line,
  line_ends, round-chunk,
}

-- A text up to the cut: `part` and its line break are cut, or the rest is.
cut :
    (part t u rest : Bytes)
    → t ++ u ≡ broken part rest
    → (length t < length part + 2) ⊎ ((t' : Bytes) × (t ≡ broken part t') × (t' ++ u ≡ rest))
cut [] [] u rest e = inl (omega arith)
cut [] (x ∷ []) u rest e = inl (omega arith)
cut [] (x ∷ y ∷ t) u rest e =
    let first : x ≡ b'\r' = cc in
    let second : y ≡ b'\n' = cc in let behind : t ++ u ≡ rest = cc in inr (t, cc, behind)
cut (c ∷ part) [] u rest e = inl (omega arith)
cut (c ∷ part) (x ∷ t) u rest e =
    let same : x ≡ c = cc in
    let behind : t ++ u ≡ broken part rest = cc in
    elim (cut part t u rest behind) [
      | inl short ↦ inl (omega (arith, short))
      | inr (t', f, g) ↦ inr (t', cc, g)
    ]

-- A line that is cut has no line break.
find-cut :
    (line t u rest : Bytes)
    → NoBreak line
    → t ++ u ≡ broken line rest
    → length t < length line + 2
    → find line_delim t ≡ none
unfolding find starts_with
find-cut line [] u rest n e s = refl
find-cut [] (x ∷ []) u rest n e s = ground arith
find-cut [] (x ∷ y ∷ t) u rest n e s = absurd (omega (arith, s))
find-cut (c ∷ line) (x ∷ t) u rest n e s =
    let same : x ≡ c = cc in
    let behind : t ++ u ≡ broken line rest = cc in
    rw (other x (λ f. n.0 (sym same ∙ f)), find-cut line t u rest n.1 behind (omega (arith, s)))
  where
    other : (c : ℕ) → c ≢ b'\r' → starts_with line_delim (c ∷ t) ≡ false
    other c n = ground arith

nil_end : (s u : Bytes) → s ++ u ≡ [] → u ≡ []
nil_end [] u f = f
nil_end (x ∷ s) u f = cc

round-cut :
    (body : Bytes) (p : ℕ)
    → p ≤ length body
    → find line_delim (drop p body) ≡ none
    → round body (pos p) ≡ done incomplete
unfolding round round_at
round-cut body p q h = rw (find_from-pos line_delim body p q, h)

module _ (body : Bytes) (p : ℕ) (q : p ≤ length body) where
  -- The content of a chunk is cut.
  round-short :
      (c : Chunk) (t : Bytes)
      → IsChunk c
      → drop p body ≡ broken c.line t
      → length t < length c.content + 2
      → round body (pos p) ≡ done incomplete
  unfolding round round_at
  round-short c t v h s =
      rw
        (
          line_at body p c.line t h q v.plain,
          slice-part body p c.line (line_delim ++ t) h q,
          v.sized,
        )
        (stops (p + length c.line + 2) (length c.content) v.full
          (omega (arith, line_ends body p c.line t h q, s)))
    where
      stops :
          (p n : ℕ)
          → 1 ≤ n
          → length body < p + n + 2
          → sized_chunk body (some (pos n)) (pos p) ≡ done incomplete
      stops p zero f l = absurd (omega (arith, f))
      stops p (suc n) f l =
          let past : ltb_ℤ (pos (length body)) (pos (p + (suc n + 2))) ≡ true = ground (arith, l) in
          unfold sized_chunk data_chunk in rw (+ℤ-pos (suc n) 2, +ℤ-pos p (suc n + 2), past)

  -- The line break behind the last chunk is cut.
  last-cut :
      (t u : Bytes)
      → drop p body ≡ t
      → t ++ u ≡ line_delim
      → u ≢ []
      → last_chunk body (pos p) ≡ incomplete
  unfolding last_chunk last_chunk_at
  last-cut t u h e n =
      let nothing : find_from header_delim body (pos p) ≡ none =
        find_from-pos header_delim body p q
        ∙ ap (λ s. Option.map (λ k. p + k) (find header_delim s)) h
        ∙ ap (Option.map (λ k. p + k)) (open_end t e) in
      let two : p + 2 - p ≡ 2 = omega arith in
      let unclosed : is (slice body (pos p) (pos (p + 2))) line_delim ≡ false =
        ap (λ s. is s line_delim)
          (slice-pos body p (p + 2) ∙ ap (λ k. take k (drop p body)) two ∙ ap (take 2) h)
        ∙ not_closed t e in
      rw (nothing, +ℤ-pos p 2, unclosed)
    where
      open_end : (s : Bytes) → s ++ u ≡ line_delim → find header_delim s ≡ none
      open_end [] f = unfold find in refl
      open_end (x ∷ []) f = unfold find starts_with in ground arith
      open_end (x ∷ y ∷ s) f = absurd (n (nil_end s u (cc)))

      not_closed : (s : Bytes) → s ++ u ≡ line_delim → is (take 2 s) line_delim ≡ false
      not_closed [] f = unfold is in refl
      not_closed (x ∷ []) f = unfold is in ground arith
      not_closed (x ∷ y ∷ s) f = absurd (n (nil_end s u cc))

round-last_cut :
    (body : Bytes) (p : ℕ) (last t u : Bytes)
    → IsLast last
    → p ≤ length body
    → drop p body ≡ broken last t
    → t ++ u ≡ line_delim
    → u ≢ []
    → round body (pos p) ≡ done incomplete
unfolding round round_at sized_chunk
round-last_cut body p last t u v q h e n =
    rw (line_at body p last t h q v.plain, slice-part body p last (line_delim ++ t) h q, v.sized)
      (ap done (
        last-cut body (p + length last + 2) (omega (arith, line_ends body p last t h q)) t u
          (behind-line body p last t h q) e n))

module _ (body u : Bytes) (n : u ≢ []) where
  scan-cut :
      (cs : List Chunk) (last t : Bytes) (p fuel : ℕ)
      → AllChunks cs
      → IsLast last
      → drop p body ≡ t
      → t ++ u ≡ encode cs last
      → p ≤ length body
      → length body < p + fuel
      → scan fuel body (pos p) ≡ incomplete
  unfolding scan encode
  scan-cut cs last t p zero a v h e q f = absurd (omega (arith, q, f))
  scan-cut [] last t p (suc fuel) a v h e q f = elim (cut last t u line_delim e) [
    | inl short ↦
        rw (
          round-cut body p q
            (ap (find line_delim) h ∙ find-cut last t u line_delim v.plain e short))
    | inr (t', g, k) ↦ rw (round-last_cut body p last t' u v q (h ∙ g) k n)
  ]
  scan-cut (c ∷ cs) last t p (suc fuel) a v h e q f =
      elim (cut c.line t u (broken c.content (encode cs last)) e) [
        | inl short ↦
            rw (
              round-cut body p q (ap (find line_delim) h ∙ find-cut c.line t u _ a.0.plain e short))
        | inr (t', g, k) ↦ elim (cut c.content t' u (encode cs last) k) [
          | inl short ↦ rw (round-short body p q c t' a.0 (h ∙ g) short)
          | inr (t'', g', k') ↦
              let here : drop p body ≡ broken c.line (broken c.content t'') =
                h ∙ g ∙ ap (broken c.line) g' in
              let line_q : p + length c.line + 2 ≤ length body =
                omega (arith, line_ends body p c.line (broken c.content t'') here q) in
              let line_h = behind-line body p c.line (broken c.content t'') here q in
              rw (round-chunk body p c t'' a.0 here q) (
                scan-cut cs last t'' (p + length c.line + 2 + length c.content + 2) fuel a.1 v
                  (behind-line body (p + length c.line + 2) c.content t'' line_h line_q) k'
                  (omega
                    (arith, line_ends body (p + length c.line + 2) c.content t'' line_h line_q))
                  (omega (arith, f)))
        ]
      ]

-- A part of such a chunked body that lacks at least its last byte is incomplete for
-- try_consume_chunked_body, wherever it is cut, and whatever the chunks' bytes look like.
pub try_consume-cut :
    (cs : List Chunk) (last body u : Bytes)
    → AllChunks cs
    → IsLast last
    → body ++ u ≡ encode cs last
    → u ≢ []
    → try_consume_chunked_body body ≡ incomplete
unfolding try_consume_chunked_body
try_consume-cut cs last body u a v e n =
    scan-cut body u n cs last body 0 (suc (length body)) a v refl e (omega arith) (omega arith)
