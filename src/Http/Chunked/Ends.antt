-- ===== src/Http/Chunked/Ends.antt =====
-- The scan of a chunked body ends, and what it frames is there, where no size is negative.
use l7_load_balancer.Prelude.{
  ℕ, zero, suc, ◌+◌, ◌-◌, ◌≤◌, ◌<◌, ◌≡◌, ◌≢◌, refl, sym, ap, ◌∙◌, Option, none, some, arith, length,
  ℤ, pos, negsuc, ◌+ℤ◌, true, drop, length-drop, length-take, if_split, subst,
}
use mathlib.Core.Option
use l7_load_balancer.Bytes.{Bytes, is, find, find_from, slice}
use l7_load_balancer.Bytes.Find.{+ℤ-pos, slice-pos, find_from-pos, find_from-fits, is-length}
use l7_load_balancer.Http.{header_delim, line_delim}
use l7_load_balancer.Http.Chunked.{
  Framing, framed, incomplete, out_of_fuel, Round, done, go_on, chunk_size, last_chunk_at,
  last_chunk, data_chunk, sized_chunk, round_at, round, after_round, scan, try_consume_chunked_body,
}

-- No size line, wherever it is cut from the body, is read as a negative number.
abbrev pub NoNegativeSize : Bytes → Type 0
NoNegativeSize body = (a b k : ℕ) → chunk_size (slice body (pos a) (pos b)) ≢ some (negsuc k)

done_inj : (f g : Framing) → done f ≡ done g → f ≡ g
done_inj f g h = ap undo h
  where
    undo : Round → Framing
    undo (done x) = x
    undo (go_on q) = incomplete

data_chunk-go_on :
    (body : Bytes) (m p : ℕ) (q : ℤ)
    → data_chunk body (pos m) (pos p) ≡ go_on q
    → (q ≡ pos (p + m + 2)) × (p + m + 2 ≤ length body)
unfolding data_chunk ◌+ℤ◌
data_chunk-go_on body m p q h = ground arith

-- A round that goes on has moved forward, and not past the end.
round-go_on :
    (body : Bytes) (p : ℕ) (q : ℤ)
    → NoNegativeSize body
    → p ≤ length body
    → round body (pos p) ≡ go_on q
    → (n : ℕ) × (q ≡ pos n) × (p < n) × (n ≤ length body)
unfolding round round_at sized_chunk
round-go_on body p q safe le h =
    at_line (find line_delim (drop p body))
      (ap (round_at body (pos p)) (sym (find_from-pos line_delim body p le)) ∙ h)
  where
    sized :
        (size : Option ℤ) (l : ℕ)
        → ((k : ℕ) → size ≢ some (negsuc k))
        → p ≤ l
        → sized_chunk body size (pos (l + 2)) ≡ go_on q
        → (n : ℕ) × (q ≡ pos n) × (p < n) × (n ≤ length body)
    sized none l ok ge e = cc
    sized (some (pos zero)) l ok ge e = cc
    sized (some (pos (suc m))) l ok ge e =
        let (same, fits) = data_chunk-go_on body (suc m) (l + 2) q e in
        (l + 2 + suc m + 2, same, omega arith, fits)
    sized (some (negsuc k)) l ok ge e = absurd (ok k refl)

    at_line :
        (found : Option ℕ)
        → round_at body (pos p) (Option.map (λ k. p + k) found) ≡ go_on q
        → (n : ℕ) × (q ≡ pos n) × (p < n) × (n ≤ length body)
    at_line none e = cc
    at_line (some k) e = sized _ (p + k) (λ j. safe p (p + k) j) (omega arith) e

-- What a result says of the body.
abbrev pub Fits : Bytes → Framing → Type 0
Fits body (framed q) = (n : ℕ) × (q ≡ pos n) × (n ≤ length body)
Fits body incomplete = Unit
Fits body out_of_fuel = ⊥

last_chunk-Fits :
    (body : Bytes) (p : ℕ) (found : Option ℕ)
    → find_from header_delim body (pos p) ≡ found
    → Fits body (last_chunk_at body (pos p) found)
unfolding last_chunk_at
last_chunk-Fits body p (some k) e = (k + 4, refl, find_from-fits header_delim body (pos p) k e)
last_chunk-Fits body p none e =
    if_split (Fits body) (is (slice body (pos p) (pos p +ℤ pos 2)) line_delim) _ _
      (λ h. (p + 2, +ℤ-pos p 2, crlf h)) (λ _. tt)
  where
    crlf : is (slice body (pos p) (pos p +ℤ pos 2)) line_delim ≡ true → p + 2 ≤ length body
    crlf h = omega (
      arith,
      is-length (slice body (pos p) (pos p +ℤ pos 2)) line_delim h,
      ap length (ap (slice body (pos p)) (+ℤ-pos p 2) ∙ slice-pos body p (p + 2)),
      length-take (p + 2 - p) (drop p body),
      length-drop p body,
    )

data_chunk-Fits :
    (body : Bytes) (size p : ℤ) (f : Framing) → data_chunk body size p ≡ done f → Fits body f
unfolding data_chunk
data_chunk-Fits body size p incomplete h = tt
data_chunk-Fits body size p (framed q) h = ground arith
data_chunk-Fits body size p out_of_fuel h = ground arith

sized_chunk-Fits :
    (body : Bytes) (size : Option ℤ) (p : ℕ) (f : Framing)
    → sized_chunk body size (pos p) ≡ done f
    → Fits body f
unfolding sized_chunk last_chunk
sized_chunk-Fits body none p f h = subst (Fits body) (done_inj incomplete f h) tt
sized_chunk-Fits body (some (pos zero)) p f h =
    subst (Fits body) (done_inj _ f h)
      (last_chunk-Fits body p (find_from header_delim body (pos p)) refl)
sized_chunk-Fits body (some (pos (suc m))) p f h = data_chunk-Fits body (pos (suc m)) (pos p) f h
sized_chunk-Fits body (some (negsuc k)) p f h = data_chunk-Fits body (negsuc k) (pos p) f h

round-Fits : (body : Bytes) (p : ℤ) (f : Framing) → round body p ≡ done f → Fits body f
unfolding round round_at
round-Fits body p f h = at_line (find_from line_delim body p) h
  where
    at_line : (found : Option ℕ) → round_at body p found ≡ done f → Fits body f
    at_line none e = subst (Fits body) (done_inj incomplete f e) tt
    at_line (some l) e = sized_chunk-Fits body _ (l + 2) f e

scan_step :
    (fuel : ℕ) (body : Bytes) (p : ℤ) {r : Round}
    → round body p ≡ r
    → scan (suc fuel) body p ≡ after_round r (scan fuel body)
unfolding scan
scan_step fuel body p e = rw e

-- Wherever the scan of a chunked body starts, and whatever sizes it reads, negative ones included,
-- a length that it returns is that of a part of the buffer.
pub scan-Fits :
    (fuel : ℕ) (body : Bytes) (p q : ℤ)
    → scan fuel body p ≡ framed q
    → (n : ℕ) × (q ≡ pos n) × (n ≤ length body)
scan-Fits zero body p q h = unfold scan in cc
scan-Fits (suc fuel) body p q h = at_round (round body p) refl (λ p'. scan-Fits fuel body p' q)
  where
    at_round :
        (r : Round)
        → round body p ≡ r
        → ((p' : ℤ) → scan fuel body p' ≡ framed q → Fits body (framed q))
        → Fits body (framed q)
    at_round (done f) e rest =
        subst (Fits body) (sym (scan_step fuel body p e) ∙ h) (round-Fits body p f e)
    at_round (go_on p') e rest = rest p' (sym (scan_step fuel body p e) ∙ h)

-- As much fuel as bytes are left, and one more, is enough.
pub scan_ends :
    (fuel : ℕ) (body : Bytes) (p : ℕ)
    → NoNegativeSize body
    → p ≤ length body
    → length body - p < fuel
    → scan fuel body (pos p) ≢ out_of_fuel
scan_ends zero body p safe le enough = absurd (omega arith)
scan_ends (suc fuel) body p safe le enough =
    at_round (round body (pos p)) refl (λ n within less. scan_ends fuel body n safe within less)
  where
    at_round :
        (r : Round)
        → round body (pos p) ≡ r
        → ((n : ℕ)
            → n ≤ length body
            → length body - n < fuel
            → scan fuel body (pos n) ≢ out_of_fuel)
        → scan (suc fuel) body (pos p) ≢ out_of_fuel
    at_round (done f) e rest h =
        subst (Fits body) (sym (scan_step fuel body (pos p) e) ∙ h) (round-Fits body (pos p) f e)
    at_round (go_on q) e rest h =
        let (n, same, more, within) = round-go_on body p q safe le e in
        rest n within (omega arith)
          (ap (scan fuel body) (sym same) ∙ sym (scan_step fuel body (pos p) e) ∙ h)

-- On a body with no negative size the function returns.
pub try_consume_chunked_body_ends :
    (body : Bytes) → NoNegativeSize body → try_consume_chunked_body body ≢ out_of_fuel
unfolding try_consume_chunked_body
try_consume_chunked_body_ends body safe =
    scan_ends (suc (length body)) body 0 safe (omega arith) (omega arith)
