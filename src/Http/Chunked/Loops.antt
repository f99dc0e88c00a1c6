-- ===== src/Http/Chunked/Loops.antt =====
-- A negative size line in a chunked body sends the scan back to the start of that line.
use mathlib.Core.Option
use native.Mathlib.Decide.{ℕ_discrete}
use l7_load_balancer.Prelude.{
  ℕ, zero, suc, ◌+◌, ◌-◌, ◌≤◌, ◌≡◌, refl, ap, ◌∙◌, ◌∷◌, ◌++◌, some, true, false, arith, length,
  drop, take, pos, negsuc, ◌+ℤ◌, ltb_ℤ, length-append,
}
use l7_load_balancer.Bytes.{
  Bytes, Bytes-discrete, is, starts_with, find, find_from, slice, strip, lstrip, is_space,
  split_max, split_go,
}
use l7_load_balancer.Bytes.Number.{int, magnitude, digits, digit_value, negate}
use l7_load_balancer.Bytes.Find.{drop-append_add, slice-pos, find_from-pos, +ℤ-pos}
use l7_load_balancer.Http.{line_delim}
use l7_load_balancer.Http.Chunked.{
  out_of_fuel, go_on, chunk_size, data_chunk, sized_chunk, round_at, round, scan,
}

-- A body that has the size line -6 behind a line break.
abbrev pub back_line : Bytes → Bytes → Bytes
back_line pre rest = pre ++ (b'\r' ∷ b'\n' ∷ b'-' ∷ b'6' ∷ b'\r' ∷ b'\n' ∷ rest)

module _ (pre rest : Bytes) where
  abbrev body : Bytes
  body = back_line pre rest

  abbrev p : ℕ
  p = length pre + 2

  long : p + 4 ≤ length body
  long = omega (arith, length-append pre (b'\r' ∷ b'\n' ∷ b'-' ∷ b'6' ∷ b'\r' ∷ b'\n' ∷ rest))

  line_at : find_from line_delim body (pos p) ≡ some (p + 2)
  unfolding find starts_with ℕ_discrete
  line_at =
      find_from-pos line_delim body p (omega (arith, long))
      ∙ ap (λ s. Option.map (λ k. p + k) (find line_delim s)) (drop-append_add pre _ 2)

  two : (a : ℕ) → slice body (pos a) (pos (a + 2)) ≡ take 2 (drop a body)
  two a =
      let same : a + 2 - a ≡ 2 = omega arith in
      slice-pos body a (a + 2) ∙ ap (λ n. take n (drop a body)) same

  size_read : chunk_size (slice body (pos p) (pos (p + 2))) ≡ some (negsuc 5)
  unfolding chunk_size int magnitude digits digit_value negate strip lstrip is_space split_max
      split_go ℕ_discrete
  size_read = ap chunk_size (two p ∙ ap (take 2) (drop-append_add pre _ 2))

  break_before : is (slice body (pos (length pre)) (pos p)) line_delim ≡ true
  unfolding is Bytes-discrete ℕ_discrete
  break_before =
      ap (λ s. is s line_delim)
        (two (length pre)
          ∙ ap (take 2) (ap (λ n. drop n body) (omega arith) ∙ drop-append_add pre _ 0))

  six_back : pos (p + 4) +ℤ negsuc 5 ≡ pos (length pre)
  unfolding ◌+ℤ◌
  six_back = ground arith

  whole_back : pos (p + 4) +ℤ (negsuc 5 +ℤ pos 2) ≡ pos p
  unfolding ◌+ℤ◌
  whole_back = ground arith

  not_past : ltb_ℤ (pos (length body)) (pos p) ≡ false
  not_past = ground (arith, long)

  goes_back : data_chunk body (negsuc 5) (pos (p + 4)) ≡ go_on (pos p)
  unfolding data_chunk
  goes_back = rw (whole_back, not_past, six_back, +ℤ-pos (length pre) 2, break_before)

  round_stays : round body (pos p) ≡ go_on (pos p)
  unfolding round round_at sized_chunk
  round_stays =
      rw (line_at, size_read)
        (ap (λ n. data_chunk body (negsuc 5) (pos n)) (omega arith) ∙ goes_back)

  -- On every body that has the line -6 between two line breaks, the scan of a chunked body, once
  -- it stands at this line, does not end on any fuel, whatever comes before or after.
  pub scan-loops : (fuel : ℕ) → scan fuel (back_line pre rest) (pos (length pre + 2)) ≡ out_of_fuel
  unfolding scan
  scan-loops zero = refl
  scan-loops (suc fuel) = rw (round_stays) (scan-loops fuel)
