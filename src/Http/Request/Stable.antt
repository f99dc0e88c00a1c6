-- ===== src/Http/Request/Stable.antt =====
-- A request that is parsed stays so when more bytes come.
use mathlib.Core.Option
use l7_load_balancer.Prelude.{
  ℕ, zero, suc, ◌+◌, ◌-◌, ◌≤◌, ◌≡◌, refl, sym, ap, ◌∙◌, List, [], ◌∷◌, ◌++◌, Option, some, none,
  false, arith, length, drop, take, pos, ◌+ℤ◌, ltb_ℤ, length-append, length-drop, Bool-cases, inl,
  inr,
}
use l7_load_balancer.Bytes.{Bytes, starts_with, find, split_max, split}
use l7_load_balancer.Bytes.Find.{slice-pos, +ℤ-pos, find-fits, find_first, find_later}
use l7_load_balancer.Http.{line_delim, header_delim}
use l7_load_balancer.Http.Request.{
  HttpRequest, get_content_length, add_headers, with_body, parse_lines, try_parse_request,
}

starts_with-append :
    (sub s t : Bytes) → length sub ≤ length s → starts_with sub (s ++ t) ≡ starts_with sub s
unfolding starts_with
starts_with-append [] s t h = refl
starts_with-append (x ∷ sub) [] t h = absurd (omega (arith, h))
starts_with-append (x ∷ sub) (c ∷ s) t h = rw (starts_with-append sub s t (omega (arith, h)))

-- The first place of a text stays the first one.
pub find-append : (sub s t : Bytes) (k : ℕ) → find sub s ≡ some k → find sub (s ++ t) ≡ some k
find-append sub [] t k h = unfold find in cc
find-append sub (c ∷ s) t k h =
    let same = starts_with-append sub (c ∷ s) t (omega (arith, find-fits sub (c ∷ s) k h)) in
    elim (Bool-cases (starts_with sub (c ∷ s))) [
      | inl e ↦ find_first sub c (s ++ t) (same ∙ e) ∙ sym (find_first sub c s e) ∙ h
      | inr e ↦
          find_later sub c (s ++ t) (same ∙ e)
          ∙ later (find sub s) refl (sym (find_later sub c s e) ∙ h)
              (λ j q. find-append sub s t j q)
    ]
  where
    later :
        (o : Option ℕ)
        → find sub s ≡ o
        → Option.map suc o ≡ some k
        → ((j : ℕ) → find sub s ≡ some j → find sub (s ++ t) ≡ some j)
        → Option.map suc (find sub (s ++ t)) ≡ some k
    later none e g step = cc
    later (some j) e g step = ap (Option.map suc) (step j e) ∙ g

pub take-before : (n : ℕ) (s t : Bytes) → n ≤ length s → take n (s ++ t) ≡ take n s
take-before zero s t h = refl
take-before (suc n) [] t h = absurd (omega (arith, h))
take-before (suc n) (x ∷ s) t h = ap (◌∷◌ x) (take-before n s t (omega (arith, h)))

drop-before : (n : ℕ) (s t : Bytes) → n ≤ length s → drop n (s ++ t) ≡ drop n s ++ t
drop-before zero s t h = refl
drop-before (suc n) [] t h = absurd (omega (arith, h))
drop-before (suc n) (x ∷ s) t h = drop-before n s t (omega (arith, h))

abbrev headers_of : Option HttpRequest → List (Bytes × Bytes)
headers_of none = []
headers_of (some r) = r.headers

-- The request with its body, where it is all there.
abbrev placed : Bytes → ℕ → ℕ → HttpRequest → HttpRequest
placed buf hl k r = record r {
  body = take k (drop hl buf);
  raw_header_bytes = take hl buf;
  header_length = hl;
}

with_body_lem :
    (buf : Bytes) (hl k : ℕ) (r : HttpRequest)
    → get_content_length r.headers ≡ pos k
    → hl + k ≤ length buf
    → with_body buf hl r ≡ some (placed buf hl k r)
unfolding with_body
with_body_lem buf hl k r e long =
    let total : pos hl +ℤ get_content_length r.headers ≡ pos (hl + k) =
      ap (λ z. pos hl +ℤ z) e ∙ +ℤ-pos hl k in
    let enough : ltb_ℤ (pos (length buf)) (pos (hl + k)) ≡ false = ground (arith, long) in
    let whole : hl + k - hl ≡ k = omega arith in
    rw (total, enough, slice-pos buf hl (hl + k), whole)

placed-append :
    (buf more : Bytes) (hl k : ℕ) (r : HttpRequest)
    → hl + k ≤ length buf
    → placed (buf ++ more) hl k r ≡ placed buf hl k r
placed-append buf more hl k r long =
    let tail : take k (drop hl (buf ++ more)) ≡ take k (drop hl buf) =
      ap (take k) (drop-before hl buf more (omega (arith, long)))
      ∙ take-before k (drop hl buf) more (omega (arith, long, length-drop hl buf)) in
    let front : take hl (buf ++ more) ≡ take hl buf =
      take-before hl buf more (omega (arith, long)) in
    ap (λ b. record r { body = b; raw_header_bytes = take hl (buf ++ more); header_length = hl })
      tail
    ∙ ap (λ b. record r { body = take k (drop hl buf); raw_header_bytes = b; header_length = hl })
        front

module _ (buf more : Bytes) (req : HttpRequest) (k : ℕ)
    (sized : get_content_length req.headers ≡ pos k) where
  with_body-append :
      (hl : ℕ) (r : HttpRequest)
      → with_body buf hl r ≡ some req
      → with_body (buf ++ more) hl r ≡ some req
  unfolding with_body
  with_body-append hl r h =
      elim (Bool-cases (ltb_ℤ (pos (length buf)) (pos hl +ℤ get_content_length r.headers))) [
        | inl e ↦ cc (rw e at h)
        | inr e ↦
            let same : r.headers ≡ req.headers = ap headers_of (rw e at h) in
            let read : get_content_length r.headers ≡ pos k = ap get_content_length same ∙ sized in
            let total : pos hl +ℤ get_content_length r.headers ≡ pos (hl + k) =
              ap (λ z. pos hl +ℤ z) read ∙ +ℤ-pos hl k in
            let long : hl + k ≤ length buf =
              within (hl + k) (sym (ap (λ z. ltb_ℤ (pos (length buf)) z) total) ∙ e) in
            with_body_lem (buf ++ more) hl k r read (omega (arith, long, length-append buf more))
            ∙ ap some (placed-append buf more hl k r long)
            ∙ sym (with_body_lem buf hl k r read long)
            ∙ h
      ]
    where
      within : (n : ℕ) → ltb_ℤ (pos (length buf)) (pos n) ≡ false → n ≤ length buf
      within n e = ground (arith, e)

  parse_lines-append :
      (hl : ℕ) (lines : List Bytes)
      → parse_lines buf hl lines ≡ some req
      → parse_lines (buf ++ more) hl lines ≡ some req
  unfolding parse_lines
  parse_lines-append hl [] h = cc
  parse_lines-append hl (l ∷ ls) h = words (split_max 2 b' ' l) refl
    where
      begun : Bytes → Bytes → Bytes → HttpRequest
      begun method path version = record {
        method = method;
        path = path;
        version = version;
        headers = add_headers ls [];
        body = [];
        raw_header_bytes = [];
        header_length = 0;
      }

      words :
          (ws : List Bytes)
          → split_max 2 b' ' l ≡ ws
          → parse_lines (buf ++ more) hl (l ∷ ls) ≡ some req
      words [] e = cc (rw (parse_lines, e) at h)
      words (a ∷ []) e = cc (rw (parse_lines, e) at h)
      words (a ∷ b ∷ []) e = cc (rw (parse_lines, e) at h)
      words (a ∷ b ∷ c ∷ []) e =
          rw (parse_lines, e) (with_body-append hl (begun a b c) (rw (parse_lines, e) at h))
      words (a ∷ b ∷ c ∷ d ∷ ws) e = cc (rw (parse_lines, e) at h)

  -- What try_parse_request reads from a buffer it reads from the buffer with any more bytes behind
  -- it too, if the Content-Length that it read is not negative: the request does not depend on how
  -- the bytes arrive.
  pub try_parse_request-append :
      try_parse_request buf ≡ some req → try_parse_request (buf ++ more) ≡ some req
  unfolding try_parse_request
  try_parse_request-append h = ends (find header_delim buf) refl
    where
      ends : (o : Option ℕ) → find header_delim buf ≡ o → try_parse_request (buf ++ more) ≡ some req
      ends none e = cc (rw (try_parse_request, e) at h)
      ends (some n) e =
          let lines : take n (buf ++ more) ≡ take n buf =
            take-before n buf more (omega (arith, find-fits header_delim buf n e)) in
          rw (try_parse_request, find-append header_delim buf more n e, lines)
            (parse_lines-append (n + 4) (split line_delim (take n buf))
              (rw (try_parse_request, e) at h))
