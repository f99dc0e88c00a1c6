-- ===== src/Bytes/Find.antt =====
-- Slices and searches at positions that are not negative, without the clipping.
use mathlib.Core.Option
use native.Mathlib.Decide.{dec_le}
use l7_load_balancer.Prelude.{
  ℕ, zero, suc, ◌+◌, ◌-◌, ◌≤◌, min, ◌≡◌, refl, sym, ap, ◌∙◌, [], ◌∷◌, ◌++◌, Option, none, some,
  arith, length, take, drop, length-drop, take_of_length-le, ℤ, pos, negsuc, ◌+ℤ◌, true, false,
  Bool-cases, inl, inr,
}
use l7_load_balancer.Bytes.{Bytes, is, find, find_from, slice, clip, starts_with}

pub +ℤ-pos : (a b : ℕ) → pos a +ℤ pos b ≡ pos (a + b)
unfolding ◌+ℤ◌
+ℤ-pos a b = ground arith

clip-le : (n : ℕ) (z : ℤ) → clip n z ≤ n
unfolding clip
clip-le n (pos k) = omega arith
clip-le n (negsuc k) = omega arith

drop-min : (a : ℕ) (s : Bytes) → drop (min a (length s)) s ≡ drop a s
drop-min a s = elim (dec_le a (length s)) [
  | yes h ↦ ap (λ n. drop n s) (omega arith)
  | no h ↦ ap (λ n. drop n s) (omega arith) ∙ drop_end s ∙ sym (drop_of_length-le a s (omega arith))
]
  where
    drop_end : (t : Bytes) → drop (length t) t ≡ []
    drop_end [] = refl
    drop_end (x ∷ t) = drop_end t

    drop_of_length-le : (n : ℕ) (t : Bytes) → length t ≤ n → drop n t ≡ []
    drop_of_length-le zero [] h = refl
    drop_of_length-le zero (x ∷ t) h = absurd (omega arith)
    drop_of_length-le (suc n) [] h = refl
    drop_of_length-le (suc n) (x ∷ t) h = drop_of_length-le n t (omega arith)

take_both : (k m : ℕ) (s : Bytes) → length s ≤ k → length s ≤ m → take k s ≡ take m s
take_both k m s h l = take_of_length-le k s h ∙ sym (take_of_length-le m s l)

pub slice-pos : (s : Bytes) (a b : ℕ) → slice s (pos a) (pos b) ≡ take (b - a) (drop a s)
unfolding slice clip
slice-pos s a b = rw (drop-min a s) (elim (dec_le b (length s)) [
  | no h ↦
      take_both _ _ (drop a s) (omega (arith, length-drop a s)) (omega (arith, length-drop a s))
  | yes h ↦ elim (dec_le a (length s)) [
    | yes l ↦ ap (λ n. take n (drop a s)) (omega arith)
    | no l ↦
        take_both _ _ (drop a s) (omega (arith, length-drop a s)) (omega (arith, length-drop a s))
  ]
])

-- What is left behind a first part.
pub drop-append_add : (pre t : Bytes) (k : ℕ) → drop (length pre + k) (pre ++ t) ≡ drop k t
drop-append_add [] t k = ap (λ n. drop n t) (omega arith)
drop-append_add (x ∷ pre) t k = ap (λ n. drop n ((x ∷ pre) ++ t)) same ∙ drop-append_add pre t k
  where
    same : suc (length pre) + k ≡ suc (length pre + k)
    same = omega arith

-- A search finds its text inside what is left.
pub find_from-pos :
    (sub s : Bytes) (a : ℕ)
    → a ≤ length s
    → find_from sub s (pos a) ≡ Option.map (λ k. a + k) (find sub (drop a s))
unfolding find_from clip
find_from-pos sub s a h = ap (λ n. Option.map (λ k. n + k) (find sub (drop n s))) (omega arith)

-- What is found is there in full.
starts_with-length-le : (sub s : Bytes) → starts_with sub s ≡ true → length sub ≤ length s
unfolding starts_with
starts_with-length-le [] s h = omega arith
starts_with-length-le (x ∷ sub) [] h = cc
starts_with-length-le (x ∷ sub) (c ∷ s) h = ground (arith, starts_with-length-le sub s)

-- The two ways in which a search can succeed.
pub find_first :
    (sub : Bytes) (c : ℕ) (cs : Bytes)
    → starts_with sub (c ∷ cs) ≡ true
    → find sub (c ∷ cs) ≡ some 0
unfolding find
find_first sub c cs e = rw e

pub find_later :
    (sub : Bytes) (c : ℕ) (cs : Bytes)
    → starts_with sub (c ∷ cs) ≡ false
    → find sub (c ∷ cs) ≡ Option.map suc (find sub cs)
unfolding find
find_later sub c cs e = rw e

map-suc : (o : Option ℕ) (k : ℕ) → Option.map suc o ≡ some k → (j : ℕ) × (o ≡ some j) × (suc j ≡ k)
map-suc none k h = cc
map-suc (some j) k h = (j, refl, ground arith)

pub find-fits : (sub s : Bytes) (k : ℕ) → find sub s ≡ some k → k + length sub ≤ length s
find-fits sub [] k h = unfold find in cc
find-fits sub (c ∷ cs) k h = elim (Bool-cases (starts_with sub (c ∷ cs))) [
  | inl e ↦
      let zero_k : some 0 ≡ some k = sym (find_first sub c cs e) ∙ h in
      let same : 0 ≡ k = cc in omega (arith, starts_with-length-le sub (c ∷ cs) e)
  | inr e ↦
      let (j, found, next) = map-suc (find sub cs) k (sym (find_later sub c cs e) ∙ h) in
      omega (arith, find-fits sub cs j found)
]

-- So it is from any position.
pub find_from-fits :
    (sub s : Bytes) (start : ℤ) (k : ℕ) → find_from sub s start ≡ some k → k + length sub ≤ length s
unfolding find_from
find_from-fits sub s start k h = within (find sub (drop i s)) refl h
  where
    i : ℕ
    i = clip (length s) start

    i-le : i ≤ length s
    i-le = clip-le (length s) start

    within :
        (o : Option ℕ)
        → find sub (drop i s) ≡ o
        → Option.map (λ j. i + j) o ≡ some k
        → k + length sub ≤ length s
    within none e g = cc
    within (some j) e g =
        let same : i + j ≡ k = ground arith in
        omega (arith, find-fits sub (drop i s) j e, length-drop i s, i-le)

pub is-length : (a b : Bytes) → is a b ≡ true → length a ≡ length b
unfolding is
is-length [] [] h = refl
is-length [] (y ∷ b) h = cc
is-length (x ∷ a) [] h = cc
is-length (x ∷ a) (y ∷ b) h = ground (arith, is-length a b)
