-- ===== src/Http/Chunked/NoMinus.antt =====
-- A body with no minus sign has no negative size.
use mathlib.Core.List.{
  Mem, not-mem-nil, mem-cons_self, mem-cons_of_mem, eq-or-mem_of_mem-cons, mem-reverse, reverse,
  Mem-prop,
}
use mathlib.Core.Logic.Or
use mathlib.Core.HLevel.{⊥_prop}
use native.Mathlib.Decide.{ℕ_discrete}
use l7_load_balancer.Prelude.Dict.{contains}
use mathlib.Core.Option
use l7_load_balancer.Prelude.{
  ℕ, zero, suc, ◌-◌, ◌≡◌, ◌≢◌, refl, sym, subst, [], ◌∷◌, Option, none, some, false, arith, drop,
  take, pos, inl, inr, Option-cases, Bool-cases, ◌==◌,
}
use l7_load_balancer.Bytes.{Bytes, slice, strip, lstrip, is_space, split_max, partition}
use l7_load_balancer.Bytes.Number.{int-minus}
use l7_load_balancer.Bytes.Find.{slice-pos}
use l7_load_balancer.Http.Chunked.{chunk_size, first_part, try_consume_chunked_body, out_of_fuel}
use l7_load_balancer.Http.Chunked.Ends.{NoNegativeSize, try_consume_chunked_body_ends}

Mem-take : (c n : ℕ) (s : Bytes) → Mem c (take n s) → Mem c s
Mem-take c zero s m = absurd (not-mem-nil m)
Mem-take c (suc n) [] m = m
Mem-take c (suc n) (x ∷ s) m =
    Or.elim Mem-prop (eq-or-mem_of_mem-cons m) (λ e. subst (λ y. Mem c (y ∷ s)) e mem-cons_self)
      (λ k. mem-cons_of_mem x (Mem-take c n s k))

Mem-drop : (c n : ℕ) (s : Bytes) → Mem c (drop n s) → Mem c s
Mem-drop c zero s m = m
Mem-drop c (suc n) [] m = m
Mem-drop c (suc n) (x ∷ s) m = mem-cons_of_mem x (Mem-drop c n s m)

Mem-lstrip : (c : ℕ) (s : Bytes) → Mem c (lstrip s) → Mem c s
unfolding lstrip
Mem-lstrip c [] m = m
Mem-lstrip c (x ∷ s) m = elim (Bool-cases (is_space x)) [
  | inl h ↦ mem-cons_of_mem x (Mem-lstrip c s (rw h at m))
  | inr h ↦ rw h at m
]

Mem-strip : (c : ℕ) (s : Bytes) → Mem c (strip s) → Mem c s
unfolding strip
Mem-strip c s m =
    Mem-lstrip c s (mem-reverse.0 (Mem-lstrip c (reverse (lstrip s)) (mem-reverse.0 m)))

Mem-partition :
    (a c : ℕ) (s : Bytes) (p : Bytes × Bytes) → partition c s ≡ some p → Mem a p.0 → Mem a s
unfolding partition
Mem-partition a c [] p h m = cc
Mem-partition a c (x ∷ s) p h m = elim (Bool-cases (x == c)) [
  | inl e ↦ absurd (not-mem-nil (subst (Mem a) (nothing (rw e at h)) m))
  | inr e ↦ behind (partition c s) (λ q. Mem-partition a c s q) (rw e at h)
]
  where
    nothing : some ([], s) ≡ some p → p.0 ≡ []
    nothing e = cc

    behind :
        (o : Option (Bytes × Bytes))
        → ((q : Bytes × Bytes) → o ≡ some q → Mem a q.0 → Mem a s)
        → Option.map (λ q. (x ∷ q.0, q.1)) o ≡ some p
        → Mem a (x ∷ s)
    behind none e g = cc
    behind (some q) e g =
        let same : p.0 ≡ x ∷ q.0 = cc in
        Or.elim Mem-prop (eq-or-mem_of_mem-cons (subst (Mem a) same m))
          (λ k. subst (λ y. Mem a (y ∷ s)) k mem-cons_self) (λ k. mem-cons_of_mem x (e q refl k))

Mem-first_part : (a c : ℕ) (s : Bytes) → Mem a (first_part (split_max 1 c s)) → Mem a s
unfolding split_max
Mem-first_part a c s m = elim (Option-cases (partition c s)) [
  | inl e ↦ rw (e, first_part) at m
  | inr (p, e) ↦ Mem-partition a c s p e (rw (e, first_part) at m)
]

Mem-slice : (c a b : ℕ) (s : Bytes) → Mem c (slice s (pos a) (pos b)) → Mem c s
Mem-slice c a b s m = Mem-drop c a s (Mem-take c (b - a) (drop a s) (rw (slice-pos s a b) at m))

pub no_minus-NoNegativeSize : (body : Bytes) → ¬ Mem b'-' body → NoNegativeSize body
unfolding chunk_size
no_minus-NoNegativeSize body none_there a b k h = none_there (
    Mem-slice b'-' a b body
      (Mem-first_part b'-' b';' _ (Mem-strip b'-' _ (Mem-strip b'-' _ (int-minus 16 _ k h)))))

absent : (c : ℕ) (s : Bytes) → contains ℕ_discrete c s ≡ false → ¬ Mem c s
unfolding contains
absent c [] h m = not-mem-nil m
absent c (x ∷ s) h m = elim (ℕ_discrete x c) [
  | yes e ↦ ground arith
  | no n ↦ Or.elim ⊥_prop (eq-or-mem_of_mem-cons m) (λ e. n (sym e)) (absent c s (ground arith))
]

-- Try_consume_chunked_body returns on every body that has no minus sign: its fuel of one more than
-- the length is enough.
pub try_consume_chunked_body_returns :
    (body : Bytes)
    → contains ℕ_discrete b'-' body ≡ false
    → try_consume_chunked_body body ≢ out_of_fuel
try_consume_chunked_body_returns body none_there =
    try_consume_chunked_body_ends body (no_minus-NoNegativeSize body (absent b'-' body none_there))
