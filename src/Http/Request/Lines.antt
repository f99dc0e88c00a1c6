-- ===== src/Http/Request/Lines.antt =====
-- The lines of a request's head: where it ends, and how it is cut into lines and words.
use mathlib.Core.Option
use l7_load_balancer.Prelude.{
  ℕ, suc, ◌+◌, ◌≤◌, ◌≡◌, ◌≢◌, refl, sym, ap, ◌∙◌, List, [], ◌∷◌, ◌++◌, append_assoc, append-nil,
  Option, some, none, false, arith, length, length-append,
}
use l7_load_balancer.Prelude.Heap.{All}
use l7_load_balancer.Bytes.{Bytes, starts_with, find, partition, split_max, split_go}
use l7_load_balancer.Http.{line_delim, header_delim}

-- No character is `c`.
abbrev pub Lacks : ℕ → Bytes → Type 0
Lacks c s = All (λ d. d ≢ c) s

-- Lines behind the first one, each with the line break before it.
abbrev pub joined : List Bytes → Bytes
joined [] = []
joined (l ∷ ls) = b'\r' ∷ b'\n' ∷ (l ++ joined ls)

-- A line with no carriage return that is not empty.
abbrev pub IsLine : Bytes → Type 0
IsLine l = Lacks b'\r' l × (1 ≤ length l)

pub find_past :
    (s t : Bytes)
    → Lacks b'\r' s
    → find header_delim (s ++ t) ≡ Option.map (λ k. length s + k) (find header_delim t)
unfolding find starts_with
find_past [] t n = same (find header_delim t)
  where
    same : (o : Option ℕ) → o ≡ Option.map (λ k. 0 + k) o
    same none = refl
    same (some k) = ap some (omega arith)
find_past (c ∷ s) t n = rw (other, find_past s t n.1) (step (find header_delim t))
  where
    other : starts_with header_delim (c ∷ (s ++ t)) ≡ false
    other = ground (arith, n.0)

    step :
        (o : Option ℕ)
        → Option.map suc (Option.map (λ k. length s + k) o) ≡ Option.map (λ k. suc (length s) + k) o
    step none = refl
    step (some k) = ap some (omega arith)

-- The blank line is found behind the lines.
pub find-joined :
    (ls : List Bytes) (body : Bytes)
    → All IsLine ls
    → find header_delim (joined ls ++ (header_delim ++ body)) ≡ some (length (joined ls))
unfolding find starts_with
find-joined [] body a = refl
find-joined ([] ∷ ls) body a = absurd (omega (arith, a.0.1))
find-joined ((x ∷ l) ∷ ls) body a =
    rw
      (
        append_assoc l (joined ls) (header_delim ++ body),
        other,
        find_past (x ∷ l) (joined ls ++ (header_delim ++ body)) a.0.0,
        find-joined ls body a.1,
      )
      (ap some (omega (arith, length-append l (joined ls))))
  where
    other :
        starts_with (b'\r' ∷ b'\n' ∷ []) (x ∷ (l ++ (joined ls ++ (header_delim ++ body)))) ≡ false
    other = ground (arith, a.0.0.0)

pub split-joined :
    (piece l : Bytes) (ls : List Bytes)
    → Lacks b'\r' l
    → All IsLine ls
    → split_go line_delim 0 piece (l ++ joined ls) ≡ (piece ++ l) ∷ ls
unfolding split_go starts_with
split-joined piece [] [] n a = ap (λ s. s ∷ []) (sym (append-nil piece))
split-joined piece [] (l ∷ ls) n a = rw (split-joined [] l ls a.0.0 a.1, append-nil piece)
split-joined piece (c ∷ l) ls n a =
    rw (other, split-joined (piece ++ c ∷ []) l ls n.1 a)
      (ap (λ s. s ∷ ls) (append_assoc piece (c ∷ []) l))
  where
    other : starts_with line_delim (c ∷ (l ++ joined ls)) ≡ false
    other = ground (arith, n.0)

pub partition-first : (c : ℕ) (s t : Bytes) → Lacks c s → partition c (s ++ c ∷ t) ≡ some (s, t)
unfolding partition
partition-first c [] t n = ground arith
partition-first c (x ∷ s) t n = rw (partition-first c s t n.1) (ground (arith, n.0))

pub split_max-first :
    (n c : ℕ) (s t : Bytes) → Lacks c s → split_max (suc n) c (s ++ c ∷ t) ≡ s ∷ split_max n c t
unfolding split_max
split_max-first n c s t l = rw (split_max, partition-first c s t l)

pub split-request_line :
    (method path version : Bytes)
    → Lacks b' ' method
    → Lacks b' ' path
    → split_max 2 b' ' (method ++ b' ' ∷ (path ++ b' ' ∷ version)) ≡ method ∷ path ∷ version ∷ []
split-request_line method path version m p =
    split_max-first 1 b' ' method (path ++ b' ' ∷ version) m
    ∙ ap (◌∷◌ method) (split_max-first 0 b' ' path version p)
    ∙ unfold split_max in refl
