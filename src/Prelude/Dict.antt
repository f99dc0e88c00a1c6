-- ===== src/Prelude/Dict.antt =====
-- Python's `dict` as an association list in insertion order, its `set` as a list, and `in`.
use mathlib.Core.Bool.{Bool, true, false, ◌||◌}
use mathlib.Core.List.{List, [], ◌∷◌, ◌++◌}
use mathlib.Core.Logic.{◌≢◌, ite}
use mathlib.Core.Option.{Option, none, some}
use mathlib.Core.Path.{◌≡◌, refl}
use native.Mathlib.Omega.{arith}

module _ {K : Type 0} (dec : Discrete K) where
  -- `k in xs`
  unfoldable pub contains : K → List K → Bool
  contains k [] = false
  contains k (x ∷ xs) = ite (dec x k) true (contains k xs)

  -- `xs.remove(k)` of a list that holds `k`, `xs.discard(k)` of a set: the first occurrence goes.
  unfoldable pub discard : K → List K → List K
  discard k [] = []
  discard k (x ∷ xs) = ite (dec x k) xs (x ∷ discard k xs)

  -- No key twice.
  abbrev pub Distinct : List K → Type 0
  Distinct [] = Unit
  Distinct (x ∷ xs) = (contains x xs ≡ false) × Distinct xs

  pub contains-append :
      (k : K) (xs ys : List K) → contains k (xs ++ ys) ≡ (contains k xs || contains k ys)
  unfolding contains
  contains-append k [] ys = refl
  contains-append k (x ∷ xs) ys = ground (arith, contains-append k xs ys)

  pub contains-discard_ne :
      (k j : K) (xs : List K) → j ≢ k → contains k (discard j xs) ≡ contains k xs
  unfolding contains discard
  contains-discard_ne k j [] h = refl
  contains-discard_ne k j (x ∷ xs) h = ground (arith, contains-discard_ne k j xs)

  pub contains-discard_self :
      (k : K) (xs : List K) → Distinct xs → contains k (discard k xs) ≡ false
  unfolding contains discard
  contains-discard_self k [] h = refl
  contains-discard_self k (x ∷ xs) h = ground (arith, contains-discard_self k xs)

  pub contains-discard_absent :
      (k j : K) (xs : List K) → contains k xs ≡ false → contains k (discard j xs) ≡ false
  unfolding contains discard
  contains-discard_absent k j [] h = refl
  contains-discard_absent k j (x ∷ xs) h = ground (arith, contains-discard_absent k j xs)

  pub discard-Distinct : (k : K) (xs : List K) → Distinct xs → Distinct (discard k xs)
  unfolding discard
  discard-Distinct k [] h = h
  discard-Distinct k (x ∷ xs) h =
      ground (arith, discard-Distinct k xs h.1, contains-discard_absent x k xs h.0)

  pub concat-Distinct :
      (k : K) (xs : List K) → Distinct xs → contains k xs ≡ false → Distinct (xs ++ k ∷ [])
  unfolding contains
  concat-Distinct k [] h n = ground arith
  concat-Distinct k (x ∷ xs) h n =
      ground (arith, concat-Distinct k xs h.1, contains-append x xs (k ∷ []))

module _ {K V : Type 0} (dec : Discrete K) where
  -- `d.get(k)`
  unfoldable pub lookup : K → List (K × V) → Option V
  lookup k [] = none
  lookup k ((j, v) ∷ d) = ite (dec j k) (some v) (lookup k d)

  -- `d[k] = v`: a key that is there keeps its place, a new one comes last.
  unfoldable pub insert : K → V → List (K × V) → List (K × V)
  insert k v [] = (k, v) ∷ []
  insert k v ((j, w) ∷ d) = ite (dec j k) ((j, v) ∷ d) ((j, w) ∷ insert k v d)

  pub lookup-insert :
      (k j : K) (v : V) (d : List (K × V))
      → lookup j (insert k v d) ≡ ite (dec k j) (some v) (lookup j d)
  unfolding lookup insert
  lookup-insert k j v [] = refl
  lookup-insert k j v ((i, w) ∷ d) = ground (arith, lookup-insert k j v d)

  -- `d.pop(k, None)`; a key stands once, and every entry under it goes.
  unfoldable pub remove : K → List (K × V) → List (K × V)
  remove k [] = []
  remove k ((j, w) ∷ d) = let rest = remove k d in ite (dec j k) rest ((j, w) ∷ rest)

  pub lookup-remove :
      (k j : K) (d : List (K × V)) → lookup j (remove k d) ≡ ite (dec k j) none (lookup j d)
  unfolding lookup remove
  lookup-remove k j [] = ground arith
  lookup-remove k j ((i, w) ∷ d) = ground (arith, lookup-remove k j d)
