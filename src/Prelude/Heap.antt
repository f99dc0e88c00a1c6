-- ===== src/Prelude/Heap.antt =====
-- `heapq`: a heap is only ever read through its least entry, so it is kept as a sorted list.
-- `leb` is the order of the entries (the tuple order in the source).
use Prim.Native.Nat.{ℕ, suc, ◌≤◌}
use mathlib.Core.Bool.{Bool, true, false}
use mathlib.Core.List.{List, [], ◌∷◌}
use mathlib.Core.Logic.{◌⊎◌, inl, inr}
use mathlib.Core.Path.{◌≡◌, refl}
use native.Mathlib.Omega.{arith}
use l7_load_balancer.Prelude.Lists.{length}
use l7_load_balancer.Prelude.Tests.{if◌then◌else◌, Bool-cases}

module _ {ℓ} {A : Type ℓ} (leb : A → A → Bool) where
  -- `heapq.heappush`; `heapq.heappop` takes the head.
  unfoldable pub heappush : A → List A → List A
  heappush e [] = e ∷ []
  heappush e (x ∷ h) = if leb x e then x ∷ heappush e h else e ∷ x ∷ h

  unfoldable pub heappush_all : List A → List A → List A
  unfolding heappush
  heappush_all [] h = h
  heappush_all (e ∷ es) h = heappush_all es (heappush e h)

module _ {A : Type 0} (P : A → Type 0) where
  abbrev pub All : List A → Type 0
  All [] = Unit
  All (x ∷ xs) = P x × All xs

  abbrev pub Any : List A → Type 0
  Any [] = ⊥
  Any (x ∷ xs) = P x ⊎ Any xs

module _ {A : Type 0} (key : A → ℕ) where
  -- The entries stand in the order of their keys.
  abbrev pub IsSorted : List A → Type 0
  IsSorted [] = Unit
  IsSorted (x ∷ xs) = All (λ y. key x ≤ key y) xs × IsSorted xs

module _ {A : Type 0} (leb : A → A → Bool) where
  pub length-heappush : (e : A) (h : List A) → length (heappush leb e h) ≡ suc (length h)
  unfolding heappush
  length-heappush e [] = refl
  length-heappush e (x ∷ h) = ground (arith, length-heappush e h)

  pub heappush-All :
      (P : A → Type 0) (e : A) (h : List A) → P e → All P h → All P (heappush leb e h)
  unfolding heappush
  heappush-All P e [] p q = (p, q)
  heappush-All P e (x ∷ h) p q = ground (arith, heappush-All P e h p q.1)

  pub heappush-Any_self : (P : A → Type 0) (e : A) (h : List A) → P e → Any P (heappush leb e h)
  unfolding heappush
  heappush-Any_self P e [] p = inl p
  heappush-Any_self P e (x ∷ h) p = ground (arith, heappush-Any_self P e h p)

  pub heappush-Any : (P : A → Type 0) (e : A) (h : List A) → Any P h → Any P (heappush leb e h)
  unfolding heappush
  heappush-Any P e [] q = inr q
  heappush-Any P e (x ∷ h) (inl q) = ground arith
  heappush-Any P e (x ∷ h) (inr q) = ground (arith, heappush-Any P e h q)

  pub heappush_all-Any :
      (P : A → Type 0) (es h : List A) → Any P es ⊎ Any P h → Any P (heappush_all leb es h)
  unfolding heappush_all
  heappush_all-Any P [] h (inl q) = absurd q
  heappush_all-Any P [] h (inr q) = q
  heappush_all-Any P (e ∷ es) h (inl (inl q)) =
      heappush_all-Any P es (heappush leb e h) (inr (heappush-Any_self P e h q))
  heappush_all-Any P (e ∷ es) h (inl (inr q)) = heappush_all-Any P es (heappush leb e h) (inl q)
  heappush_all-Any P (e ∷ es) h (inr q) =
      heappush_all-Any P es (heappush leb e h) (inr (heappush-Any P e h q))

module _ {A : Type 0} (leb : A → A → Bool) (key : A → ℕ)
    (leb-le : (a b : A) → leb a b ≡ true → key a ≤ key b)
    (leb-ge : (a b : A) → leb a b ≡ false → key b ≤ key a) where
  All-le_trans :
      (x e : A) (h : List A)
      → key e ≤ key x
      → All (λ y. key x ≤ key y) h
      → All (λ y. key e ≤ key y) h
  All-le_trans x e [] p q = q
  All-le_trans x e (y ∷ h) p q = (omega arith, All-le_trans x e h p q.1)

  pub heappush-IsSorted : (e : A) (h : List A) → IsSorted key h → IsSorted key (heappush leb e h)
  unfolding heappush
  heappush-IsSorted e [] s = (tt, tt)
  heappush-IsSorted e (x ∷ h) s = elim (Bool-cases (leb x e)) [
    | inl up ↦
        rw up
          (heappush-All leb (λ y. key x ≤ key y) e h (leb-le x e up) s.0, heappush-IsSorted e h s.1)
    | inr down ↦ rw down ((leb-ge x e down, All-le_trans x e h (leb-ge x e down) s.0), s)
  ]

  pub heappush_all-IsSorted :
      (es h : List A) → IsSorted key h → IsSorted key (heappush_all leb es h)
  unfolding heappush_all
  heappush_all-IsSorted [] h s = s
  heappush_all-IsSorted (e ∷ es) h s =
      heappush_all-IsSorted es (heappush leb e h) (heappush-IsSorted e h s)
