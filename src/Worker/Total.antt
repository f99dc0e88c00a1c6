-- ===== src/Worker/Total.antt =====
-- What all connections hold of a backend together.
use native.Mathlib.Decide.{ℕ_discrete}
use mathlib.Core.Logic.{if_pos, if_neg}
use l7_load_balancer.Prelude.{ℕ, ◌+◌, ◌≤◌, ◌≡◌, refl, subst, List, [], ◌∷◌, none, some, arith}
use l7_load_balancer.Prelude.Dict.{lookup, insert}
use l7_load_balancer.Prelude.Heap.{All}
use l7_load_balancer.Backend.{Backend}
use l7_load_balancer.Connection.{ProxyConnection}
use l7_load_balancer.Connection.Events.Ledger.{holds}
use l7_load_balancer.Reactor.{Ref}

module _ {A : Type 0} (w : A → ℕ) where
  -- The sum of the weights of what a table holds.
  unfoldable pub total : List (Ref × A) → ℕ
  total [] = 0
  total ((ref, a) ∷ os) = w a + total os

  pub total-insert_new :
      (ref : Ref) (a : A) (os : List (Ref × A))
      → lookup ℕ_discrete ref os ≡ none
      → total (insert ℕ_discrete ref a os) ≡ total os + w a
  unfolding total insert lookup
  total-insert_new ref a [] e = omega arith
  total-insert_new ref a ((j, d) ∷ os) e = ground (arith, total-insert_new ref a os)

  pub total-insert :
      (ref : Ref) (a old : A) (os : List (Ref × A))
      → lookup ℕ_discrete ref os ≡ some old
      → total (insert ℕ_discrete ref a os) + w old ≡ total os + w a
  unfolding total insert lookup
  total-insert ref a old [] e = cc
  total-insert ref a old ((j, d) ∷ os) e = ground (arith, total-insert ref a old os)

  pub weight-le_total :
      (ref : Ref) (a : A) (os : List (Ref × A)) → lookup ℕ_discrete ref os ≡ some a → w a ≤ total os
  unfolding total lookup
  weight-le_total ref a [] e = cc
  weight-le_total ref a ((j, d) ∷ os) e = ground (arith, weight-le_total ref a os)

module _ {A : Type 0} (P : A → Type 0) where
  -- Everything in the table has the property.
  abbrev pub Each : List (Ref × A) → Type 0
  Each os = All (λ e. P e.1) os

  pub lookup-Each :
      (ref : Ref) (a : A) (os : List (Ref × A)) → Each os → lookup ℕ_discrete ref os ≡ some a → P a
  unfolding lookup
  lookup-Each ref a [] each e = cc
  lookup-Each ref a ((j, d) ∷ os) each e = elim (ℕ_discrete j ref) [
    | yes q ↦ subst P (some_inj (rw (if_pos (ℕ_discrete j ref) q) at e)) each.0
    | no n ↦ lookup-Each ref a os each.1 (rw (if_neg (ℕ_discrete j ref) n) at e)
  ]
    where
      some_inj : {x y : A} → some x ≡ some y → x ≡ y
      some_inj h = cc

  pub insert-Each :
      (ref : Ref) (a : A) (os : List (Ref × A)) → P a → Each os → Each (insert ℕ_discrete ref a os)
  unfolding insert
  insert-Each ref a [] p each = (p, tt)
  insert-Each ref a ((j, d) ∷ os) p each = elim (ℕ_discrete j ref) [
    | yes q ↦ rw (if_pos (ℕ_discrete j ref) q) (p, each.1)
    | no n ↦ rw (if_neg (ℕ_discrete j ref) n) (each.0, insert-Each ref a os p each.1)
  ]

-- Two weights that agree on everything in a table have one sum.
pub total-agrees :
    {A : Type 0} (v w : A → ℕ) (os : List (Ref × A))
    → Each (λ a. v a ≡ w a) os
    → total v os ≡ total w os
unfolding total
total-agrees v w [] each = refl
total-agrees v w ((ref, a) ∷ os) each = omega (arith, each.0, total-agrees v w os each.1)

-- What a connection holds of a backend.
abbrev pub held : Backend → ProxyConnection → ℕ
held b c = holds b c.backend_addr c.disconnect_notified
