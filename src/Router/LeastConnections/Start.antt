-- ===== src/Router/LeastConnections/Start.antt =====
-- `LeastConnectionsRouter.__init__`.
use mathlib.Core.Logic.{ite}
use l7_load_balancer.Prelude.{
  ℕ, List, [], ◌∷◌, ◌≡◌, refl, sym, ◌∙◌, true, arith, ◌||◌, inl, inr, ◌⊎◌,
}
use l7_load_balancer.Prelude.Dict.{
  contains, insert, lookup, Distinct, contains-append, concat-Distinct,
}
use l7_load_balancer.Prelude.Heap.{Any, IsSorted, heappush-Any, heappush-Any_self}
use l7_load_balancer.Backend.{Backend, Backend-discrete}
use l7_load_balancer.Router.LeastConnections.{
  entry_leb, LeastConnectionsRouter, count_of, push, zero_counts, add, set_of, push_each, init,
}
use l7_load_balancer.Router.LeastConnections.Invariant.{
  IsFor, IsValid, count_of-insert, push-IsSorted,
}

count_of-zero_counts :
    (bs : List Backend) (counts : List (Backend × ℕ))
    → ((b : Backend) → count_of counts b ≡ 0)
    → (b : Backend) → count_of (zero_counts bs counts) b ≡ 0
unfolding zero_counts
count_of-zero_counts [] counts h b = h b
count_of-zero_counts (c ∷ bs) counts h b =
    count_of-zero_counts bs (insert Backend-discrete c 0 counts)
      (λ d. ground (arith, count_of-insert c d 0 counts, h d)) b

contains-add :
    (b c : Backend) (acc : List Backend)
    → contains Backend-discrete c (add b acc)
      ≡ ite (Backend-discrete b c) true (contains Backend-discrete c acc)
unfolding add contains
contains-add b c acc = ground (arith, contains-append Backend-discrete c acc (b ∷ []))

contains-set_of :
    (bs acc : List Backend) (c : Backend)
    → contains Backend-discrete c (set_of bs acc)
      ≡ (contains Backend-discrete c bs || contains Backend-discrete c acc)
unfolding set_of contains
contains-set_of [] acc c = refl
contains-set_of (b ∷ bs) acc c =
    contains-set_of bs (add b acc) c ∙ ground (arith, contains-add b c acc)

set_of-Distinct :
    (bs acc : List Backend)
    → Distinct Backend-discrete acc
    → Distinct Backend-discrete (set_of bs acc)
unfolding set_of add
set_of-Distinct [] acc d = d
set_of-Distinct (b ∷ bs) acc d =
    set_of-Distinct bs (add b acc) (ground (arith, concat-Distinct Backend-discrete b acc d))

-- The pushes of `__init__` keep the order of the heap, and give each backend an entry.
push_each-IsSorted :
    (bs : List Backend) (r : LeastConnectionsRouter)
    → IsSorted (λ e. e.count) r.heap
    → IsSorted (λ e. e.count) (push_each bs r).heap
unfolding push_each
push_each-IsSorted [] r s = s
push_each-IsSorted (b ∷ bs) r s = push_each-IsSorted bs (push r 0 b) (push-IsSorted r 0 b s)

push_each-Any :
    (bs : List Backend) (r : LeastConnectionsRouter) (c : Backend)
    → Any (IsFor c 0) r.heap ⊎ (contains Backend-discrete c bs ≡ true)
    → Any (IsFor c 0) (push_each bs r).heap
unfolding push_each push contains
push_each-Any [] r c (inl q) = q
push_each-Any [] r c (inr q) = cc
push_each-Any (b ∷ bs) r c (inl q) =
    push_each-Any bs (push r 0 b) c (inl (heappush-Any entry_leb (IsFor c 0) _ r.heap q))
push_each-Any (b ∷ bs) r c (inr q) = elim (Backend-discrete b c) [
  | yes e ↦
      push_each-Any bs (push r 0 b) c
        (inl (heappush-Any_self entry_leb (IsFor c 0) _ r.heap (e, refl)))
  | no ne ↦ push_each-Any bs (push r 0 b) c (inr (ground arith))
]

push_each_same :
    (bs : List Backend) (r : LeastConnectionsRouter)
    → ((push_each bs r).counts ≡ r.counts) × ((push_each bs r).healthy_set ≡ r.healthy_set)
unfolding push_each push
push_each_same [] r = (refl, refl)
push_each_same (b ∷ bs) r = push_each_same bs (push r 0 b)

module _ (backends : List Backend) where
  abbrev start : LeastConnectionsRouter
  start = record {
    all_backends = backends;
    counts = zero_counts backends [];
    tiebreak = 0;
    heap = [];
    healthy_set = set_of backends [];
  }

  -- A new router has no connections, and its pool is the set of its backends.
  pub count_of-init : (b : Backend) → count_of (init backends).counts b ≡ 0
  unfolding init
  count_of-init b =
      rw (push_each_same backends start).0
        (count_of-zero_counts backends [] (λ c. unfold count_of lookup in refl) b)

  pub contains-init :
      (b : Backend)
      → contains Backend-discrete b (init backends).healthy_set
        ≡ contains Backend-discrete b backends
  unfolding init
  contains-init b =
      rw (push_each_same backends start).1
        (contains-set_of backends [] b ∙ unfold contains in ground arith)

  -- A new least-connections router is valid, also where a backend is given twice.
  pub init-IsValid : IsValid (init backends)
  unfolding init
  init-IsValid = record {
    distinct = rw (push_each_same backends start).1 (set_of-Distinct backends [] tt);
    sorted = push_each-IsSorted backends start tt;
    live = λ b m.
        rw (count_of-init b) (push_each-Any backends start b (inr (sym (contains-init b) ∙ m)));
  }
