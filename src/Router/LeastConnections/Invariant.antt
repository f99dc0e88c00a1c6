-- ===== src/Router/LeastConnections/Invariant.antt =====
-- Lazy deletion: the heap is sorted by count, and each healthy backend has a live entry.
use mathlib.Core.Logic.{ite}
use l7_load_balancer.Prelude.{ℕ, ◌+◌, ◌≤◌, List, ◌≡◌, ◌≢◌, sym, ap, ◌∙◌, true, false, arith}
use l7_load_balancer.Prelude.Dict.{contains, Distinct, insert, lookup-insert}
use l7_load_balancer.Prelude.Heap.{
  Any, IsSorted, heappush-Any, heappush-Any_self, heappush-IsSorted,
}
use l7_load_balancer.Backend.{Backend, Backend-discrete}
use l7_load_balancer.Router.LeastConnections.{
  Entry, entry_leb, LeastConnectionsRouter, count_of, push,
}

-- The entry stands for backend `b` under count `n`.
abbrev pub IsFor : Backend → ℕ → Entry → Type 0
IsFor b n e = (e.backend ≡ b) × (e.count ≡ n)

-- A live entry: its count is the current one.
abbrev pub HasLive : List (Backend × ℕ) → Backend → List Entry → Type 0
HasLive counts b heap = Any (IsFor b (count_of counts b)) heap

pub record IsValid (r : LeastConnectionsRouter) : Type 0 where
  pub distinct : Distinct Backend-discrete r.healthy_set
  pub sorted : IsSorted (λ e. e.count) r.heap
  pub live :
      (b : Backend) → contains Backend-discrete b r.healthy_set ≡ true → HasLive r.counts b r.heap

pub entry_leb-le : (a b : Entry) → entry_leb a b ≡ true → a.count ≤ b.count
unfolding entry_leb
entry_leb-le a b h = ground arith

pub entry_leb-ge : (a b : Entry) → entry_leb a b ≡ false → b.count ≤ a.count
unfolding entry_leb
entry_leb-ge a b h = ground arith

pub count_of-insert :
    (b c : Backend) (n : ℕ) (counts : List (Backend × ℕ))
    → count_of (insert Backend-discrete b n counts) c
      ≡ ite (Backend-discrete b c) n (count_of counts c)
unfolding count_of
count_of-insert b c n counts = ground (arith, lookup-insert Backend-discrete b c n counts)

-- A push of `b` under its count keeps the heap in order.
pub push-IsSorted :
    (r : LeastConnectionsRouter) (n : ℕ) (b : Backend)
    → IsSorted (λ e. e.count) r.heap
    → IsSorted (λ e. e.count) (push r n b).heap
unfolding push
push-IsSorted r n b =
    heappush-IsSorted entry_leb (λ e. e.count) entry_leb-le entry_leb-ge
      (record { count = n; tiebreak = r.tiebreak + 1; backend = b }) r.heap

-- It gives `b` a live entry if `n` is its count, and other backends keep theirs.
pub push-HasLive :
    (r : LeastConnectionsRouter) (n : ℕ) (b c : Backend)
    → count_of r.counts b ≡ n
    → (b ≢ c → HasLive r.counts c r.heap)
    → HasLive r.counts c (push r n b).heap
unfolding push
push-HasLive r n b c e h = elim (Backend-discrete b c) [
  | yes p ↦
      heappush-Any_self entry_leb (IsFor c (count_of r.counts c)) _ r.heap
        (p, sym e ∙ ap (count_of r.counts) p)
  | no ne ↦ heappush-Any entry_leb (IsFor c (count_of r.counts c)) _ r.heap (h ne)
]

pub count_of-insert_self :
    (b : Backend) (n : ℕ) (counts : List (Backend × ℕ))
    → count_of (insert Backend-discrete b n counts) b ≡ n
count_of-insert_self b n counts = ground (arith, count_of-insert b b n counts)

pub count_of-insert_ne :
    (b c : Backend) (n : ℕ) (counts : List (Backend × ℕ))
    → b ≢ c
    → count_of (insert Backend-discrete b n counts) c ≡ count_of counts c
count_of-insert_ne b c n counts h = ground (arith, count_of-insert b c n counts)
