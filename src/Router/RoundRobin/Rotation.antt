-- ===== src/Router/RoundRobin/Rotation.antt =====
-- The order in which `RoundRobinRouter.next_backend` serves the pool.
use native.Mathlib.Nat.{add-zero}
use l7_load_balancer.Prelude.{
  ℕ, zero, suc, ◌+◌, ◌%◌, ◌<◌, List, [], ◌∷◌, some, ◌≡◌, refl, ◌∙◌, arith, length, get_elem?,
}
use l7_load_balancer.Prelude.Dict.{contains}
use l7_load_balancer.Backend.{Backend}
use l7_load_balancer.Router.RoundRobin.{RoundRobinRouter, pick, next_backend}
use l7_load_balancer.Router.RoundRobin.Selection.{In, In-get_elem?, get_elem?_mod, pick_take, turn}

-- The router after `i` calls of `next_backend()`.
unfoldable pub after : ℕ → RoundRobinRouter → RoundRobinRouter
after zero r = r
after (suc i) r = after i (next_backend r []).1

-- With nothing excluded the first round of the loop serves.
pick_first :
    (healthy : List Backend) (i : ℕ)
    → 0 < length healthy
    → pick (length healthy) healthy [] i ≡ (get_elem? healthy (i % length healthy), i + 1)
pick_first [] i h = absurd (omega arith)
pick_first (x ∷ xs) i h =
    let (b, at) = get_elem?_mod (x ∷ xs) i h in
    rw (pick_take (length xs) (x ∷ xs) [] i b at (unfold contains in refl)) (rw at)

-- So a call moves the index on by one.
next_backend_head :
    (r : RoundRobinRouter)
    → 0 < length r.healthy
    → next_backend r []
      ≡ (get_elem? r.healthy (r.index % length r.healthy), record r { index = r.index + 1 })
unfolding next_backend
next_backend_head r h = rw (pick_first r.healthy r.index h)

-- With nothing excluded and a pool that is not empty, the call after i calls of a round-robin
-- router serves the backend at position (index + i) modulo the size of the pool.
pub rotation :
    (i : ℕ) (r : RoundRobinRouter)
    → 0 < length r.healthy
    → (next_backend (after i r) []).0 ≡ get_elem? r.healthy ((r.index + i) % length r.healthy)
unfolding after
rotation zero r h = rw (add-zero, next_backend_head r h)
rotation (suc i) r h =
    rw (next_backend_head r h)
      (rotation i (record r { index = r.index + 1 }) h ∙ rw (shift r.index i))
  where
    shift : (k n : ℕ) → k + 1 + n ≡ k + suc n
    shift k n = omega arith

-- With nothing excluded, every healthy backend of a round-robin router is served within as many
-- calls as there are healthy backends.
pub rotation-serves :
    (r : RoundRobinRouter) (b : Backend)
    → In b r.healthy
    → (i : ℕ) × (i < length r.healthy) × ((next_backend (after i r) []).0 ≡ some b)
rotation-serves r b m =
    let (j, lt, at) = In-get_elem? r.healthy b m in
    let (d, less, same) = turn (length r.healthy) r.index j lt in
    (d, less, rotation d r (omega arith) ∙ rw (same, at))
