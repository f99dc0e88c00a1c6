-- ===== src/Router/RoundRobin.antt =====
-- `RoundRobinRouter` of router.py. Each method runs under the lock, so it is one step.
pub mod Selection
pub mod Rotation
pub mod Health
use l7_load_balancer.Prelude.{
  ℕ, zero, suc, ◌+◌, ◌%◌, List, [], ◌∷◌, ◌++◌, Option, none, some, Bool, true, false, length,
  get_elem?, if◌then◌else◌,
}
use l7_load_balancer.Prelude.Dict.{contains, discard}
use l7_load_balancer.Backend.{Backend, Backend-discrete}

pub record RoundRobinRouter : Type 0 where
  pub all_backends : List Backend
  pub healthy : List Backend
  pub index : ℕ

-- `__init__`
unfoldable pub init : List Backend → RoundRobinRouter
init backends = record { all_backends = backends; healthy = backends; index = 0 }

-- The body of the loop: what the subscript gave, and the rest of the loop, which starts one
-- further on. The subscript never fails (`get_elem?_mod`), so `none` never ends the loop early.
abbrev pub visit : List Backend → ℕ → Option Backend → Option Backend × ℕ → Option Backend × ℕ
visit skip index none rest = (none, index)
visit skip index (some backend) rest =
    if contains Backend-discrete backend skip then rest else (some backend, index + 1)

-- `for _ in range(k)`, over the healthy pool of length `n`.
unfoldable pub pick : ℕ → List Backend → List Backend → ℕ → Option Backend × ℕ
pick zero healthy skip index = (none, index)
pick (suc k) healthy skip index =
    let rest = pick k healthy skip (index + 1) in
    visit skip index (get_elem? healthy (index % length healthy)) rest

-- An absent `exclude` is the empty set. On an empty pool the loop has no round.
unfoldable pub next_backend : RoundRobinRouter → List Backend → Option Backend × RoundRobinRouter
unfolding pick
next_backend r skip =
    let picked = pick (length r.healthy) r.healthy skip r.index in
    (picked.0, record r { index = picked.1 })

unfoldable pub mark_unhealthy : RoundRobinRouter → Backend → RoundRobinRouter
mark_unhealthy r backend =
    if contains Backend-discrete backend r.healthy
    then record r { healthy = discard Backend-discrete backend r.healthy }
    else r

unfoldable pub mark_healthy : RoundRobinRouter → Backend → RoundRobinRouter
mark_healthy r backend =
    if contains Backend-discrete backend r.healthy
    then r
    else record r { healthy = r.healthy ++ backend ∷ [] }

unfoldable pub get_all_backends : RoundRobinRouter → List Backend
get_all_backends r = r.all_backends

unfoldable pub get_healthy_backends : RoundRobinRouter → List Backend
get_healthy_backends r = r.healthy

-- A no-op in this router.
unfoldable pub on_disconnect : RoundRobinRouter → Backend → RoundRobinRouter
on_disconnect r backend = r
