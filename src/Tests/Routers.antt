-- ===== src/Tests/Routers.antt =====
-- Tests of router.py, after tests/test_router.py.
use mathlib.Core.Logic.{ite}
use l7_load_balancer.Prelude.{
  ℕ, ◌≡◌, ◌<◌, ◌≤◌, ◌+◌, ◌-◌, ◌%◌, ◌∙◌, refl, suc, true, false, some, none, [], ◌∷◌, arith, length,
  get_elem?,
}
use l7_load_balancer.Prelude.Dict.{contains, lookup, insert}
use l7_load_balancer.Prelude.Heap.{heappush, heappush_all}
use l7_load_balancer.Backend.{Backend, Backend-discrete, backend_leb}
use l7_load_balancer.Router.RoundRobin
use l7_load_balancer.Router.RoundRobin.{RoundRobinRouter}
use l7_load_balancer.Router.LeastConnections
use l7_load_balancer.Router.LeastConnections.{LeastConnectionsRouter, count_of, entry_leb}
use l7_load_balancer.Tests.{backend1, backend2, backend3, backends}

abbrev pool : RoundRobinRouter
pool = record { all_backends = backends; healthy = backends; index = 4 }

-- Four calls from index 4 go round.
round_robin_order :
    ((RoundRobin.next_backend (RoundRobin.Rotation.after 0 pool) []).0 ≡ some backend2)
    × ((RoundRobin.next_backend (RoundRobin.Rotation.after 1 pool) []).0 ≡ some backend3)
    × ((RoundRobin.next_backend (RoundRobin.Rotation.after 2 pool) []).0 ≡ some backend1)
unfolding RoundRobin.next_backend RoundRobin.pick RoundRobin.Rotation.after contains
round_robin_order = (refl, refl, refl)

rotation_example :
    (RoundRobin.next_backend (RoundRobin.Rotation.after 2 pool) []).0
    ≡ get_elem? pool.healthy ((pool.index + 2) % length pool.healthy)
rotation_example = RoundRobin.Rotation.rotation 2 pool (omega arith)

rotation-serves_example :
    (i : ℕ) × (i < length pool.healthy)
    × ((RoundRobin.next_backend (RoundRobin.Rotation.after i pool) []).0 ≡ some backend3)
rotation-serves_example =
    RoundRobin.Rotation.rotation-serves pool backend3 (unfold contains Backend-discrete in refl)

-- Least connections: the first three calls serve three backends, the fourth the freed one.
abbrev lc0 : LeastConnectionsRouter
lc0 = LeastConnections.init backends

abbrev lc3 : LeastConnectionsRouter
lc3 =
    (LeastConnections.next_backend
      (LeastConnections.next_backend (LeastConnections.next_backend lc0 []).1 []).1 []).1

least_connections_order :
    ((LeastConnections.next_backend lc0 []).0 ≡ some backend1)
    × ((LeastConnections.next_backend lc0 (backend1 ∷ [])).0 ≡ some backend2)
    × ((LeastConnections.next_backend (LeastConnections.on_disconnect lc3 backend2) []).0
        ≡ some backend2)
    × ((LeastConnections.next_backend lc0 backends).0 ≡ none)
unfolding LeastConnections.init LeastConnections.next_backend LeastConnections.on_disconnect
    count_of contains heappush heappush_all lookup insert entry_leb backend_leb Backend-discrete
least_connections_order = (refl, refl, refl, refl)

next_backend-least_example :
    LeastConnections.Selection.MayServe lc0 [] backend1
    × ((c : Backend)
        → LeastConnections.Selection.MayServe lc0 [] c
        → count_of lc0.counts backend1 ≤ count_of lc0.counts c)
next_backend-least_example =
    LeastConnections.Selection.next_backend-least lc0 []
      (LeastConnections.Start.init-IsValid backends) backend1 least_connections_order.0

next_backend-none_example : contains Backend-discrete backend2 backends ≡ true
next_backend-none_example =
    LeastConnections.Selection.next_backend-none lc0 backends
      (LeastConnections.Start.init-IsValid backends) least_connections_order.3 backend2
      (LeastConnections.Start.contains-init backends backend2
        ∙ unfold contains Backend-discrete in refl)

next_backend-IsValid_example :
    LeastConnections.Invariant.IsValid (LeastConnections.next_backend lc0 (backend1 ∷ [])).1
next_backend-IsValid_example =
    LeastConnections.Selection.next_backend-IsValid lc0 (backend1 ∷ [])
      (LeastConnections.Start.init-IsValid backends)

count_of-next_backend_example :
    count_of (LeastConnections.next_backend lc0 []).1.counts backend1
    ≡ ite
        (Backend-discrete backend1 backend1)
        (suc (count_of lc0.counts backend1))
        (count_of lc0.counts backend1)
count_of-next_backend_example =
    LeastConnections.Selection.count_of-next_backend lc0 []
      (LeastConnections.Start.init-IsValid backends) backend1 backend1 least_connections_order.0

count_of-on_disconnect_example :
    count_of (LeastConnections.on_disconnect lc3 backend2).counts backend1
    ≡ ite
        (Backend-discrete backend2 backend1)
        (count_of lc3.counts backend1 - 1)
        (count_of lc3.counts backend1)
count_of-on_disconnect_example =
    LeastConnections.Health.count_of-on_disconnect lc3 backend2 backend1

on_disconnect-IsValid_example :
    LeastConnections.Invariant.IsValid (LeastConnections.on_disconnect lc0 backend2)
on_disconnect-IsValid_example =
    LeastConnections.Health.on_disconnect-IsValid lc0 backend2
      (LeastConnections.Start.init-IsValid backends)

mark_healthy-IsValid_example :
    LeastConnections.Invariant.IsValid (LeastConnections.mark_healthy lc0 backend2)
mark_healthy-IsValid_example =
    LeastConnections.Health.mark_healthy-IsValid lc0 backend2
      (LeastConnections.Start.init-IsValid backends)

next_backend-all_skipped_example : contains Backend-discrete backend3 backends ≡ true
next_backend-all_skipped_example =
    RoundRobin.Selection.next_backend-all_skipped pool backends backend3
      (unfold RoundRobin.next_backend RoundRobin.pick contains Backend-discrete in refl)
      (unfold contains Backend-discrete in refl)

next_backend-some_example :
    (contains Backend-discrete backend2 backends ≡ true)
    × (contains Backend-discrete backend2 [] ≡ false)
next_backend-some_example =
    RoundRobin.Selection.next_backend-some pool [] backend2
      (unfold RoundRobin.Rotation.after in round_robin_order.0)
