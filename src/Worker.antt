-- ===== src/Worker.antt =====
-- main.py: what `_run_worker` puts together. The loop of the reactor and the thread of the health
-- checker share one router, and their steps come in any order.
pub mod Total
pub mod Dispatches
pub mod Balance
pub mod Steps
pub mod Counts
pub mod LeastConnections
use Prim.Native.String.{String}
use l7_load_balancer.Prelude.{
  ℕ, Bool, if◌then◌else◌, not, ltb, ◌&&◌, List, [], ◌∷◌, ◌++◌, map, Option, some, and_then,
}
use l7_load_balancer.Backend.{Backend}
use l7_load_balancer.Router.{Created, round_robin, least_connections, create_router}
use l7_load_balancer.Router.Routing.{Routing}
use l7_load_balancer.Router.Instances.{round_robin_routing, least_connections_routing}
use l7_load_balancer.Connection.{World}
use l7_load_balancer.HealthChecker.{Answer, check}
use l7_load_balancer.Reactor.{Ref, Reactor}
use l7_load_balancer.Reactor.Deadlines.{select_timeout, expire_timeouts}
use l7_load_balancer.Reactor.Loop.{Ready, start, serve, reap}

-- A part of a round of `_loop`, or one backend of a sweep of the health checker.
pub data Step : Type 0 where
  waited expired reaped : Step
  served : Ready → Step
  probed : Backend → Answer → Step

module _ (routing : Routing) (id_of : Ref → ℕ) where
  open routing use {Router}

  unfoldable pub step : Step → Reactor Router → Option (Reactor Router)
  step waited st = some (select_timeout st).1
  step (served e) st = serve routing id_of e st
  step expired st = some (expire_timeouts routing st)
  step reaped st = some (reap routing id_of st)
  step (probed b a) st = some (record st { router = check routing b a st.router })

  unfoldable pub steps : List Step → Reactor Router → Option (Reactor Router)
  unfolding step
  steps [] st = some st
  steps (x ∷ xs) st = and_then (step x st) (steps xs)

-- What `_run_worker` comes to before its loop: an uncaught error, or a reactor over one of the
-- routers.
pub data Began : Type 0 where
  value_error runtime_error : Began
  over_round_robin : Reactor round_robin_routing.Router → Began
  over_least_connections : Reactor least_connections_routing.Router → Began

-- The test of `start` for `SO_REUSEPORT`, which several workers need.
unfoldable pub listen : Bool → ℕ → Began → Began
listen has_reuseport workers value_error = value_error
listen has_reuseport workers began =
    if not has_reuseport && ltb 1 workers then runtime_error else began

module _ (id_of : Ref → ℕ) where
  unfoldable pub launch_over : Created → World → Began
  unfolding round_robin_routing least_connections_routing
  launch_over (round_robin r) world = over_round_robin (start round_robin_routing id_of r world)
  launch_over (least_connections r) world =
      over_least_connections (start least_connections_routing id_of r world)
  launch_over (Created.value_error algorithm) world = value_error

  unfoldable pub begin_worker : Bool → ℕ → String → List Backend → World → Began
  unfolding launch_over listen
  begin_worker has_reuseport workers algorithm backends world =
      listen has_reuseport workers (launch_over (create_router algorithm backends) world)
