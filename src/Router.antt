-- ===== src/Router.antt =====
-- router.py: the two routers, the interface that they share, and the factory.
pub mod RoundRobin
pub mod LeastConnections
pub mod Routing
pub mod Instances
use text.Mathlib.Text.{◌==◌}
use Prim.Native.String.{String}
use l7_load_balancer.Prelude.{List, if◌then◌else◌}
use l7_load_balancer.Backend.{Backend}
use l7_load_balancer.Router.RoundRobin.{RoundRobinRouter}
use l7_load_balancer.Router.LeastConnections.{LeastConnectionsRouter}

-- What `create_router` returns or raises.
pub data Created : Type 0 where
  round_robin : RoundRobinRouter → Created
  least_connections : LeastConnectionsRouter → Created
  value_error : String → Created

unfoldable pub create_router : String → List Backend → Created
create_router algorithm backends =
    if algorithm == "round_robin"
    then round_robin (RoundRobin.init backends)
    else if algorithm == "least_connections"
    then least_connections (LeastConnections.init backends)
    else value_error algorithm
