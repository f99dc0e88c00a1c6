-- ===== src/Tests/Worker.antt =====
-- A worker over the least-connections router, with one client and a probe that fails meanwhile.
use l7_load_balancer.Prelude.{ℕ, ◌≤◌, ◌≡◌, refl, List, [], ◌∷◌, some, true, false, ◌+◌}
use l7_load_balancer.Bytes.{codes}
use l7_load_balancer.Router.{create_router}
use l7_load_balancer.Router.Instances.{least_connections_routing, least_connections_accounts}
use l7_load_balancer.Router.LeastConnections
use l7_load_balancer.Connection.{World, raises, received, sent}
use l7_load_balancer.HealthChecker.{os_error, probe, check}
use l7_load_balancer.Reactor.{deadline_leb, Ref, Reactor, client}
use l7_load_balancer.Reactor.Deadlines.{
  schedule_deadline, select_timeout, expire_timeouts, expire_from, expire_entry, expire_current,
  current,
}
use l7_load_balancer.Reactor.Dispatch.{
  State-discrete, Answers, fire, dispatch, transition, enter, flush_pending_unregister,
}
use l7_load_balancer.Reactor.Loop.{
  accepts, ready, start, serve, accept_all, accept_one, dispatch_object,
}
use l7_load_balancer.Worker.{
  Step, waited, served, expired, probed, step, steps, over_least_connections, launch_over, listen,
  begin_worker,
}
use l7_load_balancer.Worker.Total.{total}
use l7_load_balancer.Worker.Counts.{busy, load-steps}
use l7_load_balancer.Worker.LeastConnections.{load-begin_worker}
use l7_load_balancer.Worker.Total.{held}
use l7_load_balancer.Tests.Connections.{
  has, last_of, some-last_of, world, request, router, as_router,
}
use l7_load_balancer.Tests.Play.{play}
use l7_load_balancer.Tests.{backend1, backends}

id_of : Ref → ℕ
id_of ref = ref

abbrev begun : Reactor least_connections_routing.Router
begun = start least_connections_routing id_of (as_router router) world

begins : begin_worker id_of true 2 "least_connections" backends world ≡ over_least_connections begun
unfolding begin_worker launch_over listen create_router as_router least_connections_routing
begins = refl

abbrev pub answers : Answers
answers = record {
  client_recv = received request;
  client_send = sent 0;
  backend_recv = received [];
  so_error = 0;
  backend_send = sent 100;
}

-- Between the client's request and the first byte to the backend, the backend's probe fails.
abbrev day : List Step
day =
    waited
    ∷ served (accepts ((7, codes "10.0.0.1", 5000) ∷ []))
    ∷ served (ready 0 (client 7) (record { readable = true; writable = false }) answers)
    ∷ probed backend1 os_error
    ∷ expired
    ∷ []

abbrev evening : Reactor least_connections_routing.Router
evening = last_of begun (steps least_connections_routing id_of day begun)

day_returns : has (steps least_connections_routing id_of day begun) ≡ true
unfolding play as_router steps step serve accept_all accept_one dispatch_object dispatch fire
    schedule_deadline select_timeout start
day_returns = refl

day_ends : steps least_connections_routing id_of day begun ≡ some evening
day_ends = some-last_of begun (steps least_connections_routing id_of day begun) day_returns

evening_count : least_connections_accounts.load evening.router backend1 ≡ 1
unfolding play as_router steps step serve accept_all accept_one dispatch_object dispatch fire
    schedule_deadline select_timeout start least_connections_accounts expire_timeouts expire_from
    expire_entry expire_current current check probe transition enter flush_pending_unregister
    State-discrete deadline_leb
evening_count = refl

load-begin_worker_example :
    (least_connections_accounts.load evening.router backend1
      ≡ total (held backend1) evening.objects)
    × (total (busy backend1) evening.objects
        ≤ least_connections_accounts.load evening.router backend1)
load-begin_worker_example =
    load-begin_worker id_of true 2 "least_connections" backends world begun evening day begins
      day_ends backend1

load-steps_example :
    least_connections_accounts.load evening.router backend1
    ≡ least_connections_accounts.load (as_router router) backend1
      + total (held backend1) evening.objects
load-steps_example =
    load-steps least_connections_routing least_connections_accounts id_of backend1
      (as_router router) world
      (unfold as_router least_connections_routing in LeastConnections.Start.init-IsValid backends)
      day evening day_ends

-- `connect_ex` raises: the connection is done, and the count of its backend stays.
abbrev strange : World
strange = record world { connect_ex = λ n b. raises }

abbrev lost : Reactor least_connections_routing.Router
lost = start least_connections_routing id_of (as_router router) strange

abbrev lost_evening : Reactor least_connections_routing.Router
lost_evening = last_of lost (steps least_connections_routing id_of day lost)

lost_count :
    (least_connections_accounts.load lost_evening.router backend1 ≡ 1)
    × (total (busy backend1) lost_evening.objects ≡ 0)
    × (lost_evening.world.raised ≡ false)
unfolding play as_router steps step serve accept_all accept_one dispatch_object dispatch fire
    schedule_deadline select_timeout start least_connections_accounts total expire_timeouts
    expire_from expire_entry expire_current current check probe transition enter
    flush_pending_unregister State-discrete deadline_leb
lost_count = (refl, refl, refl)
