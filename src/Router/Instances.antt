-- ===== src/Router/Instances.antt =====
-- Both routers implement `Routing`, and the least-connections router keeps accounts.
use l7_load_balancer.Prelude.{refl, ap}
use l7_load_balancer.Router.Routing.{Routing, Accounts}
use l7_load_balancer.Router.RoundRobin
use l7_load_balancer.Router.RoundRobin.{RoundRobinRouter}
use l7_load_balancer.Router.LeastConnections
use l7_load_balancer.Router.LeastConnections.{LeastConnectionsRouter}

unfoldable pub round_robin_routing : Routing
unfolding RoundRobin.get_all_backends RoundRobin.get_healthy_backends RoundRobin.on_disconnect
round_robin_routing = record {
  Router = RoundRobinRouter;
  next_backend = RoundRobin.next_backend;
  on_disconnect = RoundRobin.on_disconnect;
  mark_healthy = RoundRobin.mark_healthy;
  mark_unhealthy = RoundRobin.mark_unhealthy;
  get_all_backends = RoundRobin.get_all_backends;
  get_healthy_backends = RoundRobin.get_healthy_backends;
  IsValid = RoundRobin.Health.IsValid;
  served = λ r skip b v. RoundRobin.Selection.next_backend-some r skip b;
  excluded = λ r skip b h. (RoundRobin.Selection.next_backend-some r skip b h).1;
  refused = λ r skip b v. RoundRobin.Selection.next_backend-all_skipped r skip b;
  pool_next = RoundRobin.Selection.healthy-next_backend;
  pool_disconnect = λ r b. refl;
  pool_healthy = RoundRobin.Health.contains-mark_healthy;
  pool_unhealthy = RoundRobin.Health.contains-mark_unhealthy;
  all_healthy = RoundRobin.Health.all_backends-mark_healthy;
  all_unhealthy = RoundRobin.Health.all_backends-mark_unhealthy;
  valid_next = RoundRobin.Health.next_backend-IsValid;
  valid_disconnect = λ r b v. v;
  valid_healthy = RoundRobin.Health.mark_healthy-IsValid;
  valid_unhealthy = RoundRobin.Health.mark_unhealthy-IsValid;
}

unfoldable pub least_connections_routing : Routing
unfolding LeastConnections.get_all_backends LeastConnections.get_healthy_backends
least_connections_routing = record {
  Router = LeastConnectionsRouter;
  next_backend = LeastConnections.next_backend;
  on_disconnect = LeastConnections.on_disconnect;
  mark_healthy = LeastConnections.mark_healthy;
  mark_unhealthy = LeastConnections.mark_unhealthy;
  get_all_backends = LeastConnections.get_all_backends;
  get_healthy_backends = LeastConnections.get_healthy_backends;
  IsValid = LeastConnections.Invariant.IsValid;
  served = λ r skip b v h. (LeastConnections.Selection.next_backend-least r skip v b h).0;
  excluded = λ r skip b. LeastConnections.Selection.next_backend-free r skip b;
  refused = λ r skip b v h. LeastConnections.Selection.next_backend-none r skip v h b;
  pool_next = LeastConnections.Selection.healthy_set-next_backend;
  pool_disconnect = LeastConnections.Health.healthy_set-on_disconnect;
  pool_healthy = LeastConnections.Health.contains-mark_healthy;
  pool_unhealthy = LeastConnections.Health.contains-mark_unhealthy;
  all_healthy = LeastConnections.Health.all_backends-mark_healthy;
  all_unhealthy = LeastConnections.Health.all_backends-mark_unhealthy;
  valid_next = LeastConnections.Selection.next_backend-IsValid;
  valid_disconnect = LeastConnections.Health.on_disconnect-IsValid;
  valid_healthy = LeastConnections.Health.mark_healthy-IsValid;
  valid_unhealthy = LeastConnections.Health.mark_unhealthy-IsValid;
}

unfoldable pub least_connections_accounts : Accounts least_connections_routing
unfolding least_connections_routing
least_connections_accounts = record {
  load = λ r. LeastConnections.count_of r.counts;
  load_served = λ r skip b c v. LeastConnections.Selection.count_of-next_backend r skip v b c;
  load_refused = λ r skip c h.
      ap (λ counts. LeastConnections.count_of counts c)
        (LeastConnections.Selection.counts-next_backend_none r skip h);
  load_disconnect = LeastConnections.Health.count_of-on_disconnect;
  load_healthy = LeastConnections.Health.count_of-mark_healthy;
  load_unhealthy = LeastConnections.Health.count_of-mark_unhealthy;
}
