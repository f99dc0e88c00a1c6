-- ===== src/Tests/Health.antt =====
-- Sweeps of the health checker over a least-connections router.
use l7_load_balancer.Prelude.{ℕ, zero, suc, ◌≡◌, refl, true, false, some, none, List, ◌∷◌, []}
use l7_load_balancer.Prelude.Dict.{contains, discard, lookup, insert}
use l7_load_balancer.Prelude.Heap.{heappush, heappush_all}
use l7_load_balancer.Backend.{Backend-discrete, backend_leb}
use l7_load_balancer.Bytes.{codes, starts_with}
use l7_load_balancer.Router.Instances.{least_connections_routing}
use l7_load_balancer.Router.LeastConnections
use l7_load_balancer.HealthChecker.{Answer, os_error, answered, probe, check, sweep_from, sweep}
use l7_load_balancer.HealthChecker.Thread.{
  HealthChecker, running, Act, stops, turns, init, start, stop, run, heard, verdicts, in_pool-run,
}
use l7_load_balancer.HealthChecker.Sweep.{in_pool, verdict, in_pool-sweep, served-sweep}
use l7_load_balancer.Tests.{backend1, backend2, backends}

-- The first backend refuses, the others answer.
abbrev net : ℕ → Answer
net zero = os_error
net (suc n) = answered (codes "HTTP/1.1 503 Busy\r\n")

abbrev pool : least_connections_routing.Router
unfolding least_connections_routing
pool = LeastConnections.init backends

pool-IsValid : least_connections_routing.IsValid pool
unfolding pool least_connections_routing
pool-IsValid = LeastConnections.Start.init-IsValid backends

swept :
    (in_pool least_connections_routing backend1 (sweep least_connections_routing net pool) ≡ false)
    × ((least_connections_routing.next_backend (sweep least_connections_routing net pool) []).0
        ≡ some backend2)
unfolding pool sweep sweep_from check probe starts_with contains discard lookup insert heappush
    heappush_all Backend-discrete backend_leb least_connections_routing LeastConnections.entry_leb
    LeastConnections.count_of LeastConnections.push LeastConnections.add LeastConnections.init
    LeastConnections.scan LeastConnections.choose LeastConnections.next_backend
    LeastConnections.mark_unhealthy LeastConnections.set_default LeastConnections.mark_healthy
    LeastConnections.get_all_backends LeastConnections.get_healthy_backends
swept = (refl, refl)

in_pool-sweep_example :
    in_pool least_connections_routing backend1 (sweep least_connections_routing net pool)
    ≡ verdict net 0
        (least_connections_routing.get_all_backends pool)
        backend1
        (in_pool least_connections_routing backend1 pool)
in_pool-sweep_example = in_pool-sweep least_connections_routing net pool backend1 pool-IsValid

served-sweep_example :
    verdict net 0
      (least_connections_routing.get_all_backends pool)
      backend2
      (in_pool least_connections_routing backend2 pool)
    ≡ true
served-sweep_example =
    served-sweep least_connections_routing net pool [] backend2 pool-IsValid swept.1

-- The thread sweeps twice, is stopped, and comes to its loop once more.
abbrev acts : List Act
acts = turns net ∷ turns (λ n. os_error) ∷ stops ∷ turns net ∷ []

abbrev checker : HealthChecker least_connections_routing.Router
checker = record { router = pool; stop_event = false; thread = running }

checker_starts : start (init pool) ≡ some checker
unfolding start init
checker_starts = refl

in_pool-run_example :
    (h' : HealthChecker least_connections_routing.Router) × (run least_connections_routing acts
        checker
      ≡ some h')
    × (in_pool least_connections_routing backend2 h'.router
        ≡ verdicts
            (heard acts)
            (least_connections_routing.get_all_backends pool)
            backend2
            (in_pool least_connections_routing backend2 pool))
in_pool-run_example =
    in_pool-run least_connections_routing acts pool backend2 checker pool-IsValid checker_starts

-- A thread is not started twice, and not joined before it starts.
start_twice : start checker ≡ none
unfolding start
start_twice = refl

stop_unborn : stop (init pool) ≡ none
unfolding stop init
stop_unborn = refl
