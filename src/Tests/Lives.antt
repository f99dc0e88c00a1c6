-- ===== src/Tests/Lives.antt =====
-- The attempts of a connection, in concrete lives.
use l7_load_balancer.Prelude.{◌≡◌, ◌≤◌, ◌+◌, ◌⊎◌, refl, true, false, some, [], ◌∷◌, List, length}
use l7_load_balancer.Prelude.Dict.{Distinct}
use l7_load_balancer.Backend.{Backend-discrete}
use l7_load_balancer.Bytes.{codes}
use l7_load_balancer.Config.{max_backend_retries}
use l7_load_balancer.Router.Instances.{least_connections_routing}
use l7_load_balancer.Connection.{Sys, Send, received, done, forwarding_response}
use l7_load_balancer.Connection.Connect.{allows_retry}
use l7_load_balancer.Connection.Events.{
  Event, client_readable, client_writable, backend_writable, run,
}
use l7_load_balancer.Connection.Life.{Changes, core}
use l7_load_balancer.Connection.Life.Runs.{
  asked_backends, run-Changes, asks_few_backends, asks_once, relay_is_final,
}
use l7_load_balancer.Tests.Play.{play}
use l7_load_balancer.Tests.Connections.{
  world, router, as_router, begin, request, forwarding, last_of, has, some-last_of,
}

-- Two backends fail, the second when the request is sent to it.
abbrev retried_life : List Event
retried_life =
    client_readable (received request)
    ∷ backend_writable 111 Send.would_block
    ∷ backend_writable 0 Send.failed
    ∷ []

abbrev retried : Sys least_connections_routing.Router
retried = last_of begin (run least_connections_routing retried_life begin)

retried_returns : has (run least_connections_routing retried_life begin) ≡ true
unfolding play as_router
retried_returns = refl

retried_runs : run least_connections_routing retried_life begin ≡ some retried
retried_runs = some-last_of begin (run least_connections_routing retried_life begin) retried_returns

retried_asks : length (asked_backends retried) ≡ 3
unfolding play as_router
retried_asks = refl

asks_few_backends_example :
    (length (asked_backends retried) ≤ 1 + max_backend_retries)
    × (length (asked_backends retried) ≡ retried.conn.backend_attempts)
    × Distinct Backend-discrete (asked_backends retried)
asks_few_backends_example =
    asks_few_backends least_connections_routing retried_life 7 (codes "10.0.0.1", 5000)
      (as_router router) world retried refl retried_runs

run-Changes_example : Changes (core begin) (core retried)
run-Changes_example = run-Changes least_connections_routing retried_life begin retried retried_runs

-- A request that is not to be sent twice.
abbrev post_life : List Event
post_life =
    client_readable (received (codes "POST / HTTP/1.1\r\nHost: x\r\n\r\n"))
    ∷ backend_writable 111 Send.would_block
    ∷ []

abbrev refused : Sys least_connections_routing.Router
refused = last_of begin (run least_connections_routing post_life begin)

refused_returns : has (run least_connections_routing post_life begin) ≡ true
unfolding play as_router
refused_returns = refl

refused_runs : run least_connections_routing post_life begin ≡ some refused
refused_runs = some-last_of begin (run least_connections_routing post_life begin) refused_returns

refused_post : allows_retry refused.conn.parsed_request ≡ false
unfolding play as_router
refused_post = refl

asks_once_example : length (asked_backends refused) ≤ 1
asks_once_example =
    asks_once least_connections_routing post_life 7 (codes "10.0.0.1", 5000) (as_router router)
      world refused refl refused_runs refused_post

-- The client cannot be written to.
abbrev hung_up : Sys least_connections_routing.Router
hung_up =
    last_of forwarding (run least_connections_routing (client_writable Send.failed ∷ []) forwarding)

hung_up_returns :
    has (run least_connections_routing (client_writable Send.failed ∷ []) forwarding) ≡ true
unfolding play as_router
hung_up_returns = refl

hung_up_runs :
    run least_connections_routing (client_writable Send.failed ∷ []) forwarding ≡ some hung_up
hung_up_runs =
    some-last_of forwarding
      (run least_connections_routing (client_writable Send.failed ∷ []) forwarding) hung_up_returns

relay_is_final_example :
    ((hung_up.conn.state ≡ forwarding_response) ⊎ (hung_up.conn.state ≡ done))
    × (asked_backends hung_up ≡ asked_backends forwarding)
relay_is_final_example =
    relay_is_final least_connections_routing (client_writable Send.failed ∷ []) forwarding hung_up
      refl hung_up_runs
