-- ===== src/Tests/Connections.antt =====
-- Whole lives of a connection.
use l7_load_balancer.Prelude.{ℕ, ◌≡◌, refl, true, false, some, none, List, [], ◌∷◌, Bool, Option}
use l7_load_balancer.Bytes.{Bytes, codes}
use l7_load_balancer.Router.Instances.{least_connections_routing}
use l7_load_balancer.Router.LeastConnections
use l7_load_balancer.Router.LeastConnections.{LeastConnectionsRouter, count_of, entry_leb}
use l7_load_balancer.Connection.{
  errno, World, Sys, Send, received, sent, done, on_conn, forwarding_response, reading_response,
}
use l7_load_balancer.Connection.Deadline.{init}
use l7_load_balancer.Connection.Events.Totals.{failed_send_leaks, run_done}
use l7_load_balancer.Connection.Events.{
  Event, client_readable, client_writable, backend_readable, backend_writable, timeout, run,
}
use l7_load_balancer.Connection.Events.Relayed.{reads_of}
use l7_load_balancer.Tests.Play.{play}
use l7_load_balancer.Tests.{backend1, backends}

abbrev pub world : World
world = record {
  clock = λ n. n;
  readings = 0;
  connect_ex = λ n b. errno 115;
  connects = 0;
  takes_sendall = λ n. true;
  raised = false;
  effects = [];
}

abbrev pub request : Bytes
request = codes "GET / HTTP/1.1\r\nHost: x\r\n\r\n"

abbrev response : Bytes
response = codes "HTTP/1.1 200 OK\r\nContent-Length: 2\r\n\r\nhi"

abbrev pub life : List Event
life =
    client_readable (received request)
    ∷ backend_writable 0 (sent 100)
    ∷ backend_readable (received response)
    ∷ client_writable (sent 40)
    ∷ []

abbrev pub router : LeastConnectionsRouter
router = LeastConnections.init backends

-- The router of the interface is the least-connections router.
unfoldable pub as_router : LeastConnectionsRouter → least_connections_routing.Router
unfolding least_connections_routing
as_router r = r

abbrev pub begin : Sys least_connections_routing.Router
begin = init 7 (codes "10.0.0.1", 5000) (as_router router) world

abbrev pub last_of {ℓ} : {A : Type ℓ} → A → Option A → A
last_of a none = a
last_of a (some b) = b

abbrev pub final : Sys least_connections_routing.Router
final = last_of begin (run least_connections_routing life begin)

abbrev pub has {ℓ} : {A : Type ℓ} → Option A → Bool
has none = false
has (some a) = true

pub some-last_of {ℓ} : {A : Type ℓ} (d : A) (o : Option A) → has o ≡ true → o ≡ some (last_of d o)
some-last_of d none h = cc
some-last_of d (some a) h = refl

life_returns : has (run least_connections_routing life begin) ≡ true
unfolding play as_router
life_returns = refl

pub life_runs : run least_connections_routing life begin ≡ some final
life_runs = some-last_of begin (run least_connections_routing life begin) life_returns

life_is_done : final.conn.state ≡ done
unfolding play as_router
life_is_done = refl

-- A response is on its way to the client.
abbrev pub forwarding : Sys least_connections_routing.Router
forwarding =
    on_conn (λ c. record c { state = forwarding_response; backend_addr = some backend1 }) begin

failed_send_leaks_example :
    (s' : Sys least_connections_routing.Router) × (run least_connections_routing
        (client_writable Send.failed ∷ [])
        forwarding
      ≡ some s')
    × (s'.router ≡ forwarding.router)
    × (s'.conn.state ≡ done)
    × (s'.conn.disconnect_notified ≡ forwarding.conn.disconnect_notified)
failed_send_leaks_example = failed_send_leaks least_connections_routing [] forwarding refl

run_done_example :
    run least_connections_routing (timeout ∷ client_readable (received request) ∷ []) final
    ≡ some final
run_done_example =
    run_done least_connections_routing (timeout ∷ client_readable (received request) ∷ []) final
      life_is_done

-- A response comes in two reads.
abbrev awaiting : Sys least_connections_routing.Router
awaiting = on_conn (λ c. record c { state = reading_response; backend_addr = some backend1 }) begin

abbrev first_read : Bytes
first_read = codes "TTP/1.1 200 OK\r\nContent-Length: 2\r\n\r\nh"

abbrev two_reads : List (ℕ × Bytes)
two_reads = (b'H', first_read) ∷ (b'i', []) ∷ []

abbrev answered : Sys least_connections_routing.Router
answered = last_of awaiting (run least_connections_routing (reads_of two_reads) awaiting)

answered_relays : (answered.conn.state ≡ forwarding_response) × (answered.conn.relay_buf ≡ response)
unfolding play as_router
answered_relays = (refl, refl)

-- A chunked response comes in two reads, with bytes behind its end, which are not relayed.
abbrev chunked_response : Bytes
chunked_response = codes "HTTP/1.1 200 OK\r\nTransfer-Encoding: chunked\r\n\r\n2\r\nhi\r\n0\r\n\r\n"

abbrev chunked_start : Bytes
chunked_start = codes "TTP/1.1 200 OK\r\nTransfer-Encoding: chunked\r\n\r\n2\r\nh"

abbrev chunked_reads : List (ℕ × Bytes)
chunked_reads = (b'H', chunked_start) ∷ (b'i', codes "\r\n0\r\n\r\nmore") ∷ []

abbrev chunked_answered : Sys least_connections_routing.Router
chunked_answered =
    last_of awaiting (run least_connections_routing (reads_of chunked_reads) awaiting)

chunked_relays :
    (chunked_answered.conn.state ≡ forwarding_response)
    × (chunked_answered.conn.relay_buf ≡ chunked_response)
unfolding play as_router
chunked_relays = (refl, refl)
