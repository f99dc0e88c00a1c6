-- ===== src/Tests/Reactor.antt =====
-- Rounds of the reactor's loop on a round-robin router.
use native.Mathlib.Decide.{ℕ_discrete}
use l7_load_balancer.Prelude.{
  ℕ, false, ◌≡◌, ◌≢◌, ◌<◌, ◌≤◌, ◌*◌, ◌-◌, refl, List, [], ◌∷◌, some, true, inl, arith,
}
use l7_load_balancer.Prelude.Dict.{lookup, insert}
use l7_load_balancer.Prelude.Heap.{heappush}
use l7_load_balancer.Bytes.{Bytes, codes}
use l7_load_balancer.Router.Instances.{round_robin_routing}
use l7_load_balancer.Router.RoundRobin
use l7_load_balancer.Connection.{errno, done, World, ProxyConnection}
use l7_load_balancer.Connection.Deadline.{init, refresh_deadline, refresh_by, timeout_for_state}
use l7_load_balancer.Reactor.{deadline_leb, Ref, Reactor, object}
use l7_load_balancer.Reactor.Deadlines.{
  entry, now, select_timeout, expire_timeouts, schedule_deadline, expire_from, expire_entry,
  expire_current, current,
}
use l7_load_balancer.Reactor.Deadlines.Overdue.{IsDone, expire_timeouts-overdue}
use l7_load_balancer.Reactor.Deadlines.Tracking.{Listed, IsTracked}
use l7_load_balancer.Reactor.Loop.{
  accepts, start, accept_all, serve_all, turn, serve, accept_one, reap,
}
use l7_load_balancer.Reactor.Loop.Tracked.{MayServeAll}
use l7_load_balancer.Reactor.Loop.Rounds.{
  Reached, started, turned, settled, Reached-IsTracked, turn_in_time,
}
use l7_load_balancer.Reactor.Loop.Wait.{select_timeout-le}
use l7_load_balancer.Tests.Connections.{has, last_of, some-last_of}
use l7_load_balancer.Tests.{backends}

abbrev Router : Type 0
Router = round_robin_routing.Router

id_of : Ref → ℕ
id_of ref = ref

-- The clock moves on by 20 seconds with each reading.
abbrev slow_world : World
slow_world = record {
  clock = λ n. 20000 * n;
  readings = 0;
  connect_ex = λ n b. errno 115;
  connects = 0;
  takes_sendall = λ n. true;
  raised = false;
  effects = [];
}

new_router : Router
unfolding round_robin_routing
new_router = RoundRobin.init backends

abbrev begun : Reactor Router
begun = start round_robin_routing id_of new_router slow_world

abbrev clients : List (ℕ × Bytes × ℕ)
clients = (7, codes "10.0.0.1", 5000) ∷ []

-- A client comes.
abbrev accepted : Reactor Router
accepted = accept_all round_robin_routing id_of clients (select_timeout begun).1

abbrev one_client : Reactor Router
one_client = settled round_robin_routing id_of accepted

fresh_client : MayServeAll round_robin_routing id_of (accepts clients ∷ []) (select_timeout begun).1
unfolding start select_timeout
fresh_client = (((λ a m. absurd m), tt), λ st e. tt)

accepts_it :
    serve_all round_robin_routing id_of (accepts clients ∷ []) (select_timeout begun).1
    ≡ some accepted
unfolding serve_all serve
accepts_it = refl

one_client_follows : turn round_robin_routing id_of (accepts clients ∷ []) begun ≡ some one_client
unfolding turn
one_client_follows = rw accepts_it

one_client-Reached : Reached round_robin_routing id_of one_client
one_client-Reached =
    turned (accepts clients ∷ []) begun one_client (started new_router slow_world) fresh_client
      one_client_follows

Reached-IsTracked_example : IsTracked id_of one_client
Reached-IsTracked_example =
    Reached-IsTracked round_robin_routing id_of one_client one_client-Reached

-- The next round has no events, and the client's time is over.
abbrev waited : Reactor Router
waited = (select_timeout one_client).1

waits : serve_all round_robin_routing id_of [] waited ≡ some waited
unfolding serve_all
waits = refl

turn_in_time_example :
    (turn round_robin_routing id_of [] one_client ≡ some (settled round_robin_routing id_of waited))
    × ((ref : Ref) (c : ProxyConnection)
        → Listed ref (settled round_robin_routing id_of waited).connections
        → object (settled round_robin_routing id_of waited) ref ≡ some c
        → (c.state ≢ done) × (now waited < c.deadline))
turn_in_time_example =
    turn_in_time round_robin_routing id_of [] one_client waited one_client-Reached tt waits

-- One connection, which has been waiting since the clock stood at 0.
abbrev waiting : ProxyConnection
waiting = (init 7 (codes "10.0.0.1", 5000) new_router slow_world).conn

abbrev late : Reactor Router
late = record {
  router = new_router;
  world = record slow_world { readings = 5 };
  sel = [];
  objects = (0, waiting) ∷ [];
  made = 1;
  connections = (7, 0) ∷ [];
  conn_by_id = (3, 0) ∷ [];
  deadlines = entry 3 waiting ∷ [];
  running = true;
}

late-object : object late 0 ≡ some waiting
unfolding lookup ℕ_discrete
late-object = refl

late_by_id : lookup ℕ_discrete 3 late.conn_by_id ≡ some 0
unfolding lookup ℕ_discrete
late_by_id = refl

late_deadline : waiting.deadline ≤ now late
unfolding init refresh_deadline refresh_by timeout_for_state
late_deadline = omega arith

expire_timeouts-overdue_example : IsDone (object (expire_timeouts round_robin_routing late) 0)
expire_timeouts-overdue_example =
    expire_timeouts-overdue round_robin_routing 3 0 waiting late (tt, tt) late-object late_by_id
      (inl refl) late_deadline

-- The client is still there after its first round.
one_client-Listed : Listed 0 one_client.connections
unfolding start select_timeout accept_all accept_one schedule_deadline init refresh_deadline
    refresh_by timeout_for_state insert lookup heappush deadline_leb expire_timeouts expire_from
    expire_entry expire_current current reap ℕ_discrete
one_client-Listed = inl refl

one_client_there : has (object one_client 0) ≡ true
unfolding start select_timeout accept_all accept_one schedule_deadline init refresh_deadline
    refresh_by timeout_for_state insert lookup heappush deadline_leb expire_timeouts expire_from
    expire_entry expire_current current reap ℕ_discrete
one_client_there = refl

abbrev client_conn : ProxyConnection
client_conn = last_of waiting (object one_client 0)

client_conn_live : client_conn.state ≢ done
unfolding start select_timeout accept_all accept_one schedule_deadline init refresh_deadline
    refresh_by timeout_for_state insert lookup heappush deadline_leb expire_timeouts expire_from
    expire_entry expire_current current reap ℕ_discrete
client_conn_live = λ e. cc

select_timeout-le_example :
    ((select_timeout one_client).0 ≤ 1000)
    × ((select_timeout one_client).0 ≤ client_conn.deadline - now one_client)
select_timeout-le_example =
    select_timeout-le round_robin_routing id_of one_client 0 client_conn one_client-Reached
      one_client-Listed (some-last_of waiting (object one_client 0) one_client_there)
      client_conn_live
