-- ===== src/Reactor/Loop.antt =====
-- `start`, `_loop`, `_accept`, `_reap` and `_shutdown`.
pub mod Tracked
pub mod Reaped
pub mod Alive
pub mod Rounds
pub mod Wait
use mathlib.Core.Option
use native.Mathlib.Decide.{ℕ_discrete}
use l7_load_balancer.Prelude.{
  ℕ, suc, List, [], ◌∷◌, Option, none, some, Bool, true, false, if◌then◌else◌, and_then,
}
use l7_load_balancer.Prelude.Dict.{lookup, insert, remove}
use l7_load_balancer.Bytes.{Bytes}
use l7_load_balancer.Router.Routing.{Routing}
use l7_load_balancer.Connection.{done, ProxyConnection, World}
use l7_load_balancer.Connection.Deadline.{init, is_done}
use l7_load_balancer.Connection.Finish.{cleanup}
use l7_load_balancer.Reactor.{
  Ref, Sock, listener, client, backend, Interest, event_read, Target, Registered, Reactor, object,
  view, put,
}
use l7_load_balancer.Reactor.Selector.{register, or_else}
use l7_load_balancer.Reactor.Deadlines.{schedule_deadline, select_timeout, expire_timeouts}
use l7_load_balancer.Reactor.Dispatch.{Local, Mask, Answers, forget, on_backend, dispatch}

-- One entry of what `select` returns, with what the sockets answer: a connection's socket, or the
-- listening socket with the clients that `accept` gives until it would block or fails. A signal, whose
-- handler calls `stop`, may come at any place among them.
pub data Ready : Type 0 where
  accepts : List (ℕ × Bytes × ℕ) → Ready
  ready : Ref → Sock → Mask → Answers → Ready
  signalled : Ready

-- `conn.state == State.DONE`
unfoldable pub dead : Option ProxyConnection → Bool
dead none = false
dead (some c) = is_done c.state

-- What `_dispatch` leaves, or the handler of its exceptions, which sets DONE (`escape` has done so).
-- After an exception no deadline is entered, nor is one for a connection that is done.
abbrev pub write_back : {R : Type 0} → Ref → Reactor R → Local R → Reactor R
write_back ref st l = record (put ref l.sys st) {
  sel = l.sel;
  world = record l.sys.world { raised = false };
}

module _ (routing : Routing) (id_of : Ref → ℕ) where
  open routing use {Router}

  -- `Reactor(router)` and `start`, up to the loop.
  unfoldable pub start : Router → World → Reactor Router
  start router world = record {
    router = router;
    world = world;
    sel = or_else (register listener event_read Target.accept []) [];
    objects = [];
    made = 0;
    connections = [];
    conn_by_id = [];
    deadlines = [];
    running = true;
  }

  unfoldable pub stop : Reactor Router → Reactor Router
  stop st = record st { running = false }

  -- One client of `_accept`. A fresh socket is not registered.
  unfoldable pub accept_one : ℕ × Bytes × ℕ → Reactor Router → Reactor Router
  accept_one (sock, host, port) st =
      let ref = st.made in
      let s = init sock (host, port) st.router st.world in
      schedule_deadline id_of ref (record (put ref s st) {
        made = suc ref;
        sel = or_else (register (client sock) event_read (Target.conn ref) st.sel) st.sel;
        connections = insert ℕ_discrete sock ref st.connections;
      })

  unfoldable pub accept_all : List (ℕ × Bytes × ℕ) → Reactor Router → Reactor Router
  accept_all [] st = st
  accept_all (c ∷ cs) st = accept_all cs (accept_one c st)

  abbrev local_of : Reactor Router → ProxyConnection → Local Router
  local_of st c = record { sys = view st c; sel = st.sel }

  unfoldable pub dispatch_object :
      Ref
      → Sock
      → Mask
      → Answers
      → Option ProxyConnection
      → Reactor Router
      → Option (Reactor Router)
  dispatch_object ref sock mask a none st = some st
  dispatch_object ref sock mask a (some c) st =
      Option.map (λ l. schedule_deadline id_of ref (write_back ref st l))
        (dispatch routing ref sock mask a (local_of st c))

  -- One round of the loop over the events.
  unfoldable pub serve : Ready → Reactor Router → Option (Reactor Router)
  unfolding dispatch_object stop
  serve (accepts clients) st = some (accept_all clients st)
  serve (ready ref sock mask a) st = dispatch_object ref sock mask a (object st ref) st
  serve signalled st = some (stop st)

  unfoldable pub serve_all : List Ready → Reactor Router → Option (Reactor Router)
  unfolding serve
  serve_all [] st = some st
  serve_all (e ∷ es) st = and_then (serve e st) (serve_all es)

  -- `dead_fds`, with their connections.
  unfoldable pub dead_of : Reactor Router → List (ℕ × Ref) → List (ℕ × Ref)
  unfolding dead
  dead_of st [] = []
  dead_of st ((fd, ref) ∷ cs) =
      let rest = dead_of st cs in if dead (object st ref) then (fd, ref) ∷ rest else rest

  unfoldable pub reap_object : Ref → Option ProxyConnection → Reactor Router → Reactor Router
  reap_object ref none st = st
  reap_object ref (some c) st =
      let gone = put ref (cleanup routing (view st c)) st in
      record gone {
        sel = on_backend c.backend_sock forget (forget (client c.client_sock) gone.sel);
      }

  unfoldable pub reap_one : ℕ × Ref → Reactor Router → Reactor Router
  unfolding reap_object
  reap_one (fd, ref) st = reap_object ref (object st ref) (record st {
    connections = remove ℕ_discrete fd st.connections;
    conn_by_id = remove ℕ_discrete (id_of ref) st.conn_by_id;
  })

  unfoldable pub reap_each : List (ℕ × Ref) → Reactor Router → Reactor Router
  unfolding reap_one
  reap_each [] st = st
  reap_each (c ∷ cs) st = reap_each cs (reap_one c st)

  unfoldable pub reap : Reactor Router → Reactor Router
  unfolding reap_each dead_of
  reap st = reap_each (dead_of st st.connections) st

  -- A round of `_loop`: the time to wait, the events, the timeouts and the dead connections.
  unfoldable pub turn : List Ready → Reactor Router → Option (Reactor Router)
  turn events st =
      Option.map (λ st'. reap (expire_timeouts routing st'))
        (serve_all events (select_timeout st).1)

  -- `_loop`, over what `select` returns in its rounds.
  unfoldable pub loop : List (List Ready) → Reactor Router → Option (Reactor Router)
  unfolding turn
  loop [] st = some st
  loop (events ∷ rounds) st =
      let next = and_then (turn events st) (loop rounds) in if st.running then next else some st

  cleanup_each : List (ℕ × Ref) → Reactor Router → Reactor Router
  cleanup_each [] st = st
  cleanup_each ((fd, ref) ∷ cs) st = cleanup_each cs (cleanup_object (object st ref))
    where
      cleanup_object : Option ProxyConnection → Reactor Router
      cleanup_object none = st
      cleanup_object (some c) = put ref (cleanup routing (view st c)) st

  unfoldable pub shutdown : Reactor Router → Reactor Router
  unfolding cleanup_each
  shutdown st = record (cleanup_each st.connections st) {
    connections = [];
    conn_by_id = [];
    deadlines = [];
    sel = [];
  }
