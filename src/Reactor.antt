-- ===== src/Reactor.antt =====
-- reactor.py: the state of a `Reactor`, and the objects that it shares with the handlers.
pub mod Selector
pub mod Deadlines
pub mod Dispatch
pub mod Loop
use native.Mathlib.Decide.{ℕ_discrete}
use l7_load_balancer.Prelude.{
  ℕ, List, [], ◌∷◌, Option, none, some, Bool, true, false, ltb, if◌then◌else◌,
}
use l7_load_balancer.Prelude.Dict.{lookup, insert}
use l7_load_balancer.Connection.{ProxyConnection, World, Sys}

-- A connection object, by the order in which the objects were made.
abbrev pub Ref : Type 0
Ref = ℕ

-- The listening socket, and the sockets of clients and of backends, which are numbered apart.
pub data Sock : Type 0 where
  listener : Sock
  client backend : ℕ → Sock

unfoldable pub Sock-discrete : Discrete Sock
Sock-discrete = hlevel ℕ_discrete

-- `EVENT_READ` and `EVENT_WRITE`.
pub data Interest : Type 0 where
  event_read event_write : Interest

-- The `data` of a registration.
pub data Target : Type 0 where
  accept : Target
  conn : Ref → Target

pub record SelectorKey : Type 0 where
  pub events : Interest
  pub target : Target

-- The registrations, by socket.
abbrev pub Registered : Type 0
Registered = List (Sock × SelectorKey)

-- An entry of `_deadlines`: a deadline, a generation and the `id` of a connection.
pub record Deadline : Type 0 where
  pub deadline : ℕ
  pub gen : ℕ
  pub cid : ℕ

-- `<=` of these tuples.
unfoldable pub deadline_leb : Deadline → Deadline → Bool
deadline_leb a b =
    if ltb a.deadline b.deadline
    then true
    else if ltb b.deadline a.deadline
    then false
    else if ltb a.gen b.gen
    then true
    else if ltb b.gen a.gen
    then false
    else if ltb b.cid a.cid
    then false
    else true

-- `objects` holds every connection object that was made. `connections` is `_connections`, from
-- the number of the client's socket, and `conn_by_id` is `_conn_by_id`.
pub record Reactor (R : Type 0) : Type 0 where
  pub router : R
  pub world : World
  pub sel : Registered
  pub objects : List (Ref × ProxyConnection)
  pub made : ℕ
  pub connections : List (ℕ × Ref)
  pub conn_by_id : List (ℕ × Ref)
  pub deadlines : List Deadline
  pub running : Bool

module _ {R : Type 0} where
  abbrev pub object : Reactor R → Ref → Option ProxyConnection
  object st ref = lookup ℕ_discrete ref st.objects

  -- What a method of a connection sees, and what it leaves.
  abbrev pub view : Reactor R → ProxyConnection → Sys R
  view st c = record { conn = c; router = st.router; world = st.world }

  abbrev pub put : Ref → Sys R → Reactor R → Reactor R
  put ref s st = record st {
    objects = insert ℕ_discrete ref s.conn st.objects;
    router = s.router;
    world = s.world;
  }
