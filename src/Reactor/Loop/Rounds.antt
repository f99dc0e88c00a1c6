-- ===== src/Reactor/Loop/Rounds.antt =====
-- Whole rounds of the loop, and the states that the reactor comes into.
use l7_load_balancer.Prelude.{
  ℕ, ◌<◌, ◌≡◌, ◌≢◌, refl, sym, ◌∙◌, subst, List, Option, none, some, arith, inl, inr,
}
use native.Mathlib.Decide.{dec_le}
use mathlib.Core.Option
use l7_load_balancer.Router.Routing.{Routing}
use l7_load_balancer.Connection.{done, ProxyConnection, World}
use l7_load_balancer.Reactor.{Ref, Reactor, object}
use l7_load_balancer.Reactor.Deadlines.{now, select_timeout, expire_timeouts}
use l7_load_balancer.Reactor.Deadlines.Overdue.{IsDone, Fate, expire_timeouts-overdue}
use l7_load_balancer.Reactor.Deadlines.Tracking.{Listed, Watched, IsTracked}
use l7_load_balancer.Reactor.Deadlines.Expiry.{
  expire_timeouts-Fate, expire_timeouts-IsTracked, select_timeout-IsTracked,
  connections-expire_timeouts,
}
use l7_load_balancer.Reactor.Loop.{Ready, start, serve_all, reap, turn}
use l7_load_balancer.Reactor.Loop.Tracked.{MayServeAll, AfterSome, serve_all-IsTracked}
use l7_load_balancer.Reactor.Loop.Alive.{reap-IsTracked, reap-alive, reap-Listed, object-reap}

module _ (routing : Routing) (id_of : Ref → ℕ) where
  open routing use {Router}

  -- The states at the head of the loop.
  pub data Reached : Reactor Router → Type 0 where
    started : (router : Router) (world : World) → Reached (start routing id_of router world)
    turned :
        (events : List Ready) (st st' : Reactor Router)
        → Reached st
        → MayServeAll routing id_of events (select_timeout st).1
        → turn routing id_of events st ≡ some st'
        → Reached st'

  start-IsTracked :
      (router : Router) (world : World) → IsTracked id_of (start routing id_of router world)
  unfolding start
  start-IsTracked router world = record {
    sorted = tt;
    watched = λ a m. absurd m;
    older = λ a m. absurd m;
    apart = λ a b m n e. absurd m;
  }

  -- What the events of a round leave, before the timeouts.
  served-IsTracked :
      (events : List Ready) (st st' : Reactor Router)
      → IsTracked id_of st
      → MayServeAll routing id_of events (select_timeout st).1
      → serve_all routing id_of events (select_timeout st).1 ≡ some st'
      → IsTracked id_of st'
  served-IsTracked events st st' v ok e = subst (AfterSome routing id_of) e (
      serve_all-IsTracked routing id_of events (select_timeout st).1 ok
        (select_timeout-IsTracked id_of st v))

  abbrev pub settled : Reactor Router → Reactor Router
  settled st = reap routing id_of (expire_timeouts routing st)

  turn-IsTracked :
      (events : List Ready) (st st' : Reactor Router)
      → IsTracked id_of st
      → MayServeAll routing id_of events (select_timeout st).1
      → turn routing id_of events st ≡ some st'
      → IsTracked id_of st'
  unfolding turn
  turn-IsTracked events st st' v ok e =
      served (serve_all routing id_of events (select_timeout st).1) refl e
    where
      served :
          (r : Option (Reactor Router))
          → serve_all routing id_of events (select_timeout st).1 ≡ r
          → Option.map (λ q. settled q) r ≡ some st'
          → IsTracked id_of st'
      served none q f = cc
      served (some st1) q f =
          let same : settled st1 ≡ st' = cc in
          subst (IsTracked id_of) same (
            reap-IsTracked routing id_of _
              (expire_timeouts-IsTracked routing id_of st1 (served-IsTracked events st st1 v ok q)))

  -- In every state that the loop comes into, the heap of deadlines is in order, each connection in
  -- the table is done or has an entry with its present deadline and generation, under an id that
  -- leads to it, is older than the next one, and shares its id with no other connection in the
  -- table.
  pub Reached-IsTracked : (st : Reactor Router) → Reached st → IsTracked id_of st
  Reached-IsTracked _ (Reached.started router world) = start-IsTracked router world
  Reached-IsTracked _ (Reached.turned events st st' r ok e) =
      turn-IsTracked events st st' (Reached-IsTracked st r) ok e

  -- The connection behind an entry of the table that is not done when the timeouts are dealt with
  -- has time left.
  in_time :
      (st : Reactor Router) (ref : Ref) (o : Option ProxyConnection) (c : ProxyConnection)
      → IsTracked id_of st
      → object st ref ≡ o
      → Watched (id_of ref) ref o st.conn_by_id st.deadlines
      → Fate routing o (object (expire_timeouts routing st) ref)
      → object (expire_timeouts routing st) ref ≡ some c
      → c.state ≢ done
      → now st < c.deadline
  in_time st ref o c v q w (inr d) e live = absurd (live (subst IsDone e d))
  in_time st ref none c v q w (inl f) e live = absurd w
  in_time st ref (some c0) c v q (inl d) (inl f) e live =
      let same : c0 ≡ c = cc in absurd (live (subst (λ x. x.state ≡ done) same d))
  in_time st ref (some c0) c v q (inr a) (inl f) e live = elim (dec_le c0.deadline (now st)) [
    | yes late ↦ absurd (
        live (
          subst IsDone e (
            expire_timeouts-overdue routing (id_of ref) ref c0 st v.sorted q a.found a.entered
              late)))
    | no early ↦
        let same : c0 ≡ c = cc in subst (λ x. now st < x.deadline) same (omega (arith, early))
  ]

  -- From any state that the loop comes into, a round whose event handlers return leaves in the
  -- table of connections only connections that are not done and whose deadline is later than the
  -- time at which the timeouts were checked; the condition is that the id of a new connection is
  -- that of no connection in the table, and that an event is about a connection in the table.
  pub turn_in_time :
      (events : List Ready) (st st1 : Reactor Router)
      → Reached st
      → MayServeAll routing id_of events (select_timeout st).1
      → serve_all routing id_of events (select_timeout st).1 ≡ some st1
      → (turn routing id_of events st ≡ some (settled st1))
        × ((ref : Ref) (c : ProxyConnection)
            → Listed ref (settled st1).connections
            → object (settled st1) ref ≡ some c
            → (c.state ≢ done) × (now st1 < c.deadline))
  unfolding turn
  turn_in_time events st st1 r ok e =
      let v = served-IsTracked events st st1 (Reached-IsTracked st r) ok e in
      (
        rw e,
        λ ref c m o.
            let live : c.state ≢ done = λ d.
              reap-alive routing id_of (expire_timeouts routing st1) ref m
                (subst IsDone (sym o) d) in
            let listed =
              subst (Listed ref) (connections-expire_timeouts routing st1)
                (reap-Listed routing id_of _ ref m) in
            (
              live,
              in_time st1 ref (object st1 ref) c v refl (v.watched ref listed)
                  (expire_timeouts-Fate routing st1 ref)
                  (sym (object-reap routing id_of (expire_timeouts routing st1) ref) ∙ o) live,
            ),
      )
