-- ===== src/Reactor/Deadlines.antt =====
-- `_schedule_deadline`, `_select_timeout` and `_expire_timeouts`. `id_of` is Python's `id`.
pub mod Overdue
pub mod Tracking
pub mod Expiry
use native.Mathlib.Decide.{ℕ_discrete}
use l7_load_balancer.Prelude.{
  ℕ, suc, ◌-◌, List, [], ◌∷◌, Option, none, some, Bool, true, false, not, ◌&&◌, ltb, ◌==◌, min,
  if◌then◌else◌,
}
use l7_load_balancer.Prelude.Dict.{lookup, insert}
use l7_load_balancer.Prelude.Heap.{heappush}
use l7_load_balancer.Router.Routing.{Routing}
use l7_load_balancer.Connection.{ProxyConnection, World}
use l7_load_balancer.Connection.Deadline.{is_done}
use l7_load_balancer.Connection.Finish.{handle_timeout}
use l7_load_balancer.Reactor.{Ref, Deadline, deadline_leb, Reactor, object, view, put}

abbrev pub entry : ℕ → ProxyConnection → Deadline
entry cid c = record { deadline = c.deadline; gen = c.deadline_gen; cid = cid }

-- The live connection that an entry is still about.
current_object : Deadline → Ref → Option ProxyConnection → Option (Ref × ProxyConnection)
current_object d ref none = none
current_object d ref (some c) =
    if is_done c.state then none else if d.gen == c.deadline_gen then some (ref, c) else none

-- Milliseconds until the least deadline, a second at most.
abbrev pub until : ℕ → List Deadline → ℕ
until t [] = 1000
until t (d ∷ h) = min 1000 (d.deadline - t)

module _ {R : Type 0} where
  -- `time.monotonic()`
  abbrev pub now : Reactor R → ℕ
  now st = st.world.clock st.world.readings

  abbrev pub tick : Reactor R → Reactor R
  tick st = record st { world = record st.world { readings = suc st.world.readings } }

  unfoldable pub schedule_object : (Ref → ℕ) → Ref → Option ProxyConnection → Reactor R → Reactor R
  schedule_object id_of ref none st = st
  schedule_object id_of ref (some c) st = if is_done c.state then st else record st {
    conn_by_id = insert ℕ_discrete (id_of ref) ref st.conn_by_id;
    deadlines = heappush deadline_leb (entry (id_of ref) c) st.deadlines;
  }

  unfoldable pub schedule_deadline : (Ref → ℕ) → Ref → Reactor R → Reactor R
  unfolding schedule_object
  schedule_deadline id_of ref st = schedule_object id_of ref (object st ref) st

  current_ref : Reactor R → Deadline → Option Ref → Option (Ref × ProxyConnection)
  unfolding current_object
  current_ref st d none = none
  current_ref st d (some ref) = current_object d ref (object st ref)

  unfoldable pub current : Reactor R → Deadline → Option (Ref × ProxyConnection)
  unfolding current_ref
  current st d = current_ref st d (lookup ℕ_discrete d.cid st.conn_by_id)

  -- The loop of `_select_timeout`: stale entries at the top go.
  unfoldable pub drain : Reactor R → List Deadline → List Deadline
  drain st [] = []
  drain st (d ∷ h) = elim (current st d) [ none ↦ drain st h | some _ ↦ d ∷ h ]

  unfoldable pub select_timeout : Reactor R → ℕ × Reactor R
  unfolding drain
  select_timeout st =
      let left = drain (tick st) st.deadlines in
      (until (now st) left, record (tick st) { deadlines = left })

module _ (routing : Routing) where
  open routing use {Router}

  -- One entry whose time has come.
  unfoldable pub expire_current : Option (Ref × ProxyConnection) → Reactor Router → Reactor Router
  expire_current none st = st
  expire_current (some (ref, c)) st = put ref (handle_timeout routing (view st c)) st

  unfoldable pub expire_entry : Deadline → Reactor Router → Reactor Router
  unfolding expire_current
  expire_entry d st = expire_current (current st d) st

  -- The loop of `_expire_timeouts` over the heap; `t` is the time that was read before it.
  unfoldable pub expire_from : ℕ → List Deadline → Reactor Router → Reactor Router
  expire_from t [] st = record st { deadlines = [] }
  expire_from t (d ∷ h) st =
      let rest = expire_from t h (expire_entry d st) in
      if ltb t d.deadline then record st { deadlines = d ∷ h } else rest

  unfoldable pub expire_timeouts : Reactor Router → Reactor Router
  expire_timeouts st = expire_from (now st) st.deadlines (tick st)
