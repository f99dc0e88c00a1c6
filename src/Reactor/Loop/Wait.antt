-- ===== src/Reactor/Loop/Wait.antt =====
-- How long the loop waits in `select`.
use l7_load_balancer.Prelude.{
  ℕ, ◌-◌, ◌≤◌, ◌≡◌, ◌≢◌, subst, List, [], ◌∷◌, some, arith, inl, inr, min,
}
use l7_load_balancer.Prelude.Heap.{Any, All, IsSorted}
use l7_load_balancer.Router.Routing.{Routing}
use l7_load_balancer.Connection.{done, ProxyConnection}
use l7_load_balancer.Reactor.{Ref, Deadline, Reactor, object}
use l7_load_balancer.Reactor.Deadlines.{entry, now, select_timeout, until}
use l7_load_balancer.Reactor.Deadlines.Tracking.{Listed, Watched, IsTracked}
use l7_load_balancer.Reactor.Deadlines.Expiry.{select_timeout-IsTracked}
use l7_load_balancer.Reactor.Loop.Rounds.{Reached, Reached-IsTracked}

All-least :
    (t : ℕ) (d : Deadline) (h : List Deadline)
    → All (λ y. t ≤ y.deadline) h
    → Any (λ x. x ≡ d) h
    → t ≤ d.deadline
All-least t d [] a m = absurd m
All-least t d (x ∷ h) a (inl e) = subst (λ y. t ≤ y.deadline) e a.0
All-least t d (x ∷ h) a (inr m) = All-least t d h a.1 m

until-entry :
    (t : ℕ) (d : Deadline) (h : List Deadline)
    → IsSorted (λ y. y.deadline) h
    → Any (λ x. x ≡ d) h
    → until t h ≤ d.deadline - t
until-entry t d [] s m = absurd m
until-entry t d (x ∷ h) s (inl e) =
    subst (λ y. min 1000 (x.deadline - t) ≤ y.deadline - t) e (omega arith)
until-entry t d (x ∷ h) s (inr m) = omega (arith, All-least x.deadline d h s.0 m)

until-second : (t : ℕ) (h : List Deadline) → until t h ≤ 1000
until-second t [] = omega arith
until-second t (x ∷ h) = omega arith

module _ (routing : Routing) (id_of : Ref → ℕ) where
  open routing use {Router}

  -- In every state that the loop comes into, the time that select is given is at most a second and
  -- at most what is left to the deadline of any connection in the table that is not done, 0 if it
  -- has passed.
  pub select_timeout-le :
      (st : Reactor Router) (ref : Ref) (c : ProxyConnection)
      → Reached routing id_of st
      → Listed ref st.connections
      → object st ref ≡ some c
      → c.state ≢ done
      → ((select_timeout st).0 ≤ 1000) × ((select_timeout st).0 ≤ c.deadline - now st)
  unfolding select_timeout
  select_timeout-le st ref c r m o live =
      let v = select_timeout-IsTracked id_of st (Reached-IsTracked routing id_of st r) in
      (
        until-second (now st) _,
        within v (
            subst (λ q. Watched (id_of ref) ref q st.conn_by_id (select_timeout st).1.deadlines) o
              (v.watched ref m)),
      )
    where
      within :
          IsTracked id_of (select_timeout st).1
          → Watched (id_of ref) ref (some c) st.conn_by_id (select_timeout st).1.deadlines
          → (select_timeout st).0 ≤ c.deadline - now st
      within v (inl d) = absurd (live d)
      within v (inr a) =
          until-entry (now st) (entry (id_of ref) c) (select_timeout st).1.deadlines v.sorted
            a.entered
