-- ===== src/Reactor/Loop/Alive.antt =====
-- What `_reap` leaves in the table: the connections that are not done.
use l7_load_balancer.Prelude.{
  ℕ, ◌≡◌, ◌≢◌, refl, sym, ap, ◌∙◌, subst, List, [], ◌∷◌, Option, none, some, true, inl, inr,
  if_split,
}
use l7_load_balancer.Prelude.Heap.{Any, All}
use l7_load_balancer.Router.Routing.{Routing}
use l7_load_balancer.Connection.{ProxyConnection}
use l7_load_balancer.Reactor.{Ref, Reactor, object}
use l7_load_balancer.Reactor.Deadlines.Overdue.{IsDone, is_done-eq}
use l7_load_balancer.Reactor.Deadlines.Tracking.{Listed, IsTracked}
use l7_load_balancer.Reactor.Loop.{dead, dead_of, reap_each, reap}
use l7_load_balancer.Reactor.Loop.Reaped.{
  remove-Any, remove-Any_ne, Listed-Any, Any-Listed, All-Any_absurd, IsDead, reap_one-object,
  reap_one-kept, reap_each-IsTracked,
}

module _ (routing : Routing) (id_of : Ref → ℕ) where
  open routing use {Router}

  dead-IsDone : (o : Option ProxyConnection) → dead o ≡ true → IsDone o
  unfolding dead
  dead-IsDone none h = cc
  dead-IsDone (some c) h = is_done-eq c.state h

  IsDone-dead : (o : Option ProxyConnection) → IsDone o → dead o ≡ true
  unfolding dead
  IsDone-dead none d = absurd d
  IsDone-dead (some c) d = rw d

  dead_of-IsDead :
      (st : Reactor Router) (cs : List (ℕ × Ref))
      → ((a b : Ref) → Listed a st.connections → Listed b cs → id_of a ≡ id_of b → a ≡ b)
      → All (IsDead routing id_of st) (dead_of routing id_of st cs)
  unfolding dead_of
  dead_of-IsDead st [] ap_ids = tt
  dead_of-IsDead st ((fd, ref) ∷ cs) ap_ids =
      if_split {A = List (ℕ × Ref)} (All (IsDead routing id_of st)) (dead (object st ref)) _ _
        (λ h. (
          (dead-IsDone (object st ref) h, λ a m. ap_ids a ref m (inl refl)),
          dead_of-IsDead st cs (λ a b m n. ap_ids a b m (inr n)),
        ))
        (λ h. dead_of-IsDead st cs (λ a b m n. ap_ids a b m (inr n)))

  pub reap-IsTracked :
      (st : Reactor Router) → IsTracked id_of st → IsTracked id_of (reap routing id_of st)
  unfolding reap
  reap-IsTracked st v =
      reap_each-IsTracked routing id_of _ st (dead_of-IsDead st st.connections v.apart) v

  object-reap_each :
      (ds : List (ℕ × Ref)) (st : Reactor Router) (a : Ref)
      → object (reap_each routing id_of ds st) a ≡ object st a
  unfolding reap_each
  object-reap_each [] st a = refl
  object-reap_each ((fd, ref) ∷ ds) st a =
      object-reap_each ds _ a ∙ reap_one-object routing id_of fd ref st a

  pub object-reap : (st : Reactor Router) (a : Ref) → object (reap routing id_of st) a ≡ object st a
  unfolding reap
  object-reap st a = object-reap_each (dead_of routing id_of st st.connections) st a

  -- The table after the loop: what was in it, under none of the descriptors that went.
  reap_each-left :
      (ds : List (ℕ × Ref)) (st : Reactor Router) (e : ℕ × Ref)
      → Any (λ x. x ≡ e) (reap_each routing id_of ds st).connections
      → Any (λ x. x ≡ e) st.connections × All (λ d. d.0 ≢ e.0) ds
  unfolding reap_each
  reap_each-left [] st e m = (m, tt)
  reap_each-left ((fd, ref) ∷ ds) st e m =
      let (there, others) = reap_each-left ds _ e m in
      let left = rw (reap_one-kept routing id_of fd ref st).0 at there in
      (
        remove-Any (λ x. x ≡ e) fd st.connections left,
        (remove-Any_ne fd e st.connections left, others),
      )

  dead_of-Any :
      (st : Reactor Router) (cs : List (ℕ × Ref)) (e : ℕ × Ref)
      → IsDone (object st e.1)
      → Any (λ x. x ≡ e) cs
      → Any (λ x. x ≡ e) (dead_of routing id_of st cs)
  unfolding dead_of
  dead_of-Any st [] e d m = m
  dead_of-Any st ((fd, ref) ∷ cs) e d (inl q) =
      rw (IsDone-dead (object st ref) (subst (λ r. IsDone (object st r)) (sym (ap (λ x. x.1) q)) d))
        (inl q)
  dead_of-Any st ((fd, ref) ∷ cs) e d (inr q) =
      if_split {A = List (ℕ × Ref)} (Any (λ x. x ≡ e)) (dead (object st ref)) _ _
        (λ _. inr (dead_of-Any st cs e d q)) (λ _. dead_of-Any st cs e d q)

  -- No connection that is done is left in the table.
  pub reap-alive :
      (st : Reactor Router) (ref : Ref)
      → Listed ref (reap routing id_of st).connections
      → ¬ IsDone (object (reap routing id_of st) ref)
  unfolding reap
  reap-alive st ref m d =
      let (fd, there) = Listed-Any ref _ m in
      let (before, gone) =
        reap_each-left (dead_of routing id_of st st.connections) st (fd, ref) there in
      All-Any_absurd fd ref _ gone (
        dead_of-Any st st.connections (fd, ref)
          (subst IsDone (object-reap_each (dead_of routing id_of st st.connections) st ref) d)
          before)

  pub reap-Listed :
      (st : Reactor Router) (ref : Ref)
      → Listed ref (reap routing id_of st).connections
      → Listed ref st.connections
  unfolding reap
  reap-Listed st ref m =
      let (fd, there) = Listed-Any ref _ m in
      Any-Listed fd ref _
        (reap_each-left (dead_of routing id_of st st.connections) st (fd, ref) there).0
