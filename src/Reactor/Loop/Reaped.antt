-- ===== src/Reactor/Loop/Reaped.antt =====
-- `_reap` takes out the connections that are done, and no other.
use native.Mathlib.Decide.{ℕ_discrete}
use mathlib.Core.Logic.{if_pos, if_neg}
use l7_load_balancer.Prelude.{
  ℕ, ◌≡◌, ◌≢◌, refl, sym, ap, ◌∙◌, subst, List, [], ◌∷◌, Option, none, some, arith, inl, inr,
}
use l7_load_balancer.Prelude.Dict.{remove, lookup-remove}
use l7_load_balancer.Prelude.Heap.{Any, All}
use l7_load_balancer.Router.Routing.{Routing}
use l7_load_balancer.Connection.{ProxyConnection, Sys}
use l7_load_balancer.Connection.Finish.{cleanup}
use l7_load_balancer.Reactor.{Ref, Reactor, object, view, put}
use l7_load_balancer.Reactor.Deadlines.Overdue.{IsDone}
use l7_load_balancer.Reactor.Deadlines.Tracking.{
  Listed, done-Watched, Watched-mono, Watches, IsTracked,
}
use l7_load_balancer.Reactor.Loop.{reap_object, reap_one, reap_each}
use l7_load_balancer.Reactor.Loop.Tracked.{object-put_self, object-put_ne}

pub remove-Any :
    (P : ℕ × Ref → Type 0) (k : ℕ) (cs : List (ℕ × Ref)) → Any P (remove ℕ_discrete k cs) → Any P cs
unfolding remove
remove-Any P k [] m = m
remove-Any P k ((j, w) ∷ cs) m = elim (ℕ_discrete j k) [
  | yes e ↦ inr (remove-Any P k cs (rw (if_pos (ℕ_discrete j k) e) at m))
  | no n ↦ behind (remove-Any P k cs) (rw (if_neg (ℕ_discrete j k) n) at m)
]
  where
    behind :
        (Any P (remove ℕ_discrete k cs) → Any P cs)
        → Any P ((j, w) ∷ remove ℕ_discrete k cs)
        → Any P ((j, w) ∷ cs)
    behind step (inl q) = inl q
    behind step (inr q) = inr (step q)

pub remove-Any_ne :
    (fd : ℕ) (e : ℕ × Ref) (cs : List (ℕ × Ref))
    → Any (λ x. x ≡ e) (remove ℕ_discrete fd cs)
    → fd ≢ e.0
unfolding remove
remove-Any_ne fd e [] m same = m
remove-Any_ne fd e ((j, w) ∷ cs) m same = elim (ℕ_discrete j fd) [
  | yes q ↦ remove-Any_ne fd e cs (rw (if_pos (ℕ_discrete j fd) q) at m) same
  | no n ↦ behind n (remove-Any_ne fd e cs) (rw (if_neg (ℕ_discrete j fd) n) at m) same
]
  where
    behind :
        j ≢ fd
        → (Any (λ x. x ≡ e) (remove ℕ_discrete fd cs) → fd ≢ e.0)
        → Any (λ x. x ≡ e) ((j, w) ∷ remove ℕ_discrete fd cs)
        → fd ≢ e.0
    behind n step (inl q) same = n (ap (λ x. x.0) q ∙ sym same)
    behind n step (inr q) same = step q same

pub Listed-Any :
    (ref : Ref) (cs : List (ℕ × Ref)) → Listed ref cs → (fd : ℕ) × Any (λ x. x ≡ (fd, ref)) cs
Listed-Any ref [] m = absurd m
Listed-Any ref ((fd, r) ∷ cs) (inl q) = (fd, inl (ap (λ x. (fd, x)) q))
Listed-Any ref ((fd, r) ∷ cs) (inr q) = let (fd', there) = Listed-Any ref cs q in (fd', inr there)

pub Any-Listed :
    (fd : ℕ) (ref : Ref) (cs : List (ℕ × Ref)) → Any (λ x. x ≡ (fd, ref)) cs → Listed ref cs
Any-Listed fd ref [] m = m
Any-Listed fd ref (x ∷ cs) (inl q) = inl (ap (λ y. y.1) q)
Any-Listed fd ref (x ∷ cs) (inr q) = inr (Any-Listed fd ref cs q)

pub All-Any_absurd :
    (fd : ℕ) (ref : Ref) (ds : List (ℕ × Ref))
    → All (λ d. d.0 ≢ fd) ds
    → Any (λ x. x ≡ (fd, ref)) ds
    → ⊥
All-Any_absurd fd ref [] a m = m
All-Any_absurd fd ref (x ∷ ds) a (inl q) = a.0 (ap (λ y. y.0) q)
All-Any_absurd fd ref (x ∷ ds) a (inr q) = All-Any_absurd fd ref ds a.1 q

module _ (routing : Routing) (id_of : Ref → ℕ) where
  open routing use {Router}

  cleanup-conn : (s : Sys Router) → (cleanup routing s).conn ≡ s.conn
  unfolding cleanup
  cleanup-conn s = ground arith

  -- The connection behind an entry is done, and its `id` is that of no other one in the table.
  abbrev pub IsDead : Reactor Router → ℕ × Ref → Type 0
  IsDead st e =
      IsDone (object st e.1) × ((a : Ref) → Listed a st.connections → id_of a ≡ id_of e.1 → a ≡ e.1)

  -- Cleaning up leaves every object as it was.
  object-reap_object :
      (ref : Ref) (o : Option ProxyConnection) (st : Reactor Router) (a : Ref)
      → object st ref ≡ o
      → object (reap_object routing id_of ref o st) a ≡ object st a
  unfolding reap_object
  object-reap_object ref none st a h = refl
  object-reap_object ref (some c) st a h = elim (ℕ_discrete ref a) [
    | yes e ↦
        ap (object (put ref (cleanup routing (view st c)) st)) (sym e)
        ∙ object-put_self ref (cleanup routing (view st c)) st
        ∙ ap some (cleanup-conn (view st c))
        ∙ sym h
        ∙ ap (object st) e
    | no n ↦ object-put_ne ref a (cleanup routing (view st c)) st n
  ]

  reap_object-kept :
      (ref : Ref) (o : Option ProxyConnection) (st : Reactor Router)
      → ((reap_object routing id_of ref o st).connections ≡ st.connections)
        × ((reap_object routing id_of ref o st).conn_by_id ≡ st.conn_by_id)
        × ((reap_object routing id_of ref o st).deadlines ≡ st.deadlines)
        × ((reap_object routing id_of ref o st).made ≡ st.made)
  unfolding reap_object
  reap_object-kept ref none st = (refl, refl, refl, refl)
  reap_object-kept ref (some c) st = (refl, refl, refl, refl)

  pub reap_one-object :
      (fd : ℕ) (ref : Ref) (st : Reactor Router) (a : Ref)
      → object (reap_one routing id_of (fd, ref) st) a ≡ object st a
  unfolding reap_one
  reap_one-object fd ref st a = object-reap_object ref (object st ref) _ a refl

  pub reap_one-kept :
      (fd : ℕ) (ref : Ref) (st : Reactor Router)
      → ((reap_one routing id_of (fd, ref) st).connections ≡ remove ℕ_discrete fd st.connections)
        × ((reap_one routing id_of (fd, ref) st).conn_by_id
            ≡ remove ℕ_discrete (id_of ref) st.conn_by_id)
        × ((reap_one routing id_of (fd, ref) st).deadlines ≡ st.deadlines)
        × ((reap_one routing id_of (fd, ref) st).made ≡ st.made)
  unfolding reap_one
  reap_one-kept fd ref st = reap_object-kept ref (object st ref) _

  reap_one-Listed :
      (fd : ℕ) (ref a : Ref) (st : Reactor Router)
      → Listed a (reap_one routing id_of (fd, ref) st).connections
      → Listed a st.connections
  reap_one-Listed fd ref a st m =
      remove-Any (λ e. e.1 ≡ a) fd st.connections (rw (reap_one-kept fd ref st).0 at m)

  reap_one-Watches :
      (fd : ℕ) (ref a : Ref) (st : Reactor Router)
      → IsDead st (fd, ref)
      → Listed a st.connections
      → Watches id_of st a
      → Watches id_of (reap_one routing id_of (fd, ref) st) a
  reap_one-Watches fd ref a st d m w =
      let (conns, by_id, heap, made) = reap_one-kept fd ref st in
      elim (ℕ_discrete (id_of ref) (id_of a)) [
        | yes e ↦ done-Watched (id_of a) a _ _ _ (
            subst IsDone (sym (reap_one-object fd ref st a))
              (subst (λ b. IsDone (object st b)) (sym (d.1 a m (sym e))) d.0))
        | no n ↦
            rw (reap_one-object fd ref st a, by_id, heap)
              (Watched-mono (id_of a) a (object st a) st.conn_by_id _ st.deadlines _
                (λ f.
                  rw
                    (
                      lookup-remove ℕ_discrete (id_of ref) (id_of a) st.conn_by_id,
                      if_neg (ℕ_discrete (id_of ref) (id_of a)) n,
                    )
                    f)
                (λ x q. q) w)
      ]

  reap_one-IsTracked :
      (fd : ℕ) (ref : Ref) (st : Reactor Router)
      → IsDead st (fd, ref)
      → IsTracked id_of st
      → IsTracked id_of (reap_one routing id_of (fd, ref) st)
  reap_one-IsTracked fd ref st d v =
      let (conns, by_id, heap, made) = reap_one-kept fd ref st in
      record {
        sorted = rw heap v.sorted;
        watched = λ a m.
            let l = reap_one-Listed fd ref a st m in
            reap_one-Watches fd ref a st d l (v.watched a l);
        older = λ a m. rw made (v.older a (reap_one-Listed fd ref a st m));
        apart =
            λ a b m n. v.apart a b (reap_one-Listed fd ref a st m) (reap_one-Listed fd ref b st n);
      }

  pub reap_each-IsTracked :
      (ds : List (ℕ × Ref)) (st : Reactor Router)
      → All (IsDead st) ds
      → IsTracked id_of st
      → IsTracked id_of (reap_each routing id_of ds st)
  unfolding reap_each
  reap_each-IsTracked [] st d v = v
  reap_each-IsTracked ((fd, ref) ∷ ds) st d v =
      reap_each-IsTracked ds _ (still ds d.1) (reap_one-IsTracked fd ref st d.0 v)
    where
      still :
          (ds : List (ℕ × Ref))
          → All (IsDead st) ds
          → All (IsDead (reap_one routing id_of (fd, ref) st)) ds
      still [] p = tt
      still ((fd', b) ∷ ds) p = (
        (
          subst IsDone (sym (reap_one-object fd ref st b)) p.0.0,
          λ a m. p.0.1 a (reap_one-Listed fd ref a st m),
        ),
        still ds p.1,
      )
