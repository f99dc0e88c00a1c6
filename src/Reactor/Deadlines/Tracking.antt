-- ===== src/Reactor/Deadlines/Tracking.antt =====
-- What the deadline heap owes to each connection, and the operations on deadlines that keep it.
use native.Mathlib.Decide.{ℕ_discrete}
use mathlib.Core.Logic.{if_pos, if_neg}
use l7_load_balancer.Prelude.{
  ℕ, ◌≤◌, ◌<◌, ◌≡◌, ◌≢◌, refl, sym, List, Option, none, some, true, false, arith, inl, inr, ◌⊎◌,
  if_split,
}
use l7_load_balancer.Prelude.Dict.{lookup, lookup-insert}
use l7_load_balancer.Prelude.Heap.{
  Any, IsSorted, heappush-Any, heappush-Any_self, heappush-IsSorted,
}
use l7_load_balancer.Connection.{done, ProxyConnection}
use l7_load_balancer.Connection.Deadline.{is_done}
use l7_load_balancer.Reactor.{Ref, Deadline, deadline_leb, Reactor, object}
use l7_load_balancer.Reactor.Deadlines.{entry, schedule_object, schedule_deadline}
use l7_load_balancer.Reactor.Deadlines.Overdue.{IsDone, is_done-eq}

-- `ref` is a value of `_connections`.
abbrev pub Listed : Ref → List (ℕ × Ref) → Type 0
Listed ref cs = Any (λ e. e.1 ≡ ref) cs

deadline_leb-le : (a b : Deadline) → deadline_leb a b ≡ true → a.deadline ≤ b.deadline
unfolding deadline_leb
deadline_leb-le a b h = ground arith

deadline_leb-ge : (a b : Deadline) → deadline_leb a b ≡ false → b.deadline ≤ a.deadline
unfolding deadline_leb
deadline_leb-ge a b h = ground arith

-- The heap has the entry for the current deadline of `c`, which is found under its `id`.
pub record Awaited (cid : ℕ) (ref : Ref) (c : ProxyConnection) (by_id : List (ℕ × Ref))
    (h : List Deadline) : Type 0 where
  pub found : lookup ℕ_discrete cid by_id ≡ some ref
  pub entered : Any (λ d. d ≡ entry cid c) h

-- A connection is done, or its deadline is awaited.
abbrev pub Watched : ℕ → Ref → Option ProxyConnection → List (ℕ × Ref) → List Deadline → Type 0
Watched cid ref none by_id h = ⊥
Watched cid ref (some c) by_id h = (c.state ≡ done) ⊎ Awaited cid ref c by_id h

pub done-Watched :
    (cid : ℕ) (ref : Ref) (o : Option ProxyConnection) (by_id : List (ℕ × Ref)) (h : List Deadline)
    → IsDone o
    → Watched cid ref o by_id h
done-Watched cid ref none by_id h d = d
done-Watched cid ref (some c) by_id h d = inl d

-- What is awaited stays so as long as its `id` and its entry stay.
pub Watched-mono :
    (cid : ℕ) (ref : Ref) (o : Option ProxyConnection) (by_id by_id' : List (ℕ × Ref))
    (h h' : List Deadline)
    → (lookup ℕ_discrete cid by_id ≡ some ref → lookup ℕ_discrete cid by_id' ≡ some ref)
    → ((d : Deadline) → Any (λ e. e ≡ d) h → Any (λ e. e ≡ d) h')
    → Watched cid ref o by_id h
    → Watched cid ref o by_id' h'
Watched-mono cid ref none by_id by_id' h h' f g w = w
Watched-mono cid ref (some c) by_id by_id' h h' f g (inl d) = inl d
Watched-mono cid ref (some c) by_id by_id' h h' f g (inr a) =
    inr (record { found = f a.found; entered = g (entry cid c) a.entered })

module _ {R : Type 0} (id_of : Ref → ℕ) where
  abbrev pub Watches : Reactor R → Ref → Type 0
  Watches st ref = Watched (id_of ref) ref (object st ref) st.conn_by_id st.deadlines

  -- The heap is in order, each connection in the table is watched and older than the next one,
  -- and no two of them have one `id`.
  pub record IsTracked (st : Reactor R) : Type 0 where
    pub sorted : IsSorted (λ d. d.deadline) st.deadlines
    pub watched : (ref : Ref) → Listed ref st.connections → Watches st ref
    pub older : (ref : Ref) → Listed ref st.connections → ref < st.made
    pub apart :
        (a b : Ref) → Listed a st.connections → Listed b st.connections → id_of a ≡ id_of b → a ≡ b

  schedule_object-IsSorted :
      (ref : Ref) (o : Option ProxyConnection) (st : Reactor R)
      → IsSorted (λ d. d.deadline) st.deadlines
      → IsSorted (λ d. d.deadline) (schedule_object id_of ref o st).deadlines
  unfolding schedule_object
  schedule_object-IsSorted ref none st s = s
  schedule_object-IsSorted ref (some c) st s =
      if_split {A = Reactor R} (λ q. IsSorted (λ d. d.deadline) q.deadlines) (is_done c.state) _ _
        (λ _. s)
        (λ _.
          heappush-IsSorted deadline_leb (λ d. d.deadline) deadline_leb-le deadline_leb-ge
            (entry (id_of ref) c) st.deadlines s)

  schedule_object_self :
      (ref : Ref) (c : ProxyConnection) (st : Reactor R)
      → Watched
          (id_of ref)
          ref
          (some c)
          (schedule_object id_of ref (some c) st).conn_by_id
          (schedule_object id_of ref (some c) st).deadlines
  unfolding schedule_object
  schedule_object_self ref c st =
      if_split {A = Reactor R} (λ q. Watched (id_of ref) ref (some c) q.conn_by_id q.deadlines)
        (is_done c.state) _ _ (λ e. inl (is_done-eq c.state e))
        (λ _. inr (record {
          found = rw (
            lookup-insert ℕ_discrete (id_of ref) (id_of ref) ref st.conn_by_id,
            if_pos (ℕ_discrete (id_of ref) (id_of ref)) refl,
          );
          entered =
              heappush-Any_self deadline_leb (λ d. d ≡ entry (id_of ref) c) (entry (id_of ref) c)
                st.deadlines refl;
        }))

  schedule_object-other :
      (ref a : Ref) (o o' : Option ProxyConnection) (st : Reactor R)
      → id_of ref ≢ id_of a
      → Watched (id_of a) a o' st.conn_by_id st.deadlines
      → Watched
          (id_of a)
          a
          o'
          (schedule_object id_of ref o st).conn_by_id
          (schedule_object id_of ref o st).deadlines
  unfolding schedule_object
  schedule_object-other ref a none o' st n w = w
  schedule_object-other ref a (some c) o' st n w =
      if_split {A = Reactor R} (λ q. Watched (id_of a) a o' q.conn_by_id q.deadlines)
        (is_done c.state) _ _ (λ _. w)
        (λ _.
          Watched-mono (id_of a) a o' st.conn_by_id _ st.deadlines _
            (λ f.
              rw
                (
                  lookup-insert ℕ_discrete (id_of ref) (id_of a) ref st.conn_by_id,
                  if_neg (ℕ_discrete (id_of ref) (id_of a)) n,
                )
                f)
            (λ d. heappush-Any deadline_leb (λ e. e ≡ d) (entry (id_of ref) c) st.deadlines) w)

  schedule_object-kept :
      (ref : Ref) (o : Option ProxyConnection) (st : Reactor R)
      → ((schedule_object id_of ref o st).objects ≡ st.objects)
        × ((schedule_object id_of ref o st).connections ≡ st.connections)
        × ((schedule_object id_of ref o st).made ≡ st.made)
  unfolding schedule_object
  schedule_object-kept ref none st = (refl, refl, refl)
  schedule_object-kept ref (some c) st = ground arith

  schedule_object-IsTracked :
      (ref : Ref) (c : ProxyConnection) (st : Reactor R)
      → object st ref ≡ some c
      → Listed ref st.connections
      → IsSorted (λ d. d.deadline) st.deadlines
      → ((a : Ref) → Listed a st.connections → a ≢ ref → Watches st a)
      → ((a : Ref) → Listed a st.connections → a < st.made)
      → ((a b : Ref)
          → Listed a st.connections
          → Listed b st.connections
          → id_of a ≡ id_of b
          → a ≡ b)
      → IsTracked (schedule_object id_of ref (some c) st)
  schedule_object-IsTracked ref c st o l s w old ap_ids =
      let (objs, conns, made) = schedule_object-kept ref (some c) st in
      record {
        sorted = schedule_object-IsSorted ref (some c) st s;
        watched = λ a m. elim (ℕ_discrete a ref) [
          | yes e ↦ rw (e, objs, o) (schedule_object_self ref c st)
          | no n ↦ rw objs (
              schedule_object-other ref a (some c) (object st a) st
                (λ e. n (sym (ap_ids ref a l (rw conns at m) e))) (w a (rw conns at m) n))
        ];
        older = λ a m. rw made (old a (rw conns at m));
        apart = λ a b m n. ap_ids a b (rw conns at m) (rw conns at n);
      }

  -- Scheduling a connection makes up for whatever has become of it.
  pub schedule_deadline-IsTracked :
      (ref : Ref) (c : ProxyConnection) (st : Reactor R)
      → object st ref ≡ some c
      → Listed ref st.connections
      → IsSorted (λ d. d.deadline) st.deadlines
      → ((a : Ref) → Listed a st.connections → a ≢ ref → Watches st a)
      → ((a : Ref) → Listed a st.connections → a < st.made)
      → ((a b : Ref)
          → Listed a st.connections
          → Listed b st.connections
          → id_of a ≡ id_of b
          → a ≡ b)
      → IsTracked (schedule_deadline id_of ref st)
  unfolding schedule_deadline
  schedule_deadline-IsTracked ref c st o l s w old ap_ids =
      rw o (schedule_object-IsTracked ref c st o l s w old ap_ids)
