-- ===== src/Reactor/Deadlines/Expiry.antt =====
-- The loops over the deadline heap keep what it owes to each connection.
use l7_load_balancer.Prelude.{
  ℕ, ◌≡◌, refl, sym, ap, ◌∙◌, subst, List, [], ◌∷◌, Option, none, some, inl, inr, Option-cases, ltb,
  if_split,
}
use l7_load_balancer.Prelude.Heap.{IsSorted}
use l7_load_balancer.Router.Routing.{Routing}
use l7_load_balancer.Connection.{done, ProxyConnection}
use l7_load_balancer.Reactor.{Ref, Deadline, Reactor, object}
use l7_load_balancer.Reactor.Deadlines.{
  now, tick, drain, select_timeout, current, expire_current, expire_entry, expire_from,
  expire_timeouts,
}
use l7_load_balancer.Reactor.Deadlines.Overdue.{
  State-discrete, IsDone, Fate, current-entry, expire_current-Fate, expire_current-conn_by_id,
  expire_current-IsDone, IsDone-stays,
}
use l7_load_balancer.Reactor.Deadlines.Tracking.{Watched, done-Watched, IsTracked}

module _ (routing : Routing) where
  open routing use {Router}

  expire_current-kept :
      (o : Option (Ref × ProxyConnection)) (st : Reactor Router)
      → ((expire_current routing o st).connections ≡ st.connections)
        × ((expire_current routing o st).made ≡ st.made)
  unfolding expire_current
  expire_current-kept none st = (refl, refl)
  expire_current-kept (some (a, c)) st = (refl, refl)

  expire_from-kept :
      (t : ℕ) (h : List Deadline) (st : Reactor Router)
      → ((expire_from routing t h st).connections ≡ st.connections)
        × ((expire_from routing t h st).made ≡ st.made)
  unfolding expire_from expire_entry
  expire_from-kept t [] st = (refl, refl)
  expire_from-kept t (x ∷ h) st =
      let q = expire_current-kept (current st x) st in
      let r = expire_from-kept t h (expire_current routing (current st x) st) in
      if_split {A = Reactor Router} (λ s. (s.connections ≡ st.connections) × (s.made ≡ st.made))
        (ltb t x.deadline) _ _ (λ _. (refl, refl)) (λ _. (r.0 ∙ q.0, r.1 ∙ q.1))

  expire_from-IsSorted :
      (t : ℕ) (h : List Deadline) (st : Reactor Router)
      → IsSorted (λ d. d.deadline) h
      → IsSorted (λ d. d.deadline) (expire_from routing t h st).deadlines
  unfolding expire_from
  expire_from-IsSorted t [] st s = tt
  expire_from-IsSorted t (x ∷ h) st s =
      if_split {A = Reactor Router} (λ q. IsSorted (λ d. d.deadline) q.deadlines) (ltb t x.deadline)
        _ _ (λ _. s) (λ _. expire_from-IsSorted t h _ s.1)

  -- The head of the heap is dealt with: what it was owed to is done, and the rest is still owed.
  after_head :
      (cid : ℕ) (ref : Ref) (x : Deadline) (h : List Deadline) (st : Reactor Router)
      (o : Option ProxyConnection)
      → object st ref ≡ o
      → Fate routing o (object (expire_current routing (current st x) st) ref)
      → Watched cid ref o st.conn_by_id (x ∷ h)
      → Watched cid ref
          (object (expire_current routing (current st x) st) ref)
          (expire_current routing (current st x) st).conn_by_id
          h
  after_head cid ref x h st o e (inr d) w = done-Watched cid ref _ _ h d
  after_head cid ref x h st none e (inl f) w = absurd w
  after_head cid ref x h st (some c) e (inl f) (inl d) = rw f (inl d)
  after_head cid ref x h st (some c) e (inl f) (inr a) = elim (State-discrete c.state done) [
    | yes d ↦ rw f (inl d)
    | no live ↦ elim a.entered [
      | inl same ↦ done-Watched cid ref _ _ h (
          subst (λ q. IsDone (object (expire_current routing q st) ref))
            (sym (ap (current st) same ∙ current-entry cid ref c st e live a.found))
            (expire_current-IsDone routing ref c st))
      | inr there ↦
          rw (f, expire_current-conn_by_id routing (current st x) st)
            (inr (record { found = a.found; entered = there }))
    ]
  ]

  expire_from-Watched :
      (t cid : ℕ) (ref : Ref) (h : List Deadline) (st : Reactor Router)
      → Watched cid ref (object st ref) st.conn_by_id h
      → Watched cid ref
          (object (expire_from routing t h st) ref)
          (expire_from routing t h st).conn_by_id
          (expire_from routing t h st).deadlines
  unfolding expire_from expire_entry
  expire_from-Watched t cid ref [] st w = w
  expire_from-Watched t cid ref (x ∷ h) st w =
      if_split {A = Reactor Router} (λ q. Watched cid ref (object q ref) q.conn_by_id q.deadlines)
        (ltb t x.deadline) _ _ (λ _. w)
        (λ _. expire_from-Watched t cid ref h _ (
          after_head cid ref x h st (object st ref) refl
            (expire_current-Fate routing (current st x) st ref) w))

  Fate-trans :
      (o o' o'' : Option ProxyConnection)
      → Fate routing o o'
      → (IsDone o' → IsDone o'')
      → Fate routing o' o''
      → Fate routing o o''
  Fate-trans o o' o'' f g (inr d) = inr d
  Fate-trans o o' o'' (inr d) g (inl e) = inr (g d)
  Fate-trans o o' o'' (inl d) g (inl e) = inl (e ∙ d)

  expire_from-Fate :
      (t : ℕ) (h : List Deadline) (st : Reactor Router) (ref : Ref)
      → Fate routing (object st ref) (object (expire_from routing t h st) ref)
  unfolding expire_from expire_entry
  expire_from-Fate t [] st ref = inl refl
  expire_from-Fate t (x ∷ h) st ref =
      if_split {A = Reactor Router} (λ q. Fate routing (object st ref) (object q ref))
        (ltb t x.deadline) _ _ (λ _. inl refl)
        (λ _.
          Fate-trans _ _ _ (expire_current-Fate routing (current st x) st ref)
            (IsDone-stays routing t h _ ref) (expire_from-Fate t h _ ref))

  -- `_expire_timeouts` leaves a connection as it was, or done, and the table as it was.
  pub expire_timeouts-Fate :
      (st : Reactor Router) (ref : Ref)
      → Fate routing (object st ref) (object (expire_timeouts routing st) ref)
  unfolding expire_timeouts
  expire_timeouts-Fate st ref = expire_from-Fate (now st) st.deadlines (tick st) ref

  pub connections-expire_timeouts :
      (st : Reactor Router) → (expire_timeouts routing st).connections ≡ st.connections
  unfolding expire_timeouts
  connections-expire_timeouts st = (expire_from-kept (now st) st.deadlines (tick st)).0

  module _ (id_of : Ref → ℕ) where
    pub expire_timeouts-IsTracked :
        (st : Reactor Router) → IsTracked id_of st → IsTracked id_of (expire_timeouts routing st)
    unfolding expire_timeouts
    expire_timeouts-IsTracked st v =
        let k = expire_from-kept (now st) st.deadlines (tick st) in
        record {
          sorted = expire_from-IsSorted (now st) st.deadlines (tick st) v.sorted;
          watched = λ a m.
              expire_from-Watched (now st) (id_of a) a st.deadlines (tick st)
                (v.watched a (rw k.0 at m));
          older = λ a m. rw k.1 (v.older a (rw k.0 at m));
          apart = λ a b m n. v.apart a b (rw k.0 at m) (rw k.0 at n);
        }

module _ {R : Type 0} (id_of : Ref → ℕ) where
  drain-IsSorted :
      (h : List Deadline) (st : Reactor R)
      → IsSorted (λ d. d.deadline) h
      → IsSorted (λ d. d.deadline) (drain st h)
  unfolding drain
  drain-IsSorted [] st s = s
  drain-IsSorted (x ∷ h) st s = elim (Option-cases (current st x)) [
    | inl e ↦ rw (e, drain) (drain-IsSorted h st s.1)
    | inr (q, e) ↦ rw (e, drain) s
  ]

  -- A stale entry is owed to nobody.
  drain-Watched :
      (cid : ℕ) (ref : Ref) (h : List Deadline) (st : Reactor R)
      → Watched cid ref (object st ref) st.conn_by_id h
      → Watched cid ref (object st ref) st.conn_by_id (drain st h)
  unfolding drain
  drain-Watched cid ref [] st w = w
  drain-Watched cid ref (x ∷ h) st w = elim (Option-cases (current st x)) [
    | inl e ↦ rw (e, drain) (drain-Watched cid ref h st (tail (object st ref) refl e w))
    | inr (q, e) ↦ rw (e, drain) w
  ]
    where
      tail :
          (o : Option ProxyConnection)
          → object st ref ≡ o
          → current st x ≡ none
          → Watched cid ref o st.conn_by_id (x ∷ h)
          → Watched cid ref o st.conn_by_id h
      tail none e stale w = w
      tail (some c) e stale (inl d) = inl d
      tail (some c) e stale (inr a) = elim (State-discrete c.state done) [
        | yes d ↦ inl d
        | no live ↦ elim a.entered [
          | inl same ↦
              cc (sym (ap (current st) same ∙ current-entry cid ref c st e live a.found) ∙ stale)
          | inr there ↦ inr (record { found = a.found; entered = there })
        ]
      ]

  pub select_timeout-IsTracked :
      (st : Reactor R) → IsTracked id_of st → IsTracked id_of (select_timeout st).1
  unfolding select_timeout
  select_timeout-IsTracked st v = record {
    sorted = drain-IsSorted st.deadlines (tick st) v.sorted;
    watched = λ a m. drain-Watched (id_of a) a st.deadlines (tick st) (v.watched a m);
    older = v.older;
    apart = v.apart;
  }
