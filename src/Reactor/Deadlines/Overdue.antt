-- ===== src/Reactor/Deadlines/Overdue.antt =====
-- The timeouts that `_expire_timeouts` finds.
use native.Mathlib.Decide.{ℕ_discrete}
use l7_load_balancer.Prelude.{
  ℕ, ◌≤◌, ◌≡◌, ◌≢◌, refl, sym, ap, ◌∙◌, subst, List, [], ◌∷◌, Option, none, some, true, false,
  arith, inl, inr, ◌⊎◌, Bool-cases, ltb, ltb→lt, if_split, ◌==◌,
}
use mathlib.Core.Logic.{if_pos, if_neg}
use l7_load_balancer.Prelude.Dict.{lookup, lookup-insert}
use l7_load_balancer.Prelude.Heap.{Any, All, IsSorted}
use l7_load_balancer.Bytes.{Bytes}
use l7_load_balancer.Router.Routing.{Routing}
use l7_load_balancer.Connection.{State, done, ProxyConnection, Sys}
use l7_load_balancer.Connection.Deadline.{is_done}
use l7_load_balancer.Connection.Finish.{finish, send_error, expire, handle_timeout}
use l7_load_balancer.Reactor.{Ref, Deadline, Reactor, object, view, put}
use l7_load_balancer.Reactor.Deadlines.{
  now, tick, entry, current_object, current_ref, current, expire_current, expire_entry, expire_from,
  expire_timeouts,
}

-- The object is there, and its connection is done.
abbrev pub IsDone : Option ProxyConnection → Type 0
IsDone none = ⊥
IsDone (some c) = c.state ≡ done

pub is_done-eq : (st : State) → is_done st ≡ true → st ≡ done
is_done-eq State.reading_request h = cc
is_done-eq State.connecting_to_backend h = cc
is_done-eq State.forwarding_request h = cc
is_done-eq State.reading_response h = cc
is_done-eq State.forwarding_response h = cc
is_done-eq State.done h = refl

pub State-discrete : Discrete State
State-discrete = hlevel

some_inj :
    {A B : Type 0} (a c : A) (b d : B)
    → ◌≡◌ {A = Option (A × B)} (some (a, b)) (some (c, d))
    → (a ≡ c) × (some b ≡ some d)
some_inj a c b d h = (cc, cc)

current_object-some :
    (d : Deadline) (a ref : Ref) (o : Option ProxyConnection) (c : ProxyConnection)
    → current_object d a o ≡ some (ref, c)
    → (a ≡ ref) × (o ≡ some c)
unfolding current_object
current_object-some d a ref none c h = cc
current_object-some d a ref (some x) c h = elim (Bool-cases (is_done x.state)) [
  | inl e ↦ cc (rw e at h)
  | inr e ↦ elim (Bool-cases (d.gen == x.deadline_gen)) [
    | inl f ↦ some_inj a ref x c (rw (e, f) at h)
    | inr f ↦ cc (rw (e, f) at h)
  ]
]

pub current-object :
    {R : Type 0} (st : Reactor R) (d : Deadline) (ref : Ref) (c : ProxyConnection)
    → current st d ≡ some (ref, c)
    → object st ref ≡ some c
unfolding current current_ref
current-object st d ref c h = known (lookup ℕ_discrete d.cid st.conn_by_id) h
  where
    known : (o : Option Ref) → current_ref st d o ≡ some (ref, c) → object st ref ≡ some c
    known none h = cc
    known (some a) h =
        let (e, f) = current_object-some d a ref (object st a) c h in ap (object st) (sym e) ∙ f

module _ {R : Type 0} where
  -- The entry of a live connection leads to it.
  pub current-entry :
      (cid : ℕ) (ref : Ref) (c : ProxyConnection) (st : Reactor R)
      → object st ref ≡ some c
      → c.state ≢ done
      → lookup ℕ_discrete cid st.conn_by_id ≡ some ref
      → current st (entry cid c) ≡ some (ref, c)
  unfolding current current_ref current_object
  current-entry cid ref c st o live there =
      rw (there, current_ref, o, current_object, not_done) (ground arith)
    where
      not_done : is_done c.state ≡ false
      not_done = elim (Bool-cases (is_done c.state)) [
        | inl e ↦ absurd (live (is_done-eq c.state e))
        | inr e ↦ e
      ]

module _ (routing : Routing) where
  open routing use {Router}

  finish-done : (s : Sys Router) → (finish routing s).conn.state ≡ done
  unfolding finish
  finish-done s = refl

  send_error-done :
      (code : ℕ) (reason : Bytes) (s : Sys Router)
      → (send_error routing code reason s).conn.state ≡ done
  unfolding send_error
  send_error-done code reason s = finish-done _

  expire-done :
      (st : State) (s : Sys Router) → s.conn.state ≡ st → (expire routing st s).conn.state ≡ done
  unfolding expire
  expire-done State.done s h = h
  expire-done State.reading_request s h = send_error-done _ _ s
  expire-done _ s h =
      if_split {A = Sys Router} (λ q. q.conn.state ≡ done) s.conn.client_bytes_sent _ _ (λ _. refl)
        (λ _. send_error-done _ _ s)

  pub handle_timeout-done : (s : Sys Router) → (handle_timeout routing s).conn.state ≡ done
  unfolding handle_timeout
  handle_timeout-done s = expire-done s.conn.state s refl

  -- What becomes of an object: it stays, or its connection is done.
  abbrev pub Fate : Option ProxyConnection → Option ProxyConnection → Type 0
  Fate o o' = (o' ≡ o) ⊎ IsDone o'

  object-put :
      (a : Ref) (s : Sys Router) (st : Reactor Router) (ref : Ref)
      → s.conn.state ≡ done
      → Fate (object st ref) (object (put a s st) ref)
  object-put a s st ref d = elim (ℕ_discrete a ref) [
    | yes e ↦
        inr (rw (lookup-insert ℕ_discrete a ref s.conn st.objects, if_pos (ℕ_discrete a ref) e) d)
    | no n ↦
        inl (rw (lookup-insert ℕ_discrete a ref s.conn st.objects, if_neg (ℕ_discrete a ref) n))
  ]

  pub expire_current-Fate :
      (o : Option (Ref × ProxyConnection)) (st : Reactor Router) (ref : Ref)
      → Fate (object st ref) (object (expire_current routing o st) ref)
  unfolding expire_current
  expire_current-Fate none st ref = inl refl
  expire_current-Fate (some (a, c)) st ref =
      object-put a (handle_timeout routing (view st c)) st ref (handle_timeout-done (view st c))

  pub expire_current-conn_by_id :
      (o : Option (Ref × ProxyConnection)) (st : Reactor Router)
      → (expire_current routing o st).conn_by_id ≡ st.conn_by_id
  unfolding expire_current
  expire_current-conn_by_id none st = refl
  expire_current-conn_by_id (some (a, c)) st = refl

  pub IsDone-stays :
      (t : ℕ) (h : List Deadline) (st : Reactor Router) (ref : Ref)
      → IsDone (object st ref)
      → IsDone (object (expire_from routing t h st) ref)
  unfolding expire_from expire_entry
  IsDone-stays t [] st ref d = d
  IsDone-stays t (x ∷ h) st ref d =
      if_split {A = Reactor Router} (λ q. IsDone (object q ref)) (ltb t x.deadline) _ _ (λ _. d)
        (λ _. IsDone-stays t h _ ref (kept (expire_current-Fate (current st x) st ref)))
    where
      kept :
          Fate (object st ref) (object (expire_current routing (current st x) st) ref)
          → IsDone (object (expire_current routing (current st x) st) ref)
      kept (inl e) = subst IsDone (sym e) d
      kept (inr e) = e

  pub expire_current-IsDone :
      (ref : Ref) (c : ProxyConnection) (st : Reactor Router)
      → IsDone (object (expire_current routing (some (ref, c)) st) ref)
  unfolding expire_current
  expire_current-IsDone ref c st =
      rw
        (
          lookup-insert ℕ_discrete ref ref (handle_timeout routing (view st c)).conn st.objects,
          if_pos (ℕ_discrete ref ref) refl,
        )
        (handle_timeout-done (view st c))

  expires :
      (t cid : ℕ) (ref : Ref) (c : ProxyConnection) (h : List Deadline) (st : Reactor Router)
      → object st ref ≡ some c
      → c.state ≢ done
      → lookup ℕ_discrete cid st.conn_by_id ≡ some ref
      → c.deadline ≤ t
      → IsSorted (λ d. d.deadline) h
      → Any (λ d. d ≡ entry cid c) h
      → IsDone (object (expire_from routing t h st) ref)
  unfolding expire_from expire_entry
  expires t cid ref c [] st o live there late s a = absurd a
  expires t cid ref c (x ∷ h) st o live there late s (inl e) =
      if_split {A = Reactor Router} (λ q. IsDone (object q ref)) (ltb t x.deadline) _ _
        (λ b. absurd (omega (arith, ltb→lt t x.deadline b, ap (λ d. d.deadline) e)))
        (λ _. IsDone-stays t h _ ref (
          subst (λ o. IsDone (object (expire_current routing o st) ref))
            (sym (ap (current st) e ∙ current-entry cid ref c st o live there))
            (expire_current-IsDone ref c st)))
  expires t cid ref c (x ∷ h) st o live there late s (inr a) =
      if_split {A = Reactor Router} (λ q. IsDone (object q ref)) (ltb t x.deadline) _ _
        (λ b. absurd (omega (arith, ltb→lt t x.deadline b, later h s.0 a)))
        (λ _.
          rest (expire_current-Fate (current st x) st ref) (λ q b. expires t cid ref c h q b live))
    where
      later :
          (h : List Deadline)
          → All (λ y. x.deadline ≤ y.deadline) h
          → Any (λ d. d ≡ entry cid c) h
          → x.deadline ≤ c.deadline
      later [] p q = absurd q
      later (y ∷ ys) p (inl q) = omega (arith, p.0, ap (λ d. d.deadline) q)
      later (y ∷ ys) p (inr q) = later ys p.1 q

      rest :
          Fate (object st ref) (object (expire_current routing (current st x) st) ref)
          → ((q : Reactor Router)
              → object q ref ≡ some c
              → lookup ℕ_discrete cid q.conn_by_id ≡ some ref
              → c.deadline ≤ t
              → IsSorted (λ d. d.deadline) h
              → Any (λ d. d ≡ entry cid c) h
              → IsDone (object (expire_from routing t h q) ref))
          → IsDone (object (expire_from routing t h (expire_current routing (current st x) st)) ref)
      rest (inl same) step =
          step _ (same ∙ o)
            (ap (lookup ℕ_discrete cid) (expire_current-conn_by_id (current st x) st) ∙ there) late
            s.1 a
      rest (inr d) step = IsDone-stays t h _ ref d

  -- With the heap of deadlines in order, a connection that its id leads to, whose present entry is
  -- in the heap and whose deadline has come, is done after expire_timeouts, whatever else is in
  -- the heap.
  pub expire_timeouts-overdue :
      (cid : ℕ) (ref : Ref) (c : ProxyConnection) (st : Reactor Router)
      → IsSorted (λ d. d.deadline) st.deadlines
      → object st ref ≡ some c
      → lookup ℕ_discrete cid st.conn_by_id ≡ some ref
      → Any (λ d. d ≡ entry cid c) st.deadlines
      → c.deadline ≤ now st
      → IsDone (object (expire_timeouts routing st) ref)
  unfolding expire_timeouts
  expire_timeouts-overdue cid ref c st s o there a late = elim (State-discrete c.state done) [
    | yes e ↦ IsDone-stays (now st) st.deadlines (tick st) ref (subst IsDone (sym o) e)
    | no n ↦ expires (now st) cid ref c st.deadlines (tick st) o n there late s a
  ]
