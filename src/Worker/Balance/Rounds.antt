-- ===== src/Worker/Balance/Rounds.antt =====
-- The books of a worker through its deadlines and its sweep of dead connections.
use l7_load_balancer.Prelude.{
  ℕ, ◌≡◌, refl, sym, subst, List, [], ◌∷◌, Option, none, some, arith, if_split, ltb,
}
use l7_load_balancer.Backend.{Backend}
use l7_load_balancer.Router.Routing.{Routing, Accounts}
use l7_load_balancer.Connection.{ProxyConnection, Sys}
use l7_load_balancer.Connection.Finish.{cleanup, handle_timeout}
use l7_load_balancer.Connection.Events.Requests
use l7_load_balancer.Reactor.{Ref, Deadline, Reactor, object, view, put}
use l7_load_balancer.Reactor.Deadlines.{
  now, tick, current, expire_current, expire_entry, expire_from, expire_timeouts,
}
use l7_load_balancer.Reactor.Deadlines.Overdue.{current-object}
use l7_load_balancer.Reactor.Loop.{reap_object, reap_one, reap_each}
use l7_load_balancer.Worker.Balance.{IsBalanced, others, Books, view-Books, put-IsBalanced, regard}

module _ (routing : Routing) (accounts : Accounts routing) (b : Backend) (k : ℕ) where
  open routing use {Router, IsValid}

  expire_current-IsBalanced :
      (o : Option (Ref × ProxyConnection)) (st : Reactor Router)
      → ((ref : Ref) (c : ProxyConnection) → o ≡ some (ref, c) → object st ref ≡ some c)
      → IsBalanced routing accounts b k st
      → IsBalanced routing accounts b k (expire_current routing o st)
  unfolding expire_current
  expire_current-IsBalanced none st there v = v
  expire_current-IsBalanced (some (ref, c)) st there v =
      put-IsBalanced routing accounts b k ref c (handle_timeout routing (view st c)) st
        (there ref c refl) v
        (unfold handle_timeout in
          Requests.expire-Books routing accounts b (others routing accounts b k c st) c.state
            (view st c) (view-Books routing accounts b k ref c st (there ref c refl) v))

  expire_from-IsBalanced :
      (t : ℕ) (h : List Deadline) (st : Reactor Router)
      → IsBalanced routing accounts b k st
      → IsBalanced routing accounts b k (expire_from routing t h st)
  unfolding expire_from expire_entry
  expire_from-IsBalanced t [] st v = regard routing accounts b k st _ refl refl refl v
  expire_from-IsBalanced t (d ∷ h) st v =
      let next = expire_current-IsBalanced (current st d) st (current-object st d) v in
      if_split {A = Reactor Router} (IsBalanced routing accounts b k) (ltb t d.deadline) _ _
        (λ _. regard routing accounts b k st _ refl refl refl v)
        (λ _. expire_from-IsBalanced t h _ next)

  pub expired-IsBalanced :
      (st : Reactor Router)
      → IsBalanced routing accounts b k st
      → IsBalanced routing accounts b k (expire_timeouts routing st)
  unfolding expire_timeouts
  expired-IsBalanced st v =
      expire_from-IsBalanced (now st) st.deadlines (tick st)
        (regard routing accounts b k st _ refl refl refl v)

  cleanup-same :
      (s : Sys Router) → cleanup routing s ≡ record s { world = (cleanup routing s).world }
  unfolding cleanup
  cleanup-same s = ground arith

  reap_object-IsBalanced :
      (id_of : Ref → ℕ) (ref : Ref) (o : Option ProxyConnection) (st : Reactor Router)
      → object st ref ≡ o
      → IsBalanced routing accounts b k st
      → IsBalanced routing accounts b k (reap_object routing id_of ref o st)
  unfolding reap_object
  reap_object-IsBalanced id_of ref none st h v = v
  reap_object-IsBalanced id_of ref (some c) st h v =
      let s : Sys Router = cleanup routing (view st c) in
      let q = view-Books routing accounts b k ref c st h v in
      let kept : Books routing accounts b k c st (record (view st c) { world = s.world }) = record {
        account = q.account;
        fresh = q.fresh;
      } in
      regard routing accounts b k (put ref s st) _ refl refl refl (
        put-IsBalanced routing accounts b k ref c s st h v
          (subst (Books routing accounts b k c st) (sym (cleanup-same (view st c))) kept))

  pub reap_each-IsBalanced :
      (id_of : Ref → ℕ) (ds : List (ℕ × Ref)) (st : Reactor Router)
      → IsBalanced routing accounts b k st
      → IsBalanced routing accounts b k (reap_each routing id_of ds st)
  unfolding reap_each reap_one
  reap_each-IsBalanced id_of [] st v = v
  reap_each-IsBalanced id_of ((fd, ref) ∷ ds) st v = reap_each-IsBalanced id_of ds _ (
      reap_object-IsBalanced id_of ref (object st ref) _ refl
        (regard routing accounts b k st _ refl refl refl v))
