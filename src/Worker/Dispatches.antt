-- ===== src/Worker/Dispatches.antt =====
-- The books of one connection through `_dispatch`.
use mathlib.Core.Option
use l7_load_balancer.Prelude.{
  ℕ, ◌≡◌, sym, subst, arith, Option, none, some, Bool, true, false, ◌&&◌, if_split,
}
use l7_load_balancer.Backend.{Backend}
use l7_load_balancer.Router.Routing.{Routing, Accounts}
use l7_load_balancer.Connection.{State, Sys}
use l7_load_balancer.Connection.Events.{
  Event, client_readable, client_writable, backend_readable, backend_writable, handle,
}
use l7_load_balancer.Connection.Events.Sound
use l7_load_balancer.Connection.Events.Released
use l7_load_balancer.Reactor.{Ref, Sock}
use l7_load_balancer.Reactor.Dispatch.{
  Local, Mask, Answers, flush_old, flush_pending_unregister, transition, is_client, is_backend,
  ◌>>=◌, after_handler, fire, dispatch,
}

module _ (routing : Routing) (accounts : Accounts routing) (b : Backend) (k : ℕ) where
  open routing use {Router}

  abbrev pub Books : Sys Router → Type 0
  Books s = Sound.Sound routing accounts b k s

  -- The same where a handler may never return.
  abbrev pub OnSome : Option (Local Router) → Type 0
  OnSome none = Unit
  OnSome (some l) = Books l.sys

  bind-OnSome :
      (o : Option (Local Router)) (f : Local Router → Option (Local Router))
      → OnSome o
      → ((l : Local Router) → Books l.sys → OnSome (f l))
      → OnSome (o >>= f)
  bind-OnSome none f q g = tt
  bind-OnSome (some l) f q g = g l q

  flush_old-Books :
      (ref : Ref) (old : Option ℕ) (l : Local Router)
      → Books l.sys
      → Books (flush_old ref old l).sys
  unfolding flush_old
  flush_old-Books ref none l q = q
  flush_old-Books ref (some n) l q = record { account = q.account; fresh = q.fresh }

  flush-Books :
      (ref : Ref) (l : Local Router) → Books l.sys → Books (flush_pending_unregister ref l).sys
  unfolding flush_pending_unregister
  flush-Books ref l q = flush_old-Books ref l.sys.conn.pending_backend_unregister l q

  transition-sys :
      (ref : Ref) (prev : State) (l : Local Router)
      → (transition ref prev l).sys ≡ (flush_pending_unregister ref l).sys
  unfolding transition
  transition-sys ref prev l = ground arith

  transition-Books :
      (ref : Ref) (prev : State) (l : Local Router)
      → Books l.sys
      → Books (transition ref prev l).sys
  transition-Books ref prev l q =
      subst Books (sym (transition-sys ref prev l)) (flush-Books ref l q)

  fire-Books :
      (ref : Ref) (go : Bool) (e : Event) (l : Local Router)
      → Books l.sys
      → OnSome (fire routing ref go e l)
  unfolding fire
  fire-Books ref false e l q = q
  fire-Books ref true e l q =
      if_split OnSome l.sys.world.raised _ _ (λ _. q)
        (λ _.
          handled (handle routing e l.sys) (Released.handle-Books routing accounts b k e l.sys q))
    where
      handled :
          (o : Option (Sys Router))
          → Released.OnSome routing accounts b k o
          → OnSome (Option.map (after_handler routing ref l) o)
      handled none h = tt
      handled (some s) h =
          if_split {A = Local Router} (λ l'. Books l'.sys) s.world.raised _ _ (λ _. h)
            (λ _. transition-Books ref l.sys.conn.state (record l { sys = s }) h)

  -- `_dispatch` keeps the books.
  pub dispatch-Books :
      (ref : Ref) (sock : Sock) (mask : Mask) (a : Answers) (l : Local Router)
      → Books l.sys
      → OnSome (dispatch routing ref sock mask a l)
  unfolding dispatch
  dispatch-Books ref sock mask a l q =
      let at_client = is_client sock l.sys.conn in
      let at_backend = is_backend sock l.sys.conn in
      bind-OnSome (fire routing ref (at_client && mask.readable) (client_readable a.client_recv) l)
        _ (fire-Books ref _ (client_readable a.client_recv) l q)
        (λ l1 q1.
          bind-OnSome
            (fire routing ref (at_client && mask.writable) (client_writable a.client_send) l1) _
            (fire-Books ref _ (client_writable a.client_send) l1 q1)
            (λ l2 q2.
              bind-OnSome
                (fire routing ref (at_backend && mask.readable) (backend_readable a.backend_recv)
                  l2)
                _ (fire-Books ref _ (backend_readable a.backend_recv) l2 q2)
                (λ l3 q3.
                  bind-OnSome
                    (fire routing ref (at_backend && mask.writable)
                      (backend_writable a.so_error a.backend_send) l3)
                    _ (fire-Books ref _ (backend_writable a.so_error a.backend_send) l3 q3)
                    (λ l4 q4.
                      if_split {A = Local Router} (λ l'. Books l'.sys) l4.sys.world.raised _ _
                        (λ _. q4) (λ _. flush-Books ref l4 q4)))))
