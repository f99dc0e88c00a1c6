-- ===== src/Reactor/Dispatch.antt =====
-- `_dispatch`, `_transition` and `_flush_pending_unregister`: one connection and the selector.
use mathlib.Core.Option
use l7_load_balancer.Prelude.{
  ℕ, Option, none, some, Bool, true, false, ◌&&◌, if◌then◌else◌, and_then, ◌==◌,
}
use l7_load_balancer.Router.Routing.{Routing}
use l7_load_balancer.Connection.{
  State, connecting_to_backend, forwarding_request, reading_response, forwarding_response,
  ProxyConnection, Sys, Recv, Send, on_conn,
}
use l7_load_balancer.Connection.Events.{
  Event, client_readable, client_writable, backend_readable, backend_writable, handle,
}
use l7_load_balancer.Reactor.{
  Ref, Sock, client, backend, Interest, event_read, event_write, Target, Registered,
}
use l7_load_balancer.Reactor.Selector.{register, modify, unregister, or_else}

unfoldable pub State-discrete : Discrete State
State-discrete = hlevel

-- A connection at work: what its methods see, and the registrations.
pub record Local (R : Type 0) : Type 0 where
  pub sys : Sys R
  pub sel : Registered

-- `mask`
pub record Mask : Type 0 where
  pub readable : Bool
  pub writable : Bool

-- What the calls on the sockets return, if the handlers make them.
pub record Answers : Type 0 where
  pub client_recv : Recv
  pub client_send : Send
  pub backend_recv : Recv
  pub so_error : ℕ
  pub backend_send : Send

-- `try: self._sel.unregister(sock)`
abbrev pub forget : Sock → Registered → Registered
forget s sel = or_else (unregister s sel) sel

-- `register`, and `modify` if the socket was there.
abbrev pub register_or_modify : Sock → Interest → Ref → Registered → Registered
register_or_modify s i ref sel =
    or_else (register s i (Target.conn ref) sel) (or_else (modify s i (Target.conn ref) sel) sel)

abbrev pub modify_or_register : Sock → Interest → Ref → Registered → Registered
modify_or_register s i ref sel =
    or_else (modify s i (Target.conn ref) sel) (or_else (register s i (Target.conn ref) sel) sel)

abbrev pub on_backend : Option ℕ → (Sock → Registered → Registered) → Registered → Registered
on_backend none f sel = sel
on_backend (some n) f sel = f (backend n) sel

-- The states in which the backend's socket waits to be written to.
abbrev pub awaits_write : State → Bool
awaits_write connecting_to_backend = true
awaits_write forwarding_request = true
awaits_write _ = false

-- The registrations of a connection that has come into a state.
unfoldable pub enter : Ref → State → ProxyConnection → Registered → Registered
enter ref connecting_to_backend c sel =
    on_backend c.backend_sock (λ s r. or_else (register s event_write (Target.conn ref) r) r) sel
enter ref forwarding_request c sel =
    on_backend c.backend_sock (λ s. modify_or_register s event_write ref) sel
enter ref reading_response c sel =
    on_backend c.backend_sock (λ s r. or_else (modify s event_read (Target.conn ref) r) r) sel
enter ref forwarding_response c sel =
    on_backend c.backend_sock forget
      (or_else (modify (client c.client_sock) event_write (Target.conn ref) sel) sel)
enter ref _ c sel = sel

-- The keys of the registrations are socket objects, where the selector of the source has descriptors.
module _ {R : Type 0} where
  unfoldable pub flush_old : Ref → Option ℕ → Local R → Local R
  flush_old ref none l = l
  flush_old ref (some old) l =
      let freed = forget (backend old) l.sel in
      record l {
        sys = on_conn (λ c. record c { pending_backend_unregister = none }) l.sys;
        sel =
            if awaits_write l.sys.conn.state
            then on_backend l.sys.conn.backend_sock (λ s. register_or_modify s event_write ref)
                freed
            else freed;
      }

  unfoldable pub flush_pending_unregister : Ref → Local R → Local R
  unfolding flush_old
  flush_pending_unregister ref l = flush_old ref l.sys.conn.pending_backend_unregister l

  unfoldable pub transition : Ref → State → Local R → Local R
  unfolding enter
  transition ref prev_state l =
      let l' = flush_pending_unregister ref l in
      elim (State-discrete l'.sys.conn.state prev_state) [
        | yes _ ↦ l'
        | no _ ↦ record l' { sel = enter ref l'.sys.conn.state l'.sys.conn l'.sel }
      ]

-- `sock is conn.client_sock` and `sock is conn.backend_sock`
abbrev pub is_client : Sock → ProxyConnection → Bool
is_client (client n) c = n == c.client_sock
is_client _ c = false

abbrev same_socket : ℕ → Option ℕ → Bool
same_socket n none = false
same_socket n (some m) = n == m

abbrev pub is_backend : Sock → ProxyConnection → Bool
is_backend (backend n) c = same_socket n c.backend_sock
is_backend _ c = false

infixl 5 ◌>>=◌
abbrev pub ◌>>=◌ : {A B : Type 0} → Option A → (A → Option B) → Option B
o >>= f = and_then o f

module _ (routing : Routing) (ref : Ref) where
  open routing use {Router}

  abbrev pub after_handler : Local Router → Sys Router → Local Router
  after_handler l s =
      let l' = record l { sys = s } in
      if s.world.raised then l' else transition ref l.sys.conn.state l'

  -- One `if` of `_dispatch`: the handler, and then the transition from the state before it.
  -- An exception leaves `_dispatch` at once.
  unfoldable pub fire : Bool → Event → Local Router → Option (Local Router)
  fire false e l = some l
  fire true e l =
      let fired = Option.map (after_handler l) (handle routing e l.sys) in
      if l.sys.world.raised then some l else fired

  -- `none`: a handler never returns.
  unfoldable pub dispatch : Sock → Mask → Answers → Local Router → Option (Local Router)
  unfolding fire
  dispatch sock mask a l = do
    let at_client = is_client sock l.sys.conn
    let at_backend = is_backend sock l.sys.conn
    l1 ← fire (at_client && mask.readable) (client_readable a.client_recv) l
    l2 ← fire (at_client && mask.writable) (client_writable a.client_send) l1
    l3 ← fire (at_backend && mask.readable) (backend_readable a.backend_recv) l2
    l4 ← fire (at_backend && mask.writable) (backend_writable a.so_error a.backend_send) l3
    some (if l4.sys.world.raised then l4 else flush_pending_unregister ref l4)
