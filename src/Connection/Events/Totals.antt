-- ===== src/Connection/Events/Totals.antt =====
-- What is left of a connection that is done.
use l7_load_balancer.Prelude.{◌≡◌, refl, ap, List, [], ◌∷◌, some}
use l7_load_balancer.Router.Routing.{Routing}
use l7_load_balancer.Connection.{forwarding_response, done, Sys, Send, set_state}
use l7_load_balancer.Connection.Finish.{expire, handle_timeout}
use l7_load_balancer.Connection.Handlers.{
  handle_client_readable, handle_client_writable, handle_backend_readable, handle_backend_writable,
  client_readable_in, client_writable_in, backend_readable_in, backend_writable_in, relay,
}
use l7_load_balancer.Connection.Events.{
  Event, client_readable, client_writable, backend_readable, backend_writable, timeout, handle, run,
}

module _ (routing : Routing) where
  open routing use {Router, IsValid}

  -- A connection that is done ignores every event.
  pub handle_done : (e : Event) (s : Sys Router) → s.conn.state ≡ done → handle routing e s ≡ some s
  unfolding handle handle_client_readable handle_client_writable handle_backend_readable
      handle_backend_writable handle_timeout client_readable_in client_writable_in
      backend_readable_in backend_writable_in expire
  handle_done (client_readable r) s h = ap (λ st. some (client_readable_in routing st r s)) h
  handle_done (client_writable r) s h = ap (λ st. some (client_writable_in routing st r s)) h
  handle_done (backend_readable r) s h = ap (λ st. backend_readable_in routing st r s) h
  handle_done (backend_writable so_error r) s h =
      ap (λ st. some (backend_writable_in routing st so_error r s)) h
  handle_done timeout s h = ap (λ st. some (expire routing st s)) h

  -- A connection that is done ignores every sequence of events: no handler changes the connection,
  -- the router or the world.
  pub run_done :
      (es : List Event) (s : Sys Router) → s.conn.state ≡ done → run routing es s ≡ some s
  unfolding run
  run_done [] s h = refl
  run_done (e ∷ es) s h = rw (handle_done e s h) (run_done es s h)

-- A failed send to the client ends a connection that forwards a response, the router stays as it
-- was whatever events come later, and the disconnect is never reported if it was not before.
pub failed_send_leaks :
    (routing : Routing) (es : List Event) (s : Sys routing.Router)
    → s.conn.state ≡ forwarding_response
    → (s' : Sys routing.Router) × (run routing (client_writable Send.failed ∷ es) s ≡ some s')
      × (s'.router ≡ s.router)
      × (s'.conn.state ≡ done)
      × (s'.conn.disconnect_notified ≡ s.conn.disconnect_notified)
unfolding run handle handle_client_writable client_writable_in relay
failed_send_leaks routing es s h =
    (set_state done s, rw h (run_done routing es (set_state done s) refl), refl, refl, refl)
