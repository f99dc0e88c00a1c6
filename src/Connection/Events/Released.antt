-- ===== src/Connection/Events/Released.antt =====
-- The books of one connection through every event that the reactor serves.
use l7_load_balancer.Prelude.{ℕ, ◌≡◌, refl, Option, ◌==◌, if_split}
use l7_load_balancer.Backend.{Backend}
use l7_load_balancer.Router.Routing.{Routing, Accounts}
use l7_load_balancer.Connection.{
  State, reading_request, connecting_to_backend, forwarding_request, reading_response,
  forwarding_response, Sys, Recv, Send,
}
use l7_load_balancer.Connection.Finish.{handle_timeout}
use l7_load_balancer.Connection.Handlers.{
  handle_client_readable, handle_backend_writable, handle_backend_readable, handle_client_writable,
  client_readable_in, client_writable_in, backend_readable_in, backend_writable_in, connected,
}
use l7_load_balancer.Connection.Events.{
  Event, client_readable, client_writable, backend_readable, backend_writable, timeout, handle,
}
use l7_load_balancer.Connection.Events.Sound
use l7_load_balancer.Connection.Events.Requests
use l7_load_balancer.Connection.Events.Responses

module _ (routing : Routing) (accounts : Accounts routing) (b : Backend) (k : ℕ) where
  open routing use {Router, IsValid}

  abbrev Books : Sys Router → Type 0
  Books s = Sound.Sound routing accounts b k s

  abbrev pub OnSome : Option (Sys Router) → Type 0
  OnSome o = Responses.OnSome routing accounts b k o

  -- Each handler, in the state that the connection is in.
  module _ (s : Sys Router) (q : Books s) where
    client_readable-Books :
        (st : State) (r : Recv) → s.conn.state ≡ st → Books (client_readable_in routing st r s)
    unfolding client_readable_in
    client_readable-Books reading_request r e =
        Requests.read_request-Books routing accounts b k r s q e
    client_readable-Books _ r e = q

    client_writable-Books :
        (st : State) (r : Send) → s.conn.state ≡ st → Books (client_writable_in routing st r s)
    unfolding client_writable_in
    client_writable-Books forwarding_response r e =
        Requests.relay-Books routing accounts b k r s q e
    client_writable-Books _ r e = q

    backend_readable-Books : (st : State) (r : Recv) → OnSome (backend_readable_in routing st r s)
    unfolding backend_readable_in
    backend_readable-Books reading_response r =
        Responses.read_response-Books routing accounts b k r s q
    backend_readable-Books _ r = q

    backend_writable-Books :
        (st : State) (so_error : ℕ) (r : Send) → Books (backend_writable_in routing st so_error r s)
    unfolding backend_writable_in connected
    backend_writable-Books connecting_to_backend so_error r =
        if_split Books (so_error == 0) _ _
          (λ _.
            Requests.forward_request-Books routing accounts b k r _
              (Requests.moved-Books routing accounts b k forwarding_request s (λ p. cc) q))
          (λ _. Requests.fail-Books routing accounts b k s q)
    backend_writable-Books forwarding_request so_error r =
        Requests.forward_request-Books routing accounts b k r s q
    backend_writable-Books _ so_error r = q

  -- One event keeps the books.
  pub handle-Books : (e : Event) (s : Sys Router) → Books s → OnSome (handle routing e s)
  unfolding handle handle_client_readable handle_client_writable handle_backend_readable
      handle_backend_writable handle_timeout
  handle-Books (client_readable r) s q = client_readable-Books s q s.conn.state r refl
  handle-Books (client_writable r) s q = client_writable-Books s q s.conn.state r refl
  handle-Books (backend_readable r) s q = backend_readable-Books s q s.conn.state r
  handle-Books (backend_writable so_error r) s q =
      backend_writable-Books s q s.conn.state so_error r
  handle-Books timeout s q = Requests.expire-Books routing accounts b k s.conn.state s q
