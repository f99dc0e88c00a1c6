-- ===== src/Connection/Life/Handlers.antt =====
-- Each handler is a number of changes of the core.
use l7_load_balancer.Prelude.{
  ℕ, ◌+◌, ◌≡◌, refl, sym, ap, ◌∙◌, subst, [], ◌∷◌, ◌++◌, Option, none, some, true, false, if_split,
  ◌==◌, if◌then◌else◌, length, leb, ltb,
}
use l7_load_balancer.Backend.{Backend}
use l7_load_balancer.Bytes.{Bytes, codes}
use l7_load_balancer.Config.{max_request_size}
use l7_load_balancer.Http.Request.{
  HttpRequest, try_parse_request, inject_forwarded_for, serialise_request,
}
use l7_load_balancer.Router.Routing.{Routing}
use l7_load_balancer.Connection.{
  State, reading_request, connecting_to_backend, forwarding_request, reading_response,
  forwarding_response, done, Sys, Recv, Send, received, sent, on_conn, set_state,
}
use l7_load_balancer.Connection.Deadline.{refresh_deadline}
use l7_load_balancer.Connection.Finish.{notify, finish, send_error, expire, handle_timeout}
use l7_load_balancer.Connection.Connect.{allows_retry}
use l7_load_balancer.Connection.Handlers.{
  dispatch_request, accept_request, take_request, accept_parsed, read_request, forward_request,
  relay, client_readable_in, client_writable_in, backend_writable_in, connected,
}
use l7_load_balancer.Connection.Life.{
  Core, core, connecting, HasBackend, Change, asked, forwarded, answered, ended, unserved, Changes,
  more,
}
use l7_load_balancer.Connection.Life
use l7_load_balancer.Connection.Life.Steps.{
  set_done, core-refresh, core-notify, core-finish, core-send_error,
}
use l7_load_balancer.Connection.Life.Retries.{
  Does, Does-same, Does-one, Does-more, send_error-Does, fail_backend-Does,
  initiate_backend_connect-Does,
}

module _ (routing : Routing) where
  open routing use {Router, next_backend}

  expire-Does : (st : State) (s : Sys Router) → Does routing (core s) (expire routing st s)
  unfolding expire
  expire-Does done s = Does-same routing (core s) s refl
  expire-Does reading_request s = send_error-Does routing 408 _ s
  expire-Does _ s =
      if_split {A = Sys Router} (Does routing (core s)) s.conn.client_bytes_sent _ _
        (λ _.
          Does-one routing (core s) (set_done (core s)) (set_state done (notify routing s))
            (ended (core s)) (ap set_done (core-notify routing s)))
        (λ _. send_error-Does routing 504 (codes "Gateway Timeout") s)

  -- The request is parsed, in a connection whose core was `c` but for that.
  dispatch-Does :
      (c : Core) (picked : Option Backend × Router) (s : Sys Router)
      → c.state ≡ reading_request
      → core s ≡ record c { may_retry = allows_retry s.conn.parsed_request }
      → Does routing c (dispatch_request routing picked s)
  unfolding dispatch_request
  dispatch-Does c (none, r) s h e =
      Does-one routing c (set_done (record c { may_retry = allows_retry s.conn.parsed_request }))
        (send_error routing 503 (codes "Service Unavailable") (record s { router = r }))
        (unserved c (allows_retry s.conn.parsed_request) h)
        (core-send_error routing 503 _ (record s { router = r }) ∙ ap set_done e)
  dispatch-Does c (some b, r) s h e =
      initiate_backend_connect-Does routing b 1 c (picked_core (core s))
        (record s {
          conn = record s.conn {
            backend_addr = some b;
            backend_attempts = 1;
            disconnect_notified = false;
          };
          router = r;
        })
        refl refl refl
        (subst (λ d. Change c (connecting b 1 (picked_core d))) (sym e)
          (asked c b (allows_retry s.conn.parsed_request) h))
    where
      picked_core : Core → Core
      picked_core d = record d { backend_addr = some b; attempts = 1 }

  parsed-Does :
      (parsed : Option HttpRequest) (s : Sys Router)
      → s.conn.state ≡ reading_request
      → Does routing (core s) (accept_parsed routing parsed s)
  unfolding accept_parsed accept_request
  parsed-Does none s h = Does-same routing (core s) s refl
  parsed-Does (some req) s h =
      dispatch-Does (core s) (next_backend s.router [])
        (on_conn
          (λ c. record c {
            parsed_request = some (inject_forwarded_for req s.conn.client_addr.0);
            forward_buf = serialise_request (inject_forwarded_for req s.conn.client_addr.0);
            forward_offset = 0;
          })
          s)
        h refl

  take_request-Does :
      (bytes : Bytes) (s : Sys Router)
      → s.conn.state ≡ reading_request
      → Does routing (core s) (take_request routing bytes s)
  unfolding take_request
  take_request-Does bytes s h =
      let longer : Sys Router =
        on_conn (λ c. record c { request_buf = c.request_buf ++ bytes }) s in
      let e : core (refresh_deadline longer) ≡ core s = core-refresh longer in
      subst (λ c. Does routing c (take_request routing bytes s)) e
        (if_split {A = Sys Router} (Does routing (core (refresh_deadline longer)))
          (ltb max_request_size (length (refresh_deadline longer).conn.request_buf)) _ _
          (λ _.
            send_error-Does routing 413 (codes "Request Entity Too Large")
              (refresh_deadline longer))
          (λ _.
            parsed-Does (try_parse_request (refresh_deadline longer).conn.request_buf)
              (refresh_deadline longer) (ap (λ c. c.state) e ∙ h)))

  read_request-Does :
      (r : Recv) (s : Sys Router)
      → s.conn.state ≡ reading_request
      → Does routing (core s) (read_request routing r s)
  read_request-Does Recv.would_block s h = Does-same routing (core s) s refl
  read_request-Does Recv.failed s h =
      Does-one routing (core s) (set_done (core s)) (set_state done s) (ended (core s)) refl
  read_request-Does (received []) s h =
      Does-one routing (core s) (set_done (core s)) (set_state done s) (ended (core s)) refl
  read_request-Does (received (x ∷ xs)) s h = take_request-Does (x ∷ xs) s h

  forward_request-Does :
      (r : Send) (s : Sys Router)
      → s.conn.state ≡ forwarding_request
      → Does routing (core s) (forward_request routing r s)
  unfolding forward_request
  forward_request-Does Send.would_block s h = Does-same routing (core s) s refl
  forward_request-Does Send.failed s h = fail_backend-Does routing s (subst HasBackend (sym h) tt)
  forward_request-Does (sent n) s h =
      let s' : Sys Router = if n == 0 then s else refresh_deadline s in
      let e : core s' ≡ core s =
        if_split {A = Sys Router} (λ q. core q ≡ core s) (n == 0) s (refresh_deadline s) (λ _. refl)
          (λ _. core-refresh s) in
      let moved : Sys Router =
        on_conn (λ c. record c { forward_offset = c.forward_offset + n }) s' in
      let kept : core moved ≡ core s = e in
      if_split {A = Sys Router} (Does routing (core s))
        (leb (length moved.conn.forward_buf) moved.conn.forward_offset) _ _
        (λ _.
          Does-one routing (core s) (at_response (core s))
            (refresh_deadline (set_state reading_response moved)) (forwarded (core s) h)
            (core-refresh (set_state reading_response moved) ∙ ap at_response kept))
        (λ _. Does-same routing (core s) moved kept)
    where
      at_response : Core → Core
      at_response c = record c { state = reading_response }

  pub backend_writable-Does :
      (st : State) (so_error : ℕ) (r : Send) (s : Sys Router)
      → s.conn.state ≡ st
      → Does routing (core s) (backend_writable_in routing st so_error r s)
  unfolding backend_writable_in connected
  backend_writable-Does connecting_to_backend so_error r s h =
      let begun : Sys Router = refresh_deadline (set_state forwarding_request s) in
      let e : core begun ≡ core (set_state forwarding_request s) =
        core-refresh (set_state forwarding_request s) in
      if_split {A = Sys Router} (Does routing (core s)) (so_error == 0) _ _
        (λ _.
          Does-more routing (core s) begun (forward_request routing r begun)
            (Does-one routing (core s) (core (set_state forwarding_request s)) begun
              (Life.connected (core s) h) e)
            (forward_request-Does r begun (ap (λ c. c.state) e)))
        (λ _. fail_backend-Does routing s (subst HasBackend (sym h) tt))
  backend_writable-Does forwarding_request so_error r s h = forward_request-Does r s h
  backend_writable-Does _ so_error r s h = Does-same routing (core s) s refl

  pub client_readable-Does :
      (st : State) (r : Recv) (s : Sys Router)
      → s.conn.state ≡ st
      → Does routing (core s) (client_readable_in routing st r s)
  unfolding client_readable_in
  client_readable-Does reading_request r s h = read_request-Does r s h
  client_readable-Does _ r s h = Does-same routing (core s) s refl

  relay-Does : (r : Send) (s : Sys Router) → Does routing (core s) (relay routing r s)
  unfolding relay
  relay-Does Send.would_block s = Does-same routing (core s) s refl
  relay-Does Send.failed s =
      Does-one routing (core s) (set_done (core s)) (set_state done s) (ended (core s)) refl
  relay-Does (sent n) s =
      let begun : Sys Router = on_conn (λ c. record c { client_bytes_sent = true }) s in
      let s' : Sys Router = if n == 0 then s else refresh_deadline begun in
      let e : core s' ≡ core s =
        if_split {A = Sys Router} (λ q. core q ≡ core s) (n == 0) s (refresh_deadline begun)
          (λ _. refl) (λ _. core-refresh begun) in
      let moved : Sys Router = on_conn (λ c. record c { relay_offset = c.relay_offset + n }) s' in
      let kept : core moved ≡ core s = e in
      if_split {A = Sys Router} (Does routing (core s))
        (leb (length moved.conn.relay_buf) moved.conn.relay_offset) _ _
        (λ _.
          Does-one routing (core s) (set_done (core s)) (finish routing moved) (ended (core s))
            (core-finish routing moved ∙ ap set_done kept))
        (λ _. Does-same routing (core s) moved kept)

  pub client_writable-Does :
      (st : State) (r : Send) (s : Sys Router)
      → Does routing (core s) (client_writable_in routing st r s)
  unfolding client_writable_in
  client_writable-Does forwarding_response r s = relay-Does r s
  client_writable-Does _ r s = Does-same routing (core s) s refl

  pub timeout-Does : (s : Sys Router) → Does routing (core s) (handle_timeout routing s)
  unfolding handle_timeout
  timeout-Does s = expire-Does s.conn.state s
