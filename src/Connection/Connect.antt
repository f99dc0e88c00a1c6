-- ===== src/Connection/Connect.antt =====
-- connection.py: `_initiate_backend_connect`, `_can_retry` and `_fail_backend`. The two that call
-- one another take fuel: each further call follows a retry, and retries are bounded.
use l7_load_balancer.Prelude.{
  ℕ, zero, suc, ◌+◌, List, [], ◌∷◌, ◌++◌, Option, none, some, Bool, true, false, not, ◌||◌, ◌&&◌,
  leb, ◌==◌, if◌then◌else◌, negsuc,
}
use l7_load_balancer.Prelude.Dict.{contains}
use l7_load_balancer.Backend.{Backend, Backend-discrete}
use l7_load_balancer.Bytes.{Bytes-discrete, codes, upper}
use l7_load_balancer.Config.{max_backend_retries, idempotent_methods}
use l7_load_balancer.Http.Request.{HttpRequest}
use l7_load_balancer.Router.Routing.{Routing}
use l7_load_balancer.Connection.{
  connecting_to_backend, forwarding_request, done, Dialled, errno, raises, Socket, ProxyConnection,
  Sys, opened, closed, emit, on_conn, set_state,
}
use l7_load_balancer.Connection.Deadline.{refresh_deadline}
use l7_load_balancer.Connection.Finish.{notify, send_error}

unfoldable pub is_idempotent : HttpRequest → Bool
is_idempotent req = contains Bytes-discrete (upper req.method) idempotent_methods

abbrev pub allows_retry : Option HttpRequest → Bool
allows_retry none = false
allows_retry (some req) = is_idempotent req

unfoldable pub can_retry : ProxyConnection → Bool
can_retry c =
    not c.client_bytes_sent
    && (allows_retry c.parsed_request && leb c.backend_attempts max_backend_retries)

-- `EINPROGRESS`, and `EWOULDBLOCK`, which is `EAGAIN`.
unfoldable pub in_progress : ℕ → Bool
in_progress err = err == 115 || err == 11

-- `self._tried_backends.add(failed)`
unfoldable pub add_tried : Backend → List Backend → List Backend
add_tried b tried = if contains Backend-discrete b tried then tried else tried ++ b ∷ []

-- What is reset before a retry connects.
unfoldable pub reset_for : Backend → ProxyConnection → ProxyConnection
reset_for b c = record c {
  backend_addr = some b;
  backend_attempts = c.backend_attempts + 1;
  disconnect_notified = false;
  forward_offset = 0;
  response_buf = [];
  response_status = none;
  response_headers_done = false;
  response_content_length = negsuc 0;
  response_body_received = 0;
  response_is_chunked = false;
}

-- `failed` goes among the tried ones.
abbrev pub note_tried : Option Backend → ProxyConnection → ProxyConnection
note_tried none c = c
note_tried (some b) c = record c { tried_backends = add_tried b c.tried_backends }

module _ (routing : Routing) where
  open routing use {Router, next_backend}

  -- The old socket is closed, and left for the reactor to unregister.
  abbrev pub drop_socket : Option Socket → Sys Router → Sys Router
  drop_socket none s = s
  drop_socket (some sock) s =
      emit (closed sock)
        (on_conn (λ c. record c { pending_backend_unregister = some sock; backend_sock = none }) s)

  -- The first part of `_fail_backend`: the failed backend is given up.
  unfoldable pub give_up : Sys Router → Sys Router
  give_up s =
      on_conn (note_tried s.conn.backend_addr) (drop_socket s.conn.backend_sock (notify routing s))

  -- A fresh socket starts to connect; its number is that of the attempt. `socket.socket` succeeds.
  unfoldable pub open_socket : Backend → Sys Router → Sys Router
  open_socket b s =
      let waiting = refresh_deadline (set_state connecting_to_backend s) in
      record waiting {
        conn = record waiting.conn { backend_sock = some waiting.world.connects };
        world = record waiting.world {
          connects = waiting.world.connects + 1;
          effects = waiting.world.effects ++ opened waiting.world.connects b ∷ [];
        };
      }

  -- An exception leaves the handler and its callers, which make no more calls, and `_loop` sets DONE:
  -- the state is written at once, and `raised` tells `_dispatch` that it is left too.
  unfoldable pub escape : Sys Router → Sys Router
  escape s = record s {
    conn = record s.conn { state = done };
    world = record s.world { raised = true };
  }

  -- `_initiate_backend_connect` behind its `connect_ex`.
  unfoldable pub after_connect : (Sys Router → Sys Router) → Dialled → Sys Router → Sys Router
  after_connect fail (errno err) s =
      if err == 0
      then refresh_deadline (set_state forwarding_request s)
      else if in_progress err
      then s
      else fail s
  after_connect fail raises s = escape s

  -- `_initiate_backend_connect`, with `_fail_backend` passed in.
  unfoldable pub initiate_with : (Sys Router → Sys Router) → Backend → Sys Router → Sys Router
  initiate_with fail b s =
      after_connect fail (s.world.connect_ex s.world.connects b) (open_socket b s)

  -- The choice of `_fail_backend` between a retry and a 502.
  unfoldable pub retry_with :
      (Sys Router → Sys Router) → Option Backend × Router → Sys Router → Sys Router
  retry_with fail (none, router) s =
      send_error routing 502 (codes "Bad Gateway") (record s { router = router })
  retry_with fail (some b, router) s =
      initiate_with fail b (record s { conn = reset_for b s.conn; router = router })

  unfoldable pub fail_with : (Sys Router → Sys Router) → Sys Router → Sys Router
  fail_with fail s =
      let dropped = give_up s in
      if can_retry dropped.conn
      then retry_with fail (next_backend dropped.router dropped.conn.tried_backends) dropped
      else send_error routing 502 (codes "Bad Gateway") dropped

  unfoldable pub fail_on : ℕ → Sys Router → Sys Router
  fail_on zero s = s
  fail_on (suc fuel) s = fail_with (fail_on fuel) s

  -- `_fail_backend`: one call, and one more for each retry that fails at once.
  unfoldable pub fail_backend : Sys Router → Sys Router
  fail_backend = fail_on (max_backend_retries + 2)

  unfoldable pub initiate_backend_connect : Backend → Sys Router → Sys Router
  initiate_backend_connect = initiate_with fail_backend
