-- ===== src/Connection/Deadline.antt =====
-- connection.py: `__init__`, `_timeout_for_state`, `refresh_deadline` and `timed_out`.
use l7_load_balancer.Prelude.{
  ℕ, ◌+◌, [], Option, none, some, Bool, true, false, leb, ◌&&◌, not, negsuc,
}
use l7_load_balancer.Bytes.{Bytes}
use l7_load_balancer.Config.{
  client_idle_timeout, connect_timeout, backend_timeout, client_send_timeout,
}
use l7_load_balancer.Connection.{
  State, reading_request, connecting_to_backend, forwarding_request, reading_response,
  forwarding_response, done, Socket, World, Sys, now, tick, on_conn,
}

unfoldable pub timeout_for_state : State → Option ℕ
timeout_for_state reading_request = some client_idle_timeout
timeout_for_state connecting_to_backend = some connect_timeout
timeout_for_state forwarding_request = some backend_timeout
timeout_for_state reading_response = some backend_timeout
timeout_for_state forwarding_response = some client_send_timeout
timeout_for_state done = none

abbrev pub is_done : State → Bool
is_done done = true
is_done _ = false

module _ {R : Type 0} where
  -- `none` is a state with no timeout.
  unfoldable pub refresh_by : Option ℕ → Sys R → Sys R
  refresh_by none s = s
  refresh_by (some timeout) s =
      tick (
        on_conn (λ c. record c { deadline_gen = c.deadline_gen + 1; deadline = now s + timeout }) s)

  unfoldable pub refresh_deadline : Sys R → Sys R
  refresh_deadline s = refresh_by (timeout_for_state s.conn.state) s

  -- `timed_out()`; the clock is read only if the connection is not done.
  unfoldable pub timed_out : Sys R → Bool
  timed_out s = not (is_done s.conn.state) && leb s.conn.deadline (now s)

  -- `ProxyConnection(client_sock, client_addr, router)`
  unfoldable pub init : Socket → Bytes × ℕ → R → World → Sys R
  init client_sock client_addr router world = refresh_deadline (
      tick (record {
        conn = record {
          client_sock = client_sock;
          client_addr = client_addr;
          backend_sock = none;
          backend_addr = none;
          state = reading_request;
          request_buf = [];
          parsed_request = none;
          forward_buf = [];
          forward_offset = 0;
          response_buf = [];
          relay_buf = [];
          relay_offset = 0;
          start_time = world.clock world.readings;
          response_status = none;
          response_headers_done = false;
          response_content_length = negsuc 0;
          response_body_received = 0;
          response_is_chunked = false;
          tried_backends = [];
          backend_attempts = 0;
          client_bytes_sent = false;
          disconnect_notified = false;
          pending_backend_unregister = none;
          deadline = 0;
          deadline_gen = 0;
        };
        router = router;
        world = world;
      }))
