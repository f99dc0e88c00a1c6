-- ===== src/Connection/Finish.antt =====
-- connection.py: `_finish`, `_send_error`, `handle_timeout` and `cleanup`.
use l7_load_balancer.Prelude.{
  ℕ, ◌-◌, ◌∷◌, ◌++◌, Bool, Option, none, some, true, false, if◌then◌else◌, length, ℤ, pos,
}
use l7_load_balancer.Backend.{Backend}
use l7_load_balancer.Bytes.{Bytes, codes}
use l7_load_balancer.Bytes.Number.{str}
use l7_load_balancer.Http.{line_delim}
use l7_load_balancer.Http.Request.{HttpRequest}
use l7_load_balancer.Router.Routing.{Routing}
use l7_load_balancer.Connection.{
  State, reading_request, done, Socket, ProxyConnection, Sys, closed, sent_all, logged, now, tick,
  emit, on_conn, set_state,
}

-- `self.response_status or 0`
abbrev status_or_zero : Option ℤ → ℤ
status_or_zero none = pos 0
status_or_zero (some n) = n

-- The text that `_send_error` sends.
unfoldable pub error_body : ℕ → Bytes → Bytes
error_body code reason = codes "<h1>" ++ (str code ++ (b' ' ∷ (reason ++ codes "</h1>")))

unfoldable pub error_response : ℕ → Bytes → Bytes
error_response code reason =
    codes "HTTP/1.1 "
    ++ (str code
        ++ (b' '
            ∷ (reason
                ++ (line_delim
                    ++ (codes "Content-Length: "
                        ++ (str (length (error_body code reason))
                            ++ (line_delim
                                ++ (codes "Content-Type: text/html"
                                    ++ (line_delim
                                        ++ (codes "Connection: close"
                                            ++ (line_delim
                                                ++ (line_delim ++ error_body code reason))))))))))))

module _ (routing : Routing) where
  open routing use {Router, on_disconnect}

  -- `if self.backend_addr and not self._disconnect_notified: ...`
  unfoldable pub notify : Sys Router → Sys Router
  notify s = elim s.conn.backend_addr [
    | none ↦ s
    | some b ↦ if s.conn.disconnect_notified then s else record s {
      conn = record s.conn { disconnect_notified = true };
      router = on_disconnect s.router b;
    }
  ]

  abbrev pub log_access :
      Option HttpRequest → Option Backend → ℕ → ProxyConnection → Sys Router → Sys Router
  log_access (some req) (some b) latency c s =
      emit
        (logged (record {
          client = c.client_addr;
          backend = b;
          method = req.method;
          path = req.path;
          version = req.version;
          status = status_or_zero c.response_status;
          latency_ms = latency;
        }))
        s
  log_access _ _ latency c s = s

  unfoldable pub finish : Sys Router → Sys Router
  finish s =
      let latency = now s - s.conn.start_time in
      set_state done
        (notify (log_access s.conn.parsed_request s.conn.backend_addr latency s.conn (tick s)))

  -- Does the client's socket take the `sendall`? A failure is passed over.
  unfoldable pub tell : Bool → Bytes → Sys Router → Sys Router
  tell true response s =
      emit (sent_all response) (on_conn (λ c. record c { client_bytes_sent = true }) s)
  tell false response s = s

  unfoldable pub send_error : ℕ → Bytes → Sys Router → Sys Router
  send_error code reason s = finish (
      on_conn (λ c. record c { response_status = some (pos code) })
        (tell (s.world.takes_sendall s.world.readings) (error_response code reason) s))

  unfoldable pub expire : State → Sys Router → Sys Router
  expire done s = s
  expire reading_request s = send_error 408 (codes "Request Timeout") s
  expire _ s =
      if s.conn.client_bytes_sent
      then set_state done (notify s)
      else send_error 504 (codes "Gateway Timeout") s

  unfoldable pub handle_timeout : Sys Router → Sys Router
  handle_timeout s = expire s.conn.state s

  abbrev close_socket : Option Socket → Sys Router → Sys Router
  close_socket none s = s
  close_socket (some sock) s = emit (closed sock) s

  unfoldable pub cleanup : Sys Router → Sys Router
  cleanup s =
      close_socket s.conn.pending_backend_unregister
        (close_socket s.conn.backend_sock (close_socket (some s.conn.client_sock) s))
