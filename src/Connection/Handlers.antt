-- ===== src/Connection/Handlers.antt =====
-- connection.py: the handlers that the reactor calls, and `_prepare_relay`.
use l7_load_balancer.Prelude.{
  ℕ, ◌+◌, ◌-◌, [], ◌∷◌, ◌++◌, Option, none, some, Bool, true, false, ◌&&◌, ltb, leb, leb_ℤ,
  if◌then◌else◌, length, drop, pos, negsuc, ◌+ℤ◌, ◌==◌,
}
use l7_load_balancer.Backend.{Backend}
use l7_load_balancer.Bytes.{Bytes, codes, find, slice}
use l7_load_balancer.Config.{max_request_size}
use l7_load_balancer.Http.{header_delim}
use l7_load_balancer.Http.Request.{
  HttpRequest, try_parse_request, inject_forwarded_for, serialise_request,
}
use l7_load_balancer.Http.Response.{
  parse_response_status, is_chunked_response, get_response_content_length,
}
use l7_load_balancer.Http.Chunked.{
  Framing, framed, incomplete, out_of_fuel, try_consume_chunked_body,
}
use l7_load_balancer.Router.Routing.{Routing}
use l7_load_balancer.Connection.{
  State, connecting_to_backend, reading_request, reading_request, connecting_to_backend,
  forwarding_request, reading_response, forwarding_response, done, ProxyConnection, Sys, Recv, Send,
  received, sent, on_conn, set_state,
}
use l7_load_balancer.Connection.Deadline.{refresh_deadline}
use l7_load_balancer.Connection.Finish.{finish, send_error}
use l7_load_balancer.Connection.Connect.{initiate_backend_connect, fail_backend}

-- The status line is read once.
unfoldable pub note_status : ProxyConnection → ProxyConnection
note_status c = elim c.response_status [
  | some _ ↦ c
  | none ↦ elim (parse_response_status c.response_buf) [
    | none ↦ c
    | some (code, _) ↦ record c { response_status = some code }
  ]
]

-- `bool(chunked)`
abbrev pub truth : Option Bool → Bool
truth none = false
truth (some b) = b

-- The headers are read once, when they are complete.
unfoldable pub note_headers : ProxyConnection → ProxyConnection
note_headers c = if c.response_headers_done then c else elim (find header_delim c.response_buf) [
  | none ↦ c
  | some hdr_end ↦
      let chunked = truth (is_chunked_response c.response_buf) in
      record c {
        response_headers_done = true;
        response_is_chunked = chunked;
        response_content_length =
            if chunked then negsuc 0 else get_response_content_length c.response_buf;
        response_body_received = length c.response_buf - (hdr_end + 4);
      }
]

-- `hdr_end + len(HEADER_DELIM)`, where `hdr_end` is -1 if there is no delimiter.
unfoldable pub header_len : Bytes → ℕ
header_len buf = elim (find header_delim buf) [ none ↦ 3 | some hdr_end ↦ hdr_end + 4 ]

-- The body at the end of the stream: empty if there is no delimiter.
unfoldable pub body_at_end : Bytes → Bytes
body_at_end buf = elim (find header_delim buf) [ none ↦ [] | some hdr_end ↦ drop (hdr_end + 4) buf ]

module _ {R : Type 0} where
  unfoldable pub prepare_relay : Sys R → Sys R
  prepare_relay s = refresh_deadline (
      on_conn
        (λ c. record c {
          relay_buf = c.response_buf;
          relay_offset = 0;
          state = forwarding_response;
        })
        s)

  -- What a complete chunked body leads to; `none` is a scan that never ends.
  unfoldable pub relay_framed : ℕ → Framing → Sys R → Option (Sys R)
  relay_framed hlen (framed n) s = some (
      prepare_relay
        (on_conn (λ c. record c { response_buf = slice c.response_buf (pos 0) (pos hlen +ℤ n) }) s))
  relay_framed hlen incomplete s = some s
  relay_framed hlen out_of_fuel s = none

  -- With a body of `n` bytes that is not chunked: is the response complete?
  unfoldable pub settle_sized : ℕ → Sys R → Option (Sys R)
  settle_sized n s =
      let counted = on_conn (λ c. record c { response_body_received = n }) s in
      if leb_ℤ (pos 0) s.conn.response_content_length
        && leb_ℤ s.conn.response_content_length (pos n)
      then some (prepare_relay counted)
      else some counted

  -- With the headers complete: is the response complete?
  unfoldable pub settle : Sys R → Option (Sys R)
  settle s =
      let hlen = header_len s.conn.response_buf in
      let body = drop hlen s.conn.response_buf in
      if s.conn.response_is_chunked
      then relay_framed hlen (try_consume_chunked_body body) s
      else settle_sized (length body) s

  -- `handle_backend_readable` behind its `recv`, for data that is not empty.
  unfoldable pub take_response : Bytes → Sys R → Option (Sys R)
  take_response bytes s =
      let extended =
        refresh_deadline (on_conn (λ c. record c { response_buf = c.response_buf ++ bytes }) s) in
      let noted = on_conn (λ c. note_headers (note_status c)) extended in
      if noted.conn.response_headers_done then settle noted else some noted

module _ (routing : Routing) where
  open routing use {Router, next_backend}

  -- The request is complete: it is rewritten, and a backend is picked.
  unfoldable pub dispatch_request : Option Backend × Router → Sys Router → Sys Router
  dispatch_request (none, router) s =
      send_error routing 503 (codes "Service Unavailable") (record s { router = router })
  dispatch_request (some b, router) s = initiate_backend_connect routing b (record s {
    conn = record s.conn {
      backend_addr = some b;
      backend_attempts = 1;
      disconnect_notified = false;
    };
    router = router;
  })

  unfoldable pub accept_request : HttpRequest → Sys Router → Sys Router
  accept_request parsed s =
      let req = inject_forwarded_for parsed s.conn.client_addr.0 in
      dispatch_request (next_backend s.router []) (
        on_conn
          (λ c. record c {
            parsed_request = some req;
            forward_buf = serialise_request req;
            forward_offset = 0;
          })
          s)

  -- `none`: more data is needed.
  unfoldable pub accept_parsed : Option HttpRequest → Sys Router → Sys Router
  accept_parsed none s = s
  accept_parsed (some req) s = accept_request req s

  -- `handle_client_readable` behind its `recv`, for data that is not empty.
  unfoldable pub take_request : Bytes → Sys Router → Sys Router
  take_request bytes s =
      let s' =
        refresh_deadline (on_conn (λ c. record c { request_buf = c.request_buf ++ bytes }) s) in
      if ltb max_request_size (length s'.conn.request_buf)
      then send_error routing 413 (codes "Request Entity Too Large") s'
      else accept_parsed (try_parse_request s'.conn.request_buf) s'

  abbrev pub read_request : Recv → Sys Router → Sys Router
  read_request Recv.would_block s = s
  read_request Recv.failed s = set_state done s
  read_request (received []) s = set_state done s
  read_request (received (b ∷ bs)) s = take_request (b ∷ bs) s

  unfoldable pub client_readable_in : State → Recv → Sys Router → Sys Router
  client_readable_in reading_request r s = read_request r s
  client_readable_in _ r s = s

  unfoldable pub handle_client_readable : Recv → Sys Router → Sys Router
  handle_client_readable r s = client_readable_in s.conn.state r s

  -- The `send` of `handle_backend_writable`.
  unfoldable pub forward_request : Send → Sys Router → Sys Router
  forward_request Send.would_block s = s
  forward_request Send.failed s = fail_backend routing s
  forward_request (sent n) s =
      let s' = if n == 0 then s else refresh_deadline s in
      let moved = on_conn (λ c. record c { forward_offset = c.forward_offset + n }) s' in
      if leb (length moved.conn.forward_buf) moved.conn.forward_offset
      then refresh_deadline (set_state reading_response moved)
      else moved

  -- `so_error` is what `getsockopt` returns, and is read only while connecting.
  unfoldable pub connected : ℕ → Send → Sys Router → Sys Router
  connected so_error r s =
      if so_error == 0
      then forward_request r (refresh_deadline (set_state forwarding_request s))
      else fail_backend routing s

  unfoldable pub backend_writable_in : State → ℕ → Send → Sys Router → Sys Router
  backend_writable_in connecting_to_backend so_error r s = connected so_error r s
  backend_writable_in forwarding_request so_error r s = forward_request r s
  backend_writable_in _ so_error r s = s

  unfoldable pub handle_backend_writable : ℕ → Send → Sys Router → Sys Router
  handle_backend_writable so_error r s = backend_writable_in s.conn.state so_error r s

  -- The backend has closed: a close-delimited body ends, a chunked one may be cut short.
  abbrev pub end_chunked : Framing → Sys Router → Option (Sys Router)
  end_chunked (framed n) s = some (prepare_relay s)
  end_chunked incomplete s = some (fail_backend routing s)
  end_chunked out_of_fuel s = none

  unfoldable pub end_response : Sys Router → Option (Sys Router)
  end_response s =
      if s.conn.response_is_chunked && s.conn.response_headers_done
      then end_chunked (try_consume_chunked_body (body_at_end s.conn.response_buf)) s
      else some (prepare_relay s)

  abbrev pub read_response : Recv → Sys Router → Option (Sys Router)
  read_response Recv.would_block s = some s
  read_response Recv.failed s = some (fail_backend routing s)
  read_response (received []) s = end_response s
  read_response (received (b ∷ bs)) s = take_response (b ∷ bs) s

  unfoldable pub backend_readable_in : State → Recv → Sys Router → Option (Sys Router)
  backend_readable_in reading_response r s = read_response r s
  backend_readable_in _ r s = some s

  -- `none`: the handler never returns, because the scan of the chunked body does not.
  unfoldable pub handle_backend_readable : Recv → Sys Router → Option (Sys Router)
  handle_backend_readable r s = backend_readable_in s.conn.state r s

  -- The `send` of `handle_client_writable`.
  unfoldable pub relay : Send → Sys Router → Sys Router
  relay Send.would_block s = s
  relay Send.failed s = set_state done s
  relay (sent n) s =
      let s' =
        if n == 0
        then s
        else refresh_deadline (on_conn (λ c. record c { client_bytes_sent = true }) s) in
      let moved = on_conn (λ c. record c { relay_offset = c.relay_offset + n }) s' in
      if leb (length moved.conn.relay_buf) moved.conn.relay_offset
      then finish routing moved
      else moved

  unfoldable pub client_writable_in : State → Send → Sys Router → Sys Router
  client_writable_in forwarding_response r s = relay r s
  client_writable_in _ r s = s

  unfoldable pub handle_client_writable : Send → Sys Router → Sys Router
  handle_client_writable r s = client_writable_in s.conn.state r s
