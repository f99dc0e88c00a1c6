-- ===== src/Connection/Events/Requests.antt =====
-- The books through a request: its arrival, the choice of a backend, and what is sent.
use l7_load_balancer.Prelude.{
  ℕ, ◌+◌, ◌≡◌, ◌≢◌, sym, ap, ◌∙◌, [], ◌∷◌, ◌++◌, Option, none, some, true, false, if◌then◌else◌,
  ◌==◌, length, leb, ltb, if_split,
}
use l7_load_balancer.Backend.{Backend}
use l7_load_balancer.Bytes.{Bytes, codes}
use l7_load_balancer.Config.{max_request_size, max_backend_retries}
use l7_load_balancer.Http.Request.{HttpRequest, try_parse_request}
use l7_load_balancer.Router.Routing.{Routing, Accounts}
use l7_load_balancer.Connection.{
  State, reading_request, reading_response, forwarding_response, done, Sys, Recv, Send, received,
  sent, on_conn, set_state,
}
use l7_load_balancer.Connection.Deadline.{refresh_deadline, refresh_by, timeout_for_state}
use l7_load_balancer.Connection.Finish.{send_error, expire}
use l7_load_balancer.Connection.Connect.{fail_backend, fail_on, initiate_backend_connect}
use l7_load_balancer.Connection.Handlers.{
  dispatch_request, accept_request, take_request, accept_parsed, read_request, forward_request,
  prepare_relay, relay,
}
use l7_load_balancer.Connection.Events.Ledger
use l7_load_balancer.Connection.Events.Ledger.{holds}
use l7_load_balancer.Connection.Events.Sound
use l7_load_balancer.Connection.Events.Retry

module _ (routing : Routing) (accounts : Accounts routing) (b : Backend) (k : ℕ) where
  open routing use {Router, IsValid}

  abbrev pub Books : Sys Router → Type 0
  Books s = Sound.Sound routing accounts b k s

  refresh_by-Books : (t : Option ℕ) (s : Sys Router) → Books s → Books (refresh_by t s)
  unfolding refresh_by
  refresh_by-Books none s q = q
  refresh_by-Books (some t) s q = record { account = q.account; fresh = q.fresh }

  pub refresh-Books : (s : Sys Router) → Books s → Books (refresh_deadline s)
  unfolding refresh_deadline
  refresh-Books s q = refresh_by-Books (timeout_for_state s.conn.state) s q

  error-Books :
      (code : ℕ) (reason : Bytes) (s : Sys Router)
      → Books s
      → Books (send_error routing code reason s)
  error-Books code reason s q = Sound.send_error-Sound routing accounts b k code reason s q.account

  pub fail-Books : (s : Sys Router) → Books s → Books (fail_backend routing s)
  unfolding fail_backend
  fail-Books s q = Retry.fail_on-Sound routing accounts b k _ s q

  -- Between a new connection and a done one.
  pub moved-Books :
      (st : State) (s : Sys Router)
      → st ≢ reading_request
      → Books s
      → Books (refresh_deadline (set_state st s))
  moved-Books st s n q = Sound.refresh-Sound routing accounts b k (set_state st s) q.account n

  pub expire-Books : (st : State) (s : Sys Router) → Books s → Books (expire routing st s)
  unfolding expire
  expire-Books done s q = q
  expire-Books reading_request s q = error-Books 408 _ s q
  expire-Books _ s q =
      if_split Books s.conn.client_bytes_sent _ _
        (λ _.
          let (kept, free) = Ledger.notify-Account routing accounts b k s q.account in
          record { account = kept; fresh = λ p. cc })
        (λ _. error-Books 504 (codes "Gateway Timeout") s q)

  -- A connection with no backend holds nothing.
  free_of_none :
      (s : Sys Router) → s.conn.backend_addr ≡ none → Ledger.Released routing accounts b k s
  free_of_none s e = ap (λ a. holds b a s.conn.disconnect_notified) e

  dispatch-Books :
      (picked : Option Backend × Router) (s : Sys Router)
      → s.conn.backend_addr ≡ none
      → Ledger.Owes routing accounts b k picked.1 picked.0 false
      → Books (dispatch_request routing picked s)
  unfolding dispatch_request initiate_backend_connect fail_backend
  dispatch-Books (none, r) s e o =
      Sound.send_error-Sound routing accounts b k 503 (codes "Service Unavailable")
        (record s { router = r })
        (record { valid = o.valid; owed = o.owed ∙ ap (λ n. k + n) (sym (free_of_none s e)) })
  dispatch-Books (some c, r) s e o =
      Sound.initiate-Sound routing accounts b k (fail_on routing (max_backend_retries + 2))
        (Retry.fail_on-Sound routing accounts b k (max_backend_retries + 2)) c
        (record s {
          conn = record s.conn {
            backend_addr = some c;
            backend_attempts = 1;
            disconnect_notified = false;
          };
          router = r;
        })
        o

  accept-Books :
      (req : HttpRequest) (s : Sys Router)
      → Books s
      → s.conn.backend_addr ≡ none
      → Books (accept_request routing req s)
  unfolding accept_request
  accept-Books req s q e = dispatch-Books _ _ e (
      Retry.picked-Owes routing accounts b k s.router [] q.account.valid
        (Retry.owed_free routing accounts b k s q.account (free_of_none s e)))

  parsed-Books :
      (parsed : Option HttpRequest) (s : Sys Router)
      → Books s
      → s.conn.backend_addr ≡ none
      → Books (accept_parsed routing parsed s)
  unfolding accept_parsed
  parsed-Books none s q e = q
  parsed-Books (some req) s q e = accept-Books req s q e

  take_request-Books :
      (bytes : Bytes) (s : Sys Router)
      → Books s
      → s.conn.state ≡ reading_request
      → Books (take_request routing bytes s)
  unfolding take_request
  take_request-Books bytes s q e =
      let longer : Sys Router =
        on_conn (λ c. record c { request_buf = c.request_buf ++ bytes }) s in
      let kept : Books (refresh_deadline longer) =
        refresh-Books longer (record { account = q.account; fresh = q.fresh }) in
      if_split Books (ltb max_request_size (length (refresh_deadline longer).conn.request_buf)) _ _
        (λ _. error-Books 413 (codes "Request Entity Too Large") (refresh_deadline longer) kept)
        (λ _.
          parsed-Books (try_parse_request (refresh_deadline longer).conn.request_buf)
            (refresh_deadline longer) kept
            (kept.fresh (Sound.refresh-state routing accounts b k longer ∙ e)))

  pub read_request-Books :
      (r : Recv) (s : Sys Router)
      → Books s
      → s.conn.state ≡ reading_request
      → Books (read_request routing r s)
  read_request-Books Recv.would_block s q e = q
  read_request-Books Recv.failed s q e = record { account = q.account; fresh = λ p. cc }
  read_request-Books (received []) s q e = record { account = q.account; fresh = λ p. cc }
  read_request-Books (received (x ∷ xs)) s q e = take_request-Books (x ∷ xs) s q e

  -- The offset moves on: the books do not change.
  pub forward_request-Books :
      (r : Send) (s : Sys Router) → Books s → Books (forward_request routing r s)
  unfolding forward_request
  forward_request-Books Send.would_block s q = q
  forward_request-Books Send.failed s q = fail-Books s q
  forward_request-Books (sent n) s q =
      let s' : Sys Router = if n == 0 then s else refresh_deadline s in
      let kept : Books s' =
        if_split Books (n == 0) s (refresh_deadline s) (λ _. q) (λ _. refresh-Books s q) in
      let moved : Sys Router =
        on_conn (λ c. record c { forward_offset = c.forward_offset + n }) s' in
      let kept' : Books moved = record { account = kept.account; fresh = kept.fresh } in
      if_split Books (leb (length moved.conn.forward_buf) moved.conn.forward_offset) _ _
        (λ _. moved-Books reading_response moved (λ p. cc) kept') (λ _. kept')

  pub relay_all-Books : (s : Sys Router) → Books s → Books (prepare_relay s)
  unfolding prepare_relay
  relay_all-Books s q =
      moved-Books forwarding_response
        (on_conn (λ c. record c { relay_buf = c.response_buf; relay_offset = 0 }) s) (λ p. cc)
        (record { account = q.account; fresh = q.fresh })

  pub relay-Books :
      (r : Send) (s : Sys Router)
      → Books s
      → s.conn.state ≡ forwarding_response
      → Books (relay routing r s)
  unfolding relay
  relay-Books Send.would_block s q e = q
  relay-Books Send.failed s q e = record { account = q.account; fresh = λ p. cc }
  relay-Books (sent n) s q e =
      let begun : Sys Router = on_conn (λ c. record c { client_bytes_sent = true }) s in
      let kept : Books begun = record { account = q.account; fresh = q.fresh } in
      let s' : Sys Router = if n == 0 then s else refresh_deadline begun in
      let kept' : Books s' =
        if_split Books (n == 0) s (refresh_deadline begun) (λ _. q)
          (λ _. refresh-Books begun kept) in
      let moved : Sys Router = on_conn (λ c. record c { relay_offset = c.relay_offset + n }) s' in
      let last : Books moved = record { account = kept'.account; fresh = kept'.fresh } in
      if_split Books (leb (length moved.conn.relay_buf) moved.conn.relay_offset) _ _
        (λ _. Sound.finish-Sound routing accounts b k moved last.account) (λ _. last)
