-- ===== src/Connection/Events/Responses.antt =====
-- The books through what a backend sends.
use l7_load_balancer.Prelude.{
  ℕ, ◌≡◌, sym, ◌∙◌, [], ◌∷◌, ◌++◌, Option, none, some, arith, ◌&&◌, leb_ℤ, pos, if_split,
}
use l7_load_balancer.Backend.{Backend}
use l7_load_balancer.Bytes.{Bytes}
use l7_load_balancer.Http.Chunked.{
  Framing, framed, incomplete, out_of_fuel, try_consume_chunked_body,
}
use l7_load_balancer.Router.Routing.{Routing, Accounts}
use l7_load_balancer.Connection.{ProxyConnection, Sys, Recv, received, on_conn}
use l7_load_balancer.Connection.Deadline.{refresh_deadline}
use l7_load_balancer.Connection.Handlers.{
  prepare_relay, relay_framed, settle_sized, settle, take_response, end_response, end_chunked,
  read_response, body_at_end, note_status, note_headers,
}
use l7_load_balancer.Connection.Events.Sound
use l7_load_balancer.Connection.Events.Requests

module _ (routing : Routing) (accounts : Accounts routing) (b : Backend) (k : ℕ) where
  open routing use {Router, IsValid}

  abbrev Books : Sys Router → Type 0
  Books s = Sound.Sound routing accounts b k s

  same-Books :
      (c : ProxyConnection) (s : Sys Router)
      → c.backend_addr ≡ s.conn.backend_addr
      → c.disconnect_notified ≡ s.conn.disconnect_notified
      → c.state ≡ s.conn.state
      → Books s
      → Books (record s { conn = c })
  same-Books c s e f g q = record {
    account = rw (e, f) q.account;
    fresh = λ d. e ∙ q.fresh (sym g ∙ d);
  }

  -- A handler that returns keeps the books.
  abbrev pub OnSome : Option (Sys Router) → Type 0
  OnSome none = Unit
  OnSome (some s) = Books s

  relay_framed-Books :
      (hlen : ℕ) (f : Framing) (s : Sys Router) → Books s → OnSome (relay_framed hlen f s)
  unfolding relay_framed
  relay_framed-Books hlen (framed n) s q =
      Requests.relay_all-Books routing accounts b k _
        (record { account = q.account; fresh = q.fresh })
  relay_framed-Books hlen incomplete s q = q
  relay_framed-Books hlen out_of_fuel s q = tt

  settle_sized-Books : (n : ℕ) (s : Sys Router) → Books s → OnSome (settle_sized n s)
  unfolding settle_sized
  settle_sized-Books n s q =
      let counted : Sys Router = on_conn (λ c. record c { response_body_received = n }) s in
      let kept : Books counted = record { account = q.account; fresh = q.fresh } in
      if_split OnSome
        (leb_ℤ (pos 0) s.conn.response_content_length
          && leb_ℤ s.conn.response_content_length (pos n))
        (some (prepare_relay counted)) (some counted)
        (λ _. Requests.relay_all-Books routing accounts b k counted kept) (λ _. kept)

  settle-Books : (s : Sys Router) → Books s → OnSome (settle s)
  unfolding settle
  settle-Books s q =
      if_split OnSome s.conn.response_is_chunked _ _ (λ _. relay_framed-Books _ _ s q)
        (λ _. settle_sized-Books _ s q)

  note_same :
      (c : ProxyConnection)
      → ((note_headers (note_status c)).backend_addr ≡ c.backend_addr)
        × ((note_headers (note_status c)).disconnect_notified ≡ c.disconnect_notified)
        × ((note_headers (note_status c)).state ≡ c.state)
  unfolding note_headers note_status
  note_same c = ground arith

  take_response-Books : (bytes : Bytes) (s : Sys Router) → Books s → OnSome (take_response bytes s)
  unfolding take_response
  take_response-Books bytes s q =
      let longer : Sys Router =
        on_conn (λ c. record c { response_buf = c.response_buf ++ bytes }) s in
      let extended : Sys Router = refresh_deadline longer in
      let kept : Books extended =
        Requests.refresh-Books routing accounts b k longer
          (record { account = q.account; fresh = q.fresh }) in
      let (e, f, g) = note_same extended.conn in
      let noted : Books (record extended { conn = note_headers (note_status extended.conn) }) =
        same-Books (note_headers (note_status extended.conn)) extended e f g kept in
      if_split OnSome (note_headers (note_status extended.conn)).response_headers_done _ _
        (λ _. settle-Books _ noted) (λ _. noted)

  end_response-Books : (s : Sys Router) → Books s → OnSome (end_response routing s)
  unfolding end_response
  end_response-Books s q =
      if_split OnSome (s.conn.response_is_chunked && s.conn.response_headers_done) _ _
        (λ _. end_chunked-Books (try_consume_chunked_body (body_at_end s.conn.response_buf)))
        (λ _. Requests.relay_all-Books routing accounts b k s q)
    where
      end_chunked-Books : (f : Framing) → OnSome (end_chunked routing f s)
      end_chunked-Books (framed n) = Requests.relay_all-Books routing accounts b k s q
      end_chunked-Books incomplete = Requests.fail-Books routing accounts b k s q
      end_chunked-Books out_of_fuel = tt

  pub read_response-Books :
      (r : Recv) (s : Sys Router) → Books s → OnSome (read_response routing r s)
  read_response-Books Recv.would_block s q = q
  read_response-Books Recv.failed s q = Requests.fail-Books routing accounts b k s q
  read_response-Books (received []) s q = end_response-Books s q
  read_response-Books (received (x ∷ xs)) s q = take_response-Books (x ∷ xs) s q
