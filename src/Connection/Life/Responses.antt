-- ===== src/Connection/Life/Responses.antt =====
-- What a backend sends, and every event and every run of a connection, as changes of the core.
use l7_load_balancer.Prelude.{
  ℕ, ◌≡◌, refl, sym, ap, ◌∙◌, subst, List, [], ◌∷◌, ◌++◌, Option, none, some, arith, ◌&&◌, leb_ℤ,
  pos, if_split, and_then,
}
use l7_load_balancer.Bytes.{Bytes}
use l7_load_balancer.Http.Chunked.{
  Framing, framed, incomplete, out_of_fuel, try_consume_chunked_body,
}
use l7_load_balancer.Router.Routing.{Routing}
use l7_load_balancer.Connection.{
  State, reading_response, forwarding_response, Sys, Recv, received, on_conn,
}
use l7_load_balancer.Connection.Deadline.{refresh_deadline}
use l7_load_balancer.Connection.Connect.{fail_backend}
use l7_load_balancer.Connection.Handlers.{
  prepare_relay, relay_framed, settle_sized, settle, take_response, end_response, end_chunked,
  body_at_end, note_status, note_headers, backend_readable_in, handle_client_readable,
  handle_backend_writable, handle_backend_readable, handle_client_writable,
}
use l7_load_balancer.Connection.Events.{
  Event, client_readable, client_writable, backend_readable, backend_writable, timeout, handle, run,
}
use l7_load_balancer.Connection.Life.{Core, core, HasBackend, answered, Changes, Changes-trans}
use l7_load_balancer.Connection.Life.Steps.{core-refresh}
use l7_load_balancer.Connection.Life.Retries.{Does, Does-same, Does-one, fail_backend-Does}
use l7_load_balancer.Connection.Life.Handlers.{
  backend_writable-Does, client_readable-Does, client_writable-Does, timeout-Does,
}

module _ (routing : Routing) where
  open routing use {Router}

  -- The same of a handler that may never return.
  abbrev pub DoesIf : Core → Option (Sys Router) → Type 0
  DoesIf c none = Unit
  DoesIf c (some s) = Does routing c s

  -- The whole response is handed over.
  relay_all-Does :
      (c : Core) (s : Sys Router)
      → core s ≡ c
      → c.state ≡ reading_response
      → Does routing c (prepare_relay s)
  unfolding prepare_relay
  relay_all-Does c s e h = Does-one routing c (at_relay c) (prepare_relay s) (answered c h) (
      core-refresh (
        on_conn
          (λ c. record c {
            relay_buf = c.response_buf;
            relay_offset = 0;
            state = forwarding_response;
          })
          s)
      ∙ ap at_relay e)
    where
      at_relay : Core → Core
      at_relay d = record d { state = forwarding_response }

  given_up :
      (c : Core) (s : Sys Router)
      → core s ≡ c
      → c.state ≡ reading_response
      → Does routing c (fail_backend routing s)
  given_up c s e h =
      subst (λ d. Does routing d (fail_backend routing s)) e
        (fail_backend-Does routing s (subst HasBackend (sym (ap (λ d. d.state) e ∙ h)) tt))

  module _ (c : Core) (h : c.state ≡ reading_response) where
    framed-Does :
        (hlen : ℕ) (f : Framing) (s : Sys Router) → core s ≡ c → DoesIf c (relay_framed hlen f s)
    unfolding relay_framed
    framed-Does hlen (framed n) s e = relay_all-Does c _ e h
    framed-Does hlen incomplete s e = Does-same routing c s e
    framed-Does hlen out_of_fuel s e = tt

    settle_sized-Does : (n : ℕ) (s : Sys Router) → core s ≡ c → DoesIf c (settle_sized n s)
    unfolding settle_sized
    settle_sized-Does n s e =
        let counted : Sys Router = on_conn (λ c. record c { response_body_received = n }) s in
        if_split (DoesIf c)
          (leb_ℤ (pos 0) s.conn.response_content_length
            && leb_ℤ s.conn.response_content_length (pos n))
          (some (prepare_relay counted)) (some counted) (λ _. relay_all-Does c counted e h)
          (λ _. Does-same routing c counted e)

    settle-Does : (s : Sys Router) → core s ≡ c → DoesIf c (settle s)
    unfolding settle
    settle-Does s e =
        if_split (DoesIf c) s.conn.response_is_chunked _ _ (λ _. framed-Does _ _ s e)
          (λ _. settle_sized-Does _ s e)

    take_response-Does :
        (bytes : Bytes) (s : Sys Router) → core s ≡ c → DoesIf c (take_response bytes s)
    unfolding take_response note_headers note_status
    take_response-Does bytes s e =
        let longer : Sys Router =
          on_conn (λ c. record c { response_buf = c.response_buf ++ bytes }) s in
        let extended : Sys Router = refresh_deadline longer in
        let noted : Sys Router = on_conn (λ c. note_headers (note_status c)) extended in
        let kept : core noted ≡ c = core-noted extended ∙ core-refresh longer ∙ e in
        if_split (DoesIf c) (note_headers (note_status extended.conn)).response_headers_done _ _
          (λ _. settle-Does noted kept) (λ _. Does-same routing c noted kept)
      where
        core-noted :
            (t : Sys Router) → core (on_conn (λ c. note_headers (note_status c)) t) ≡ core t
        core-noted t = ground arith

    end_response-Does : (s : Sys Router) → core s ≡ c → DoesIf c (end_response routing s)
    unfolding end_response
    end_response-Does s e =
        if_split (DoesIf c) (s.conn.response_is_chunked && s.conn.response_headers_done) _ _
          (λ _. cut-Does (try_consume_chunked_body (body_at_end s.conn.response_buf)))
          (λ _. relay_all-Does c s e h)
      where
        cut-Does : (f : Framing) → DoesIf c (end_chunked routing f s)
        cut-Does (framed n) = relay_all-Does c s e h
        cut-Does incomplete = given_up c s e h
        cut-Does out_of_fuel = tt

  backend_readable-Does :
      (st : State) (r : Recv) (s : Sys Router)
      → s.conn.state ≡ st
      → DoesIf (core s) (backend_readable_in routing st r s)
  unfolding backend_readable_in
  backend_readable-Does reading_response Recv.would_block s h = Does-same routing (core s) s refl
  backend_readable-Does reading_response Recv.failed s h = given_up (core s) s refl h
  backend_readable-Does reading_response (received []) s h = end_response-Does (core s) h s refl
  backend_readable-Does reading_response (received (x ∷ xs)) s h =
      take_response-Does (core s) h (x ∷ xs) s refl
  backend_readable-Does _ r s h = Does-same routing (core s) s refl

  pub handle-Does : (e : Event) (s : Sys Router) → DoesIf (core s) (handle routing e s)
  unfolding handle handle_client_readable handle_backend_writable handle_backend_readable
      handle_client_writable
  handle-Does (client_readable r) s = client_readable-Does routing s.conn.state r s refl
  handle-Does (client_writable r) s = client_writable-Does routing s.conn.state r s
  handle-Does (backend_readable r) s = backend_readable-Does s.conn.state r s refl
  handle-Does (backend_writable so_error r) s =
      backend_writable-Does routing s.conn.state so_error r s refl
  handle-Does timeout s = timeout-Does routing s

  -- However a run ends, it was a number of changes.
  abbrev pub ChangesIf : Core → Option (Sys Router) → Type 0
  ChangesIf c none = Unit
  ChangesIf c (some s) = Changes c (core s)

  pub run-Changes_if : (es : List Event) (s : Sys Router) → ChangesIf (core s) (run routing es s)
  unfolding run
  run-Changes_if [] s = Changes.same (core s)
  run-Changes_if (e ∷ es) s = after (run-Changes_if es) (handle routing e s) (handle-Does e s)
    where
      later :
          (c : Core) (t : Sys Router) (r : Option (Sys Router))
          → Changes c (core t)
          → ChangesIf (core t) r
          → ChangesIf c r
      later c t none x y = tt
      later c t (some u) x y = Changes-trans c (core t) (core u) x y

      after :
          ((t : Sys Router) → ChangesIf (core t) (run routing es t))
          → (r : Option (Sys Router)) → DoesIf (core s) r
          → ChangesIf (core s) (and_then r (run routing es))
      after rest none x = tt
      after rest (some t) x = later (core s) t (run routing es t) x (rest t)
