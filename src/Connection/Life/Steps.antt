-- ===== src/Connection/Life/Steps.antt =====
-- Every step of the handlers is a number of changes of the core.
use l7_load_balancer.Prelude.{
  ℕ, ◌+◌, ◌-◌, ◌≡◌, refl, ap, ◌∙◌, List, [], ◌∷◌, ◌++◌, append-nil, Option, none, some, Bool, true,
  false, arith,
}
use l7_load_balancer.Backend.{Backend}
use l7_load_balancer.Bytes.{Bytes}
use l7_load_balancer.Http.Request.{HttpRequest}
use l7_load_balancer.Router.Routing.{Routing}
use l7_load_balancer.Connection.{
  connecting_to_backend, done, Socket, ProxyConnection, Sys, Effect, opened, closed, sent_all,
  logged, emit, on_conn, set_state, tick,
}
use l7_load_balancer.Connection.Deadline.{refresh_deadline, refresh_by, timeout_for_state}
use l7_load_balancer.Connection.Finish.{notify, log_access, finish, tell, send_error}
use l7_load_balancer.Connection.Connect.{drop_socket, note_tried, give_up, open_socket}
use l7_load_balancer.Connection.Life.{
  opened_of, Core, core, connecting, dropped, with_tried, or_old,
}

opened_of-append : (es fs : List Effect) → opened_of (es ++ fs) ≡ opened_of es ++ opened_of fs
opened_of-append [] fs = refl
opened_of-append (opened sock b ∷ es) fs = ap (λ q. b ∷ q) (opened_of-append es fs)
opened_of-append (closed sock ∷ es) fs = opened_of-append es fs
opened_of-append (sent_all bytes ∷ es) fs = opened_of-append es fs
opened_of-append (logged entry ∷ es) fs = opened_of-append es fs

-- An effect that opens nothing leaves the core as it was.
core-emit :
    (R : Type 0) (e : Effect) (s : Sys R) → opened_of (e ∷ []) ≡ [] → core (emit e s) ≡ core s
core-emit R e s h =
    ap (λ q. put_opened q)
      (opened_of-append s.world.effects (e ∷ [])
        ∙ ap (λ q. opened_of s.world.effects ++ q) h
        ∙ append-nil (opened_of s.world.effects))
  where
    put_opened : List Backend → Core
    put_opened q = record (core s) { opened = q }

core-refresh_by : {R : Type 0} (t : Option ℕ) (s : Sys R) → core (refresh_by t s) ≡ core s
unfolding refresh_by
core-refresh_by none s = refl
core-refresh_by (some t) s = refl

pub core-refresh : {R : Type 0} (s : Sys R) → core (refresh_deadline s) ≡ core s
unfolding refresh_deadline
core-refresh s = core-refresh_by (timeout_for_state s.conn.state) s

abbrev pub set_done : Core → Core
set_done c = record c { state = done }

abbrev drop_sock : Option Socket → Core → Core
drop_sock sock c = record c { backend_sock = none; pending = or_old sock c.pending }

abbrev note : Option Backend → Core → Core
note addr c = record c { tried = with_tried addr c.tried }

-- A socket is opened, for the backend and the attempt that are set.
abbrev open_core : Backend → Core → Core
open_core b c = record c {
  backend_sock = some c.connects;
  connects = c.connects + 1;
  opened = c.opened ++ b ∷ [];
}

abbrev pub with_attempt : Option Backend → ℕ → Core → Core
with_attempt addr n c = record c { backend_addr = addr; attempts = n }

module _ (routing : Routing) where
  open routing use {Router, next_backend}

  pub core-notify : (s : Sys Router) → core (notify routing s) ≡ core s
  unfolding notify
  core-notify s = ground arith

  core-log_access :
      (req : Option HttpRequest) (addr : Option Backend) (latency : ℕ) (c : ProxyConnection)
      (s : Sys Router)
      → core (log_access routing req addr latency c s) ≡ core s
  core-log_access none addr latency c s = refl
  core-log_access (some req) none latency c s = refl
  core-log_access (some req) (some b) latency c s = core-emit Router _ s refl

  pub core-finish : (s : Sys Router) → core (finish routing s) ≡ set_done (core s)
  unfolding finish
  core-finish s = ap set_done (
      core-notify (
        log_access routing s.conn.parsed_request s.conn.backend_addr
          (s.world.clock s.world.readings - s.conn.start_time) s.conn (tick s))
      ∙ core-log_access s.conn.parsed_request s.conn.backend_addr _ s.conn (tick s))

  pub core-tell :
      (ok : Bool) (response : Bytes) (s : Sys Router) → core (tell routing ok response s) ≡ core s
  unfolding tell
  core-tell true response s =
      core-emit Router (sent_all response) (on_conn (λ c. record c { client_bytes_sent = true }) s)
        refl
  core-tell false response s = refl

  pub core-send_error :
      (code : ℕ) (reason : Bytes) (s : Sys Router)
      → core (send_error routing code reason s) ≡ set_done (core s)
  unfolding send_error
  core-send_error code reason s =
      core-finish _ ∙ ap set_done (core-tell (s.world.takes_sendall s.world.readings) _ s)

  core-drop_socket :
      (sock : Option Socket) (s : Sys Router)
      → s.conn.backend_sock ≡ sock
      → core (drop_socket routing sock s) ≡ drop_sock sock (core s)
  core-drop_socket none s e = ap with_sock e
    where
      with_sock : Option Socket → Core
      with_sock q = record (core s) { backend_sock = q }
  core-drop_socket (some sock) s e =
      core-emit Router (closed sock)
        (on_conn (λ c. record c { pending_backend_unregister = some sock; backend_sock = none }) s)
        refl

  core-note_tried :
      (failed : Option Backend) (s : Sys Router)
      → core (on_conn (note_tried failed) s) ≡ note failed (core s)
  core-note_tried none s = refl
  core-note_tried (some b) s = refl

  pub core-give_up : (s : Sys Router) → core (give_up routing s) ≡ dropped (core s)
  unfolding give_up
  core-give_up s =
      core-note_tried s.conn.backend_addr
        (drop_socket routing s.conn.backend_sock (notify routing s))
      ∙ ap (note s.conn.backend_addr) (
          core-drop_socket s.conn.backend_sock (notify routing s)
            (ap (λ c. c.backend_sock) (core-notify s))
          ∙ ap (drop_sock s.conn.backend_sock) (core-notify s))

  pub core-open_socket :
      (b : Backend) (n : ℕ) (s : Sys Router)
      → s.conn.backend_addr ≡ some b
      → s.conn.backend_attempts ≡ n
      → core (open_socket routing b s) ≡ connecting b n (core s)
  unfolding open_socket
  core-open_socket b n s e f =
      let waiting : Sys Router = refresh_deadline (set_state connecting_to_backend s) in
      ap (λ q. put_opened waiting q)
        (opened_of-append waiting.world.effects (opened waiting.world.connects b ∷ []))
      ∙ ap (open_core b) (core-refresh (set_state connecting_to_backend s))
      ∙ ap
          (λ a.
            with_attempt a s.conn.backend_attempts
              (open_core b (core (set_state connecting_to_backend s))))
          e
      ∙ ap (λ m. with_attempt (some b) m (open_core b (core (set_state connecting_to_backend s)))) f
    where
      put_opened : Sys Router → List Backend → Core
      put_opened w q = record (core w) {
        backend_sock = some w.world.connects;
        connects = w.world.connects + 1;
        opened = q;
      }
