-- ===== src/Connection/Events/Sound.antt =====
-- The books through `_finish`, `_send_error` and a connect.
use l7_load_balancer.Prelude.{
  ℕ, ◌+◌, ◌≡◌, refl, sym, ap, ◌∙◌, Option, none, some, Bool, true, false, inl, inr, Bool-cases, ◌≢◌,
  ◌==◌,
}
use l7_load_balancer.Backend.{Backend}
use l7_load_balancer.Bytes.{Bytes, codes}
use l7_load_balancer.Router.Routing.{Routing, Accounts}
use l7_load_balancer.Connection.{
  reading_request, connecting_to_backend, forwarding_request, Dialled, errno, raises, Sys,
  set_state, tick,
}
use l7_load_balancer.Connection.Deadline.{refresh_deadline, refresh_by, timeout_for_state}
use l7_load_balancer.Connection.Finish.{finish, tell, send_error}
use l7_load_balancer.Connection.Connect.{
  open_socket, initiate_with, after_connect, escape, retry_with, reset_for, in_progress,
}
use l7_load_balancer.Connection.Events.Ledger
use l7_load_balancer.Connection.Events.Ledger.{holds}

module _ (routing : Routing) (accounts : Accounts routing) (b : Backend) (k : ℕ) where
  open routing use {Router, IsValid}

  abbrev pub Account : Sys Router → Type 0
  Account s = Ledger.Account routing accounts b k s

  abbrev pub Released : Sys Router → Type 0
  Released s = Ledger.Released routing accounts b k s

  -- The books are kept, and a new connection has no backend.
  pub record Sound (s : Sys Router) : Type 0 where
    pub account : Account s
    pub fresh : s.conn.state ≡ reading_request → s.conn.backend_addr ≡ none

  pub finish-Sound : (s : Sys Router) → Account s → Sound (finish routing s)
  unfolding finish
  finish-Sound s a =
      let (kept, free) = Ledger.notify-Account routing accounts b k _ (
        Ledger.log_access-Account routing accounts b k s.conn.parsed_request s.conn.backend_addr _
          s.conn (tick s) a) in
      record { account = kept; fresh = λ e. cc }

  tell-Account :
      (ok : Bool) (response : Bytes) (s : Sys Router)
      → Account s
      → Account (tell routing ok response s)
  unfolding tell
  tell-Account true response s a = a
  tell-Account false response s a = a

  pub send_error-Sound :
      (code : ℕ) (reason : Bytes) (s : Sys Router)
      → Account s
      → Sound (send_error routing code reason s)
  unfolding send_error
  send_error-Sound code reason s a =
      finish-Sound _ (tell-Account (s.world.takes_sendall s.world.readings) _ s a)

  pub refresh-state : (s : Sys Router) → (refresh_deadline s).conn.state ≡ s.conn.state
  unfolding refresh_deadline refresh_by
  refresh-state s = refresh_by-state (timeout_for_state s.conn.state) s
    where
      refresh_by-state :
          (t : Option ℕ) (q : Sys Router) → (refresh_by t q).conn.state ≡ q.conn.state
      refresh_by-state none q = refl
      refresh_by-state (some t) q = refl

  -- A state between a new connection and a done one asks for nothing more.
  pub refresh-Sound :
      (s : Sys Router) → Account s → s.conn.state ≢ reading_request → Sound (refresh_deadline s)
  refresh-Sound s a not_new = record {
    account = Ledger.refresh-Account routing accounts b k s a;
    fresh = λ e. absurd (not_new (sym (refresh-state s) ∙ e));
  }

  open_socket-Account :
      (c : Backend) (s : Sys Router) → Account s → Account (open_socket routing c s)
  unfolding open_socket
  open_socket-Account c s a =
      Ledger.refresh-Account routing accounts b k (set_state connecting_to_backend s) a

  open_socket-state :
      (c : Backend) (s : Sys Router) → (open_socket routing c s).conn.state ≡ connecting_to_backend
  unfolding open_socket
  open_socket-state c s = refresh-state (set_state connecting_to_backend s)

  pub open_socket-Sound :
      (c : Backend) (s : Sys Router) → Account s → Sound (open_socket routing c s)
  open_socket-Sound c s a = record {
    account = open_socket-Account c s a;
    fresh = λ p. cc (open_socket-state c s);
  }

  module _ (fail : Sys Router → Sys Router)
      (fails : (s : Sys Router) → Sound s → Sound (fail s)) where
    pub initiate-Sound :
        (c : Backend) (s : Sys Router) → Account s → Sound (initiate_with routing fail c s)
    unfolding initiate_with after_connect escape
    initiate-Sound c s a =
        after (open_socket routing c s) (open_socket-Sound c s a)
          (s.world.connect_ex s.world.connects c)
      where
        after : (t : Sys Router) → Sound t → (o : Dialled) → Sound (after_connect routing fail o t)
        after t q (errno n) = elim (Bool-cases (n == 0)) [
          | inl e ↦ rw e (refresh-Sound (set_state forwarding_request t) q.account (λ p. cc))
          | inr e ↦ elim (Bool-cases (in_progress n)) [
            | inl f ↦ rw (e, f) q
            | inr f ↦ rw (e, f) (fails t q)
          ]
        ]
        after t q raises = record { account = q.account; fresh = λ p. cc }

    pub retry-Sound :
        (picked : Option Backend × Router) (s : Sys Router)
        → Released s
        → Ledger.Owes routing accounts b k picked.1 picked.0 false
        → Sound (retry_with routing fail picked s)
    unfolding retry_with reset_for
    retry-Sound (none, r) s free o =
        send_error-Sound 502 (codes "Bad Gateway") (record s { router = r })
          (record { valid = o.valid; owed = o.owed ∙ ap (λ n. k + n) (sym free) })
    retry-Sound (some c, r) s free o =
        initiate-Sound c (record s { conn = reset_for c s.conn; router = r }) o
