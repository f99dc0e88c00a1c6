-- ===== src/Connection/Events/Ledger.antt =====
-- The books of one connection: what it holds of a backend, and the steps that keep the count.
use mathlib.Core.Logic.{ite}
use l7_load_balancer.Prelude.{
  ℕ, ◌+◌, ◌-◌, ◌≡◌, refl, sym, ◌∙◌, Option, none, some, Bool, true, false, arith,
}
use l7_load_balancer.Backend.{Backend, Backend-discrete}
use l7_load_balancer.Http.Request.{HttpRequest}
use l7_load_balancer.Router.Routing.{Routing, Accounts}
use l7_load_balancer.Connection.{ProxyConnection, Sys}
use l7_load_balancer.Connection.Deadline.{refresh_deadline, refresh_by, timeout_for_state}
use l7_load_balancer.Connection.Finish.{notify, log_access}

-- What the connection holds of backend `b`: one, from the choice of `b` to the disconnect.
abbrev pub holds : Backend → Option Backend → Bool → ℕ
holds b none notified = 0
holds b (some a) true = 0
holds b (some a) false = ite (Backend-discrete a b) 1 0

module _ (routing : Routing) (accounts : Accounts routing) (b : Backend) (k : ℕ) where
  open routing use {Router, IsValid}

  -- The load of `b` is `k`, which others hold, and what this connection holds.
  pub record Owes (r : Router) (addr : Option Backend) (notified : Bool) : Type 0 where
    pub valid : IsValid r
    pub owed : accounts.load r b ≡ k + holds b addr notified

  abbrev pub Account : Sys Router → Type 0
  Account s = Owes s.router s.conn.backend_addr s.conn.disconnect_notified

  abbrev pub Released : Sys Router → Type 0
  Released s = holds b s.conn.backend_addr s.conn.disconnect_notified ≡ 0

  refresh_by-Account : (t : Option ℕ) (s : Sys Router) → Account s → Account (refresh_by t s)
  unfolding refresh_by
  refresh_by-Account none s a = a
  refresh_by-Account (some t) s a = a

  pub refresh-Account : (s : Sys Router) → Account s → Account (refresh_deadline s)
  unfolding refresh_deadline
  refresh-Account s a = refresh_by-Account (timeout_for_state s.conn.state) s a

  released_count :
      (c : Backend) (n : ℕ)
      → k + holds b (some c) false ≡ n
      → ite (Backend-discrete c b) (n - 1) n ≡ k + 0
  released_count c n e = ground arith

  -- `on_disconnect` is called once for what is held, and then nothing is held.
  notify_step :
      (s : Sys Router) (addr : Option Backend) (notified : Bool)
      → s.conn.backend_addr ≡ addr
      → s.conn.disconnect_notified ≡ notified
      → Owes s.router addr notified
      → Account (notify routing s) × Released (notify routing s)
  unfolding notify
  notify_step s none notified e f a = rw e (record { valid = a.valid; owed = a.owed }, refl)
  notify_step s (some c) true e f a = rw (e, f) (a, refl)
  notify_step s (some c) false e f a =
      rw (e, f)
        (
          record {
            valid = routing.valid_disconnect s.router c a.valid;
            owed = accounts.load_disconnect s.router c b ∙ released_count c _ (sym a.owed);
          },
          refl,
        )

  pub notify-Account :
      (s : Sys Router) → Account s → Account (notify routing s) × Released (notify routing s)
  notify-Account s a = notify_step s s.conn.backend_addr s.conn.disconnect_notified refl refl a

  pub log_access-Account :
      (q : Option HttpRequest) (addr : Option Backend) (n : ℕ) (c : ProxyConnection)
      (s : Sys Router)
      → Account s
      → Account (log_access routing q addr n c s)
  log_access-Account (some q) (some a) n c s acc = acc
  log_access-Account none addr n c s acc = acc
  log_access-Account (some q) none n c s acc = acc
