-- ===== src/Connection/Life/Retries.antt =====
-- A failed backend: what `_fail_backend` does, however often it is called again.
use l7_load_balancer.Prelude.{
  ℕ, zero, suc, ◌+◌, ◌≤◌, ◌≡◌, refl, sym, ap, ◌∙◌, subst, Option, none, some, true, false, arith,
  if_split, ◌==◌,
}
use l7_load_balancer.Prelude.Dict.{contains}
use l7_load_balancer.Backend.{Backend, Backend-discrete}
use l7_load_balancer.Bytes.{Bytes, codes}
use l7_load_balancer.Config.{max_backend_retries}
use l7_load_balancer.Router.Routing.{Routing}
use l7_load_balancer.Connection.{
  Dialled, errno, raises, connecting_to_backend, forwarding_request, ProxyConnection, Sys,
  set_state,
}
use l7_load_balancer.Connection.Deadline.{refresh_deadline}
use l7_load_balancer.Connection.Finish.{send_error}
use l7_load_balancer.Connection.Connect.{
  allows_retry, can_retry, in_progress, reset_for, give_up, open_socket, initiate_with,
  after_connect, escape, retry_with, fail_with, fail_on, fail_backend, initiate_backend_connect,
}
use l7_load_balancer.Connection.Life.Steps.{
  set_done, with_attempt, core-refresh, core-send_error, core-open_socket, core-give_up,
}
use l7_load_balancer.Connection.Life.{
  Core, core, connecting, dropped, HasBackend, Change, retried, failed, connected, ended, Changes,
  one, Changes-trans,
}

can_retry-parts :
    (c : ProxyConnection)
    → can_retry c ≡ true
    → (allows_retry c.parsed_request ≡ true) × (c.backend_attempts ≤ max_backend_retries)
unfolding can_retry
can_retry-parts c h = ground arith

module _ (routing : Routing) where
  open routing use {Router, next_backend}

  -- What a step of the connection comes to.
  abbrev pub Does : Core → Sys Router → Type 0
  Does c s = Changes c (core s)

  pub Does-same : (c : Core) (s : Sys Router) → core s ≡ c → Does c s
  Does-same c s e = subst (Changes c) (sym e) (Changes.same c)

  pub Does-one : (c d : Core) (s : Sys Router) → Change c d → core s ≡ d → Does c s
  Does-one c d s x e = subst (Changes c) (sym e) (one c d x)

  pub Does-more : (c : Core) (s t : Sys Router) → Does c s → Changes (core s) (core t) → Does c t
  Does-more c s t x y = Changes-trans c (core s) (core t) x y

  pub send_error-Does :
      (code : ℕ) (reason : Bytes) (s : Sys Router)
      → Does (core s) (send_error routing code reason s)
  send_error-Does code reason s =
      Does-one (core s) (set_done (core s)) (send_error routing code reason s) (ended (core s))
        (core-send_error routing code reason s)

  -- A connect, and what follows it at once: `c` is where the connection came from.
  initiate-Does :
      (fail : Sys Router → Sys Router)
      → ((t : Sys Router) → HasBackend t.conn.state → Does (core t) (fail t))
      → (b : Backend) (n : ℕ) (c d : Core) (s : Sys Router) → core s ≡ d
      → s.conn.backend_addr ≡ some b
      → s.conn.backend_attempts ≡ n
      → Change c (connecting b n d)
      → Does c (initiate_with routing fail b s)
  unfolding initiate_with after_connect escape
  initiate-Does fail fails b n c d s e f g x =
      let s' = open_socket routing b s in
      let begun : core s' ≡ connecting b n d =
        core-open_socket routing b n s f g ∙ ap (connecting b n) e in
      let at : Does c s' = Does-one c (connecting b n d) s' x begun in
      let here : s'.conn.state ≡ connecting_to_backend = ap (λ q. q.state) begun in
      after s' at here (s.world.connect_ex s.world.connects b)
    where
      after :
          (s' : Sys Router)
          → Does c s'
          → s'.conn.state ≡ connecting_to_backend
          → (o : Dialled) → Does c (after_connect routing fail o s')
      after s' at here (errno n) =
          if_split {A = Sys Router} (Does c) (n == 0) _ _
            (λ _. Does-more c s' (refresh_deadline (set_state forwarding_request s')) at (
              Does-one (core s') (core (set_state forwarding_request s'))
                (refresh_deadline (set_state forwarding_request s')) (connected (core s') here)
                (core-refresh (set_state forwarding_request s'))))
            (λ _.
              if_split {A = Sys Router} (Does c) (in_progress n) _ _ (λ _. at)
                (λ _. Does-more c s' (fail s') at (fails s' (subst HasBackend (sym here) tt))))
      after s' at here raises =
          Does-more c s' (escape routing s') at
            (Does-one (core s') (set_done (core s')) (escape routing s') (ended (core s')) refl)

  fail_with-Does :
      (fail : Sys Router → Sys Router)
      → ((t : Sys Router) → HasBackend t.conn.state → Does (core t) (fail t))
      → (s : Sys Router) → HasBackend s.conn.state
      → Does (core s) (fail_with routing fail s)
  unfolding fail_with
  fail_with-Does fail fails s h =
      let gone : Sys Router = give_up routing s in
      if_split {A = Sys Router} (Does (core s)) (can_retry gone.conn) _ _
        (λ e.
          retry-Does gone e (next_backend gone.router gone.conn.tried_backends)
            (λ b f. routing.excluded gone.router gone.conn.tried_backends b f)
            (core-give_up routing s))
        (λ _. refused gone (core-give_up routing s))
    where
      refused :
          (gone : Sys Router)
          → core gone ≡ dropped (core s)
          → Does (core s) (send_error routing 502 (codes "Bad Gateway") gone)
      refused gone e =
          Does-one (core s) (set_done (dropped (core s)))
            (send_error routing 502 (codes "Bad Gateway") gone) (failed (core s) h)
            (core-send_error routing 502 (codes "Bad Gateway") gone ∙ ap set_done e)

      retry-Does :
          (gone : Sys Router)
          → can_retry gone.conn ≡ true
          → (picked : Option Backend × Router)
          → ((b : Backend)
              → picked.0 ≡ some b
              → contains Backend-discrete b gone.conn.tried_backends ≡ false)
          → core gone ≡ dropped (core s)
          → Does (core s) (retry_with routing fail picked gone)
      retry-Does gone ok (none, r) free e =
          unfold retry_with in refused (record gone { router = r }) e
      retry-Does gone ok (some b, r) free e =
          unfold retry_with in
          initiate-Does fail fails b (gone.conn.backend_attempts + 1) (core s)
            (with_attempt (some b) (gone.conn.backend_attempts + 1) (core gone))
            (record gone { conn = reset_for b gone.conn; router = r }) (unfold reset_for in refl)
            (unfold reset_for in refl) (unfold reset_for in refl)
            (subst (λ d. Change (core s) (connecting b (d.attempts + 1) d)) (sym e)
              (retried (core s) b h
                (sym (ap (λ d. d.may_retry) e) ∙ (can_retry-parts gone.conn ok).0)
                (subst (λ n. n ≤ max_backend_retries) (ap (λ d. d.attempts) e)
                  (can_retry-parts gone.conn ok).1)
                (subst (λ d. contains Backend-discrete b d.tried ≡ false) e (free b refl))))

  fail_on-Does :
      (fuel : ℕ) (s : Sys Router) → HasBackend s.conn.state → Does (core s) (fail_on routing fuel s)
  unfolding fail_on
  fail_on-Does zero s h = Does-same (core s) s refl
  fail_on-Does (suc fuel) s h = fail_with-Does (fail_on routing fuel) (fail_on-Does fuel) s h

  pub fail_backend-Does :
      (s : Sys Router) → HasBackend s.conn.state → Does (core s) (fail_backend routing s)
  unfolding fail_backend
  fail_backend-Does s h = fail_on-Does (max_backend_retries + 2) s h

  pub initiate_backend_connect-Does :
      (b : Backend) (n : ℕ) (c d : Core) (s : Sys Router)
      → core s ≡ d
      → s.conn.backend_addr ≡ some b
      → s.conn.backend_attempts ≡ n
      → Change c (connecting b n d)
      → Does c (initiate_backend_connect routing b s)
  unfolding initiate_backend_connect
  initiate_backend_connect-Does b n c d s =
      initiate-Does (fail_backend routing) fail_backend-Does b n c d s
