-- ===== src/Connection/Life/Runs.antt =====
-- What every run of a new connection comes to: which backends it asks, and how often.
use l7_load_balancer.Prelude.{
  ℕ, ◌+◌, ◌≤◌, ◌≡◌, ◌⊎◌, inl, inr, refl, sym, ap, ◌∙◌, subst, List, [], some, false, arith, length,
}
use l7_load_balancer.Prelude.Dict.{contains, Distinct}
use l7_load_balancer.Backend.{Backend, Backend-discrete}
use l7_load_balancer.Bytes.{Bytes}
use l7_load_balancer.Config.{max_backend_retries}
use l7_load_balancer.Router.Routing.{Routing}
use l7_load_balancer.Connection.{
  State, Socket, Sys, World, forwarding_response, done, reading_request,
}
use l7_load_balancer.Connection.Deadline.{init}
use l7_load_balancer.Connection.Connect.{allows_retry}
use l7_load_balancer.Connection.Events.{Event, run}
use l7_load_balancer.Connection.Life.{Core, core, opened_of, HasBackend, Change, Changes}
use l7_load_balancer.Connection.Life.Steps.{core-refresh}
use l7_load_balancer.Connection.Life.Responses.{ChangesIf, run-Changes_if}
use l7_load_balancer.Connection.Life.Attempts.{IsCounted, Changes-IsCounted}

-- The backends that the connection has asked, in order.
abbrev pub asked_backends : {R : Type 0} → Sys R → List Backend
asked_backends s = opened_of s.world.effects

abbrev Settled : State → Type 0
Settled s = (s ≡ forwarding_response) ⊎ (s ≡ done)

unasked : (s : State) → s ≡ reading_request → Settled s → ⊥
unasked s h q = grind arith

unbegun : (s : State) → HasBackend s → Settled s → ⊥
unbegun s h q = grind arith

Settled-Change :
    (c d : Core) → Change c d → Settled c.state → Settled d.state × (d.opened ≡ c.opened)
Settled-Change c _ (Change.asked _ b again h) q = absurd (unasked c.state h q)
Settled-Change c _ (Change.retried _ b h again n free) q = absurd (unbegun c.state h q)
Settled-Change c _ (Change.failed _ h) q = (inr refl, refl)
Settled-Change c _ (Change.connected _ h) q = absurd (grind arith)
Settled-Change c _ (Change.forwarded _ h) q = absurd (grind arith)
Settled-Change c _ (Change.answered _ h) q = (inl refl, refl)
Settled-Change c _ (Change.unserved _ again h) q = (inr refl, refl)
Settled-Change c _ (Change.ended _) q = (inr refl, refl)

Settled-Changes :
    (c d : Core) → Changes c d → Settled c.state → Settled d.state × (d.opened ≡ c.opened)
Settled-Changes c _ (Changes.same _) q = (q, refl)
Settled-Changes c _ (Changes.more _ d e x xs) q =
    let (q', same) = Settled-Change c d x q in
    let (r, kept) = Settled-Changes d e xs q' in (r, kept ∙ same)

module _ (routing : Routing) where
  open routing use {Router}

  -- Every run of events over any router that returns is a sequence of the changes of the
  -- connection's life cycle: the request starts a connect, a connect leads to forwarding,
  -- forwarding to reading, reading to the relay; a failed backend leads to another one that was
  -- not tried, within the bound and only with an idempotent request, or to the end.
  pub run-Changes :
      (es : List Event) (s t : Sys Router) → run routing es s ≡ some t → Changes (core s) (core t)
  run-Changes es s t e = subst (ChangesIf routing (core s)) e (run-Changes_if routing es s)

  init-IsCounted :
      (sock : Socket) (addr : Bytes × ℕ) (r : Router) (w : World)
      → w.effects ≡ []
      → IsCounted (core (init sock addr r w))
  unfolding init
  init-IsCounted sock addr r w h = subst IsCounted (sym (core-refresh _)) (record {
    distinct = subst (λ es. Distinct Backend-discrete (opened_of es)) (sym h) tt;
    noted = λ x m. sym (ap (λ es. contains Backend-discrete x (opened_of es)) h) ∙ m;
    counted = ap (λ es. length (opened_of es)) h;
    bounded = omega arith;
    fresh = λ _. ap opened_of h;
    single = λ _. omega arith;
  })

  module _ (es : List Event) (sock : Socket) (addr : Bytes × ℕ) (r : Router) (w : World)
      (t : Sys Router) (quiet : w.effects ≡ [])
      (ran : run routing es (init sock addr r w) ≡ some t) where
    counts : IsCounted (core t)
    counts =
        Changes-IsCounted (core (init sock addr r w)) (core t)
          (run-Changes es (init sock addr r w) t ran) (init-IsCounted sock addr r w quiet)

    -- Whatever events come, a new connection opens at most one socket more than
    -- MAX_BACKEND_RETRIES, as many as its count of attempts says, and never two to the same
    -- backend.
    pub asks_few_backends :
        (length (asked_backends t) ≤ 1 + max_backend_retries)
        × (length (asked_backends t) ≡ t.conn.backend_attempts)
        × Distinct Backend-discrete (asked_backends t)
    asks_few_backends =
        (omega (arith, counts.counted, counts.bounded), counts.counted, counts.distinct)

    -- Whatever events come, a new connection whose request is not idempotent, or not yet parsed,
    -- opens at most one socket to a backend.
    pub asks_once : allows_retry t.conn.parsed_request ≡ false → length (asked_backends t) ≤ 1
    asks_once e = omega (arith, counts.counted, counts.single e)

  -- Whatever events come to a connection that forwards a response, if they return, it still
  -- forwards it or is done, and has opened no further socket to a backend.
  pub relay_is_final :
      (es : List Event) (s t : Sys Router)
      → s.conn.state ≡ forwarding_response
      → run routing es s ≡ some t
      → ((t.conn.state ≡ forwarding_response) ⊎ (t.conn.state ≡ done))
        × (asked_backends t ≡ asked_backends s)
  relay_is_final es s t h e = Settled-Changes (core s) (core t) (run-Changes es s t e) (inl h)
