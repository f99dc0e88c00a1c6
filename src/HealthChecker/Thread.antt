-- ===== src/HealthChecker/Thread.antt =====
-- `HealthChecker` of health_checker.py: its thread, from `start` to `stop`.
use l7_load_balancer.Prelude.{
  ℕ, ◌+◌, ◌≡◌, refl, sym, ap, ◌∙◌, List, [], ◌∷◌, Bool, true, false, if◌then◌else◌, if_split,
  Option, none, some, and_then,
}
use l7_load_balancer.Backend.{Backend}
use l7_load_balancer.Router.Routing.{Routing}
use l7_load_balancer.HealthChecker.{Answer, probe, check, sweep_from, sweep}
use l7_load_balancer.HealthChecker.Sweep.{verdict, in_pool, in_pool-sweep, sweep-IsValid}

-- What has become of `_thread`.
pub data Thread : Type 0 where
  unborn running ended : Thread

pub record HealthChecker (R : Type 0) : Type 0 where
  pub router : R
  pub stop_event : Bool
  pub thread : Thread

-- A call of `stop`, or one turn of the thread's loop with the answers to its probes. A `stop` within
-- a turn counts as after it, since only the head of the loop reads the event.
pub data Act : Type 0 where
  stops : Act
  turns : (ℕ → Answer) → Act

module _ {R : Type 0} where
  unfoldable pub init : R → HealthChecker R
  init r = record { router = r; stop_event = false; thread = unborn }

  -- A thread starts once: `none` is the RuntimeError of the second time.
  unfoldable pub start : HealthChecker R → Option (HealthChecker R)
  start h = started h.thread
    where
      started : Thread → Option (HealthChecker R)
      started unborn = some (record h { thread = running })
      started _ = none

  -- `none` is the RuntimeError of `join` on a thread that was not started. The wait in `join` is
  -- bounded, so the thread may still be running.
  unfoldable pub stop : HealthChecker R → Option (HealthChecker R)
  stop h = joined h.thread
    where
      joined : Thread → Option (HealthChecker R)
      joined unborn = none
      joined _ = some (record h { stop_event = true })

module _ (routing : Routing) where
  open routing use {Router, IsValid, get_all_backends}

  -- The test at the head of the loop, and the sweep.
  unfoldable pub turn : (ℕ → Answer) → HealthChecker Router → HealthChecker Router
  turn net h = turned h.thread
    where
      turned : Thread → HealthChecker Router
      turned running =
          if h.stop_event
          then record h { thread = ended }
          else record h { router = sweep routing net h.router }
      turned _ = h

  unfoldable pub act : Act → HealthChecker Router → Option (HealthChecker Router)
  unfolding stop turn
  act stops h = stop h
  act (turns net) h = some (turn net h)

  unfoldable pub run : List Act → HealthChecker Router → Option (HealthChecker Router)
  unfolding act
  run [] h = some h
  run (a ∷ acts) h = and_then (act a h) (run acts)

-- The sweeps before the first `stop`.
abbrev pub heard : List Act → List (ℕ → Answer)
heard [] = []
heard (stops ∷ acts) = []
heard (turns net ∷ acts) = net ∷ heard acts

-- Whether `c` is in the pool after sweeps over these backends.
abbrev pub verdicts : List (ℕ → Answer) → List Backend → Backend → Bool → Bool
verdicts [] bs c before = before
verdicts (net ∷ nets) bs c before = verdicts nets bs c (verdict net 0 bs c before)

module _ (routing : Routing) where
  open routing use {Router, IsValid, get_all_backends}

  -- Where a run comes to.
  abbrev pub Comes : List Act → HealthChecker Router → (HealthChecker Router → Type 0) → Type 0
  Comes acts h P = (h' : HealthChecker Router) × (run routing acts h ≡ some h') × P h'

  run-ended :
      (acts : List Act) (r : Router) (e : Bool)
      → Comes acts (record { router = r; stop_event = e; thread = ended }) (λ h'. h'.router ≡ r)
  unfolding run act stop turn
  run-ended [] r e = (_, refl, refl)
  run-ended (stops ∷ acts) r e = run-ended acts r true
  run-ended (turns net ∷ acts) r e = run-ended acts r e

  run-stopped :
      (acts : List Act) (r : Router)
      → Comes acts
          (record { router = r; stop_event = true; thread = running })
          (λ h'. h'.router ≡ r)
  unfolding run act stop turn
  run-stopped [] r = (_, refl, refl)
  run-stopped (stops ∷ acts) r = run-stopped acts r
  run-stopped (turns net ∷ acts) r = run-ended acts r true

  all_backends-sweep_from :
      (net : ℕ → Answer) (n : ℕ) (bs : List Backend) (r : Router)
      → get_all_backends (sweep_from routing net n bs r) ≡ get_all_backends r
  unfolding sweep_from check
  all_backends-sweep_from net n [] r = refl
  all_backends-sweep_from net n (b ∷ bs) r =
      all_backends-sweep_from net (n + 1) bs (check routing b (net n) r)
      ∙ if_split (λ r'. get_all_backends r' ≡ get_all_backends r) (probe (net n)) _ _
          (λ _. routing.all_healthy r b) (λ _. routing.all_unhealthy r b)

  all_backends-sweep :
      (net : ℕ → Answer) (r : Router) → get_all_backends (sweep routing net r) ≡ get_all_backends r
  unfolding sweep
  all_backends-sweep net r = all_backends-sweep_from net 0 (get_all_backends r) r

  run-running :
      (acts : List Act) (r : Router) (c : Backend)
      → IsValid r
      → Comes acts
          (record { router = r; stop_event = false; thread = running })
          (λ h'.
            in_pool routing c h'.router
            ≡ verdicts (heard acts) (get_all_backends r) c (in_pool routing c r))
  unfolding run act stop turn
  run-running [] r c v = (_, refl, refl)
  run-running (stops ∷ acts) r c v =
      let (h', e, p) = run-stopped acts r in (h', e, ap (in_pool routing c) p)
  run-running (turns net ∷ acts) r c v =
      let (h', e, p) = run-running acts (sweep routing net r) c (sweep-IsValid routing net r v) in
      (
        h',
        e,
        p
            ∙ ap (λ bs. verdicts (heard acts) bs c (in_pool routing c (sweep routing net r)))
                (all_backends-sweep net r)
            ∙ ap (verdicts (heard acts) (get_all_backends r) c) (in_pool-sweep routing net r c v),
      )

  -- Once started over a valid router, the health checker's thread goes through any turns and calls
  -- of stop, and leaves in the pool what its sweeps before the first stop say: for each backend
  -- the last probe of the last sweep, or its state before if it is never probed.
  pub in_pool-run :
      (acts : List Act) (r : Router) (c : Backend) (h : HealthChecker Router)
      → IsValid r
      → start (init r) ≡ some h
      → (h' : HealthChecker Router) × (run routing acts h ≡ some h')
        × (in_pool routing c h'.router
            ≡ verdicts (heard acts) (get_all_backends r) c (in_pool routing c r))
  unfolding start init
  in_pool-run acts r c h v e = rw (sym (some_inj e)) (run-running acts r c v)
    where
      some_inj : {x y : HealthChecker Router} → some x ≡ some y → x ≡ y
      some_inj q = cc
