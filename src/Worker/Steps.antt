-- ===== src/Worker/Steps.antt =====
-- The books of a worker through its steps, in any order.
use l7_load_balancer.Prelude.{ℕ, refl, ◌∙◌, List, [], ◌∷◌, Option, none, some, if_split, and_then}
use l7_load_balancer.Backend.{Backend}
use l7_load_balancer.Router.Routing.{Routing, Accounts}
use l7_load_balancer.HealthChecker.{Answer, probe, check}
use l7_load_balancer.Reactor.{Ref, Reactor}
use l7_load_balancer.Reactor.Deadlines.{select_timeout}
use l7_load_balancer.Reactor.Loop.{reap, dead_of}
use l7_load_balancer.Worker.Balance.{IsBalanced, regard, AfterSome}
use l7_load_balancer.Worker.Balance.Rounds.{expired-IsBalanced, reap_each-IsBalanced}
use l7_load_balancer.Worker.Balance.Events.{serve-IsBalanced}
use l7_load_balancer.Worker.{Step, waited, served, expired, reaped, probed, step, steps}

module _ (routing : Routing) (accounts : Accounts routing) (b : Backend) (k : ℕ) where
  open routing use {Router, IsValid}

  probed-IsBalanced :
      (a : Backend) (answer : Answer) (st : Reactor Router)
      → IsBalanced routing accounts b k st
      → IsBalanced routing accounts b k (record st { router = check routing a answer st.router })
  unfolding check
  probed-IsBalanced a answer st v =
      if_split {A = Router} (λ r. IsBalanced routing accounts b k (record st { router = r }))
        (probe answer) _ _
        (λ _. record {
          valid = routing.valid_healthy st.router a v.valid;
          owed = accounts.load_healthy st.router a b ∙ v.owed;
          fresh = v.fresh;
          young = v.young;
        })
        (λ _. record {
          valid = routing.valid_unhealthy st.router a v.valid;
          owed = accounts.load_unhealthy st.router a b ∙ v.owed;
          fresh = v.fresh;
          young = v.young;
        })

  step-IsBalanced :
      (id_of : Ref → ℕ) (x : Step) (st : Reactor Router)
      → IsBalanced routing accounts b k st
      → AfterSome routing accounts b k (step routing id_of x st)
  unfolding step select_timeout reap
  step-IsBalanced id_of waited st v = regard routing accounts b k st _ refl refl refl v
  step-IsBalanced id_of (served e) st v = serve-IsBalanced routing accounts b k id_of e st v
  step-IsBalanced id_of expired st v = expired-IsBalanced routing accounts b k st v
  step-IsBalanced id_of reaped st v =
      reap_each-IsBalanced routing accounts b k id_of (dead_of routing id_of st st.connections) st v
  step-IsBalanced id_of (probed a answer) st v = probed-IsBalanced a answer st v

  pub steps-IsBalanced :
      (id_of : Ref → ℕ) (xs : List Step) (st : Reactor Router)
      → IsBalanced routing accounts b k st
      → AfterSome routing accounts b k (steps routing id_of xs st)
  unfolding steps
  steps-IsBalanced id_of [] st v = v
  steps-IsBalanced id_of (x ∷ xs) st v =
      next (step routing id_of x st) (step-IsBalanced id_of x st v)
        (λ st' q. steps-IsBalanced id_of xs st' q)
    where
      next :
          (r : Option (Reactor Router))
          → AfterSome routing accounts b k r
          → ((st' : Reactor Router)
              → IsBalanced routing accounts b k st'
              → AfterSome routing accounts b k (steps routing id_of xs st'))
          → AfterSome routing accounts b k (and_then r (steps routing id_of xs))
      next none q f = tt
      next (some st') q f = f st' q
