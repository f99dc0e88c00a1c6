-- ===== src/Router/RoundRobin/Health.antt =====
-- The pool of a `RoundRobinRouter`: `mark_healthy`, `mark_unhealthy` and what leaves it alone.
use mathlib.Core.Logic.{ite}
use l7_load_balancer.Prelude.{◌≡◌, true, false, [], ◌∷◌, List, arith}
use l7_load_balancer.Prelude.Dict.{
  contains, Distinct, contains-append, contains-discard_ne, contains-discard_self, discard-Distinct,
  concat-Distinct,
}
use l7_load_balancer.Backend.{Backend, Backend-discrete}
use l7_load_balancer.Router.RoundRobin.{
  RoundRobinRouter, init, next_backend, mark_unhealthy, mark_healthy,
}

-- No backend stands twice in the pool.
abbrev pub IsValid : RoundRobinRouter → Type 0
IsValid r = Distinct Backend-discrete r.healthy

module _ (r : RoundRobinRouter) (b : Backend) where
  pub mark_healthy-IsValid : IsValid r → IsValid (mark_healthy r b)
  unfolding mark_healthy
  mark_healthy-IsValid v = ground (arith, concat-Distinct Backend-discrete b r.healthy v)

  pub mark_unhealthy-IsValid : IsValid r → IsValid (mark_unhealthy r b)
  unfolding mark_unhealthy
  mark_unhealthy-IsValid v = ground (arith, discard-Distinct Backend-discrete b r.healthy v)

  pub contains-mark_healthy :
      (c : Backend)
      → contains Backend-discrete c (mark_healthy r b).healthy
        ≡ ite (Backend-discrete b c) true (contains Backend-discrete c r.healthy)
  unfolding mark_healthy contains
  contains-mark_healthy c = ground (arith, contains-append Backend-discrete c r.healthy (b ∷ []))

  pub contains-mark_unhealthy :
      (c : Backend)
      → IsValid r
      → contains Backend-discrete c (mark_unhealthy r b).healthy
        ≡ ite (Backend-discrete b c) false (contains Backend-discrete c r.healthy)
  unfolding mark_unhealthy
  contains-mark_unhealthy c v = ground (
    arith,
    contains-discard_ne Backend-discrete c b r.healthy,
    contains-discard_self Backend-discrete b r.healthy v,
  )

  pub all_backends-mark_healthy : (mark_healthy r b).all_backends ≡ r.all_backends
  unfolding mark_healthy
  all_backends-mark_healthy = ground arith

  pub all_backends-mark_unhealthy : (mark_unhealthy r b).all_backends ≡ r.all_backends
  unfolding mark_unhealthy
  all_backends-mark_unhealthy = ground arith

pub next_backend-IsValid :
    (r : RoundRobinRouter) (skip : List Backend) → IsValid r → IsValid (next_backend r skip).1
unfolding next_backend
next_backend-IsValid r skip v = v

-- A new router has all its backends in the pool.
pub init-IsValid :
    (backends : List Backend) → Distinct Backend-discrete backends → IsValid (init backends)
unfolding init
init-IsValid backends d = d
