-- ===== src/Router/Routing.antt =====
-- The interface that both routers of router.py share, and what its clients may rely on.
-- `Accounts` is what only a router that counts connections promises.
use mathlib.Core.Logic.{ite}
use l7_load_balancer.Prelude.{ℕ, suc, ◌-◌, List, Option, none, some, true, false, ◌≡◌}
use l7_load_balancer.Prelude.Dict.{contains}
use l7_load_balancer.Backend.{Backend, Backend-discrete}

pub record Routing : Type 1 where
  pub Router : Type 0
  pub next_backend : Router → List Backend → Option Backend × Router
  pub on_disconnect : Router → Backend → Router
  pub mark_healthy : Router → Backend → Router
  pub mark_unhealthy : Router → Backend → Router
  pub get_all_backends : Router → List Backend
  pub get_healthy_backends : Router → List Backend
  pub IsValid : Router → Type 0
  -- what is served is healthy and not excluded
  pub served :
      (r : Router) (skip : List Backend) (b : Backend)
      → IsValid r
      → (next_backend r skip).0 ≡ some b
      → (contains Backend-discrete b (get_healthy_backends r) ≡ true)
        × (contains Backend-discrete b skip ≡ false)
  -- what is excluded is never served, whatever state the router is in
  pub excluded :
      (r : Router) (skip : List Backend) (b : Backend)
      → (next_backend r skip).0 ≡ some b
      → contains Backend-discrete b skip ≡ false
  -- nothing is served only if all that is healthy is excluded
  pub refused :
      (r : Router) (skip : List Backend) (b : Backend)
      → IsValid r
      → (next_backend r skip).0 ≡ none
      → contains Backend-discrete b (get_healthy_backends r) ≡ true
      → contains Backend-discrete b skip ≡ true
  -- the pool as a set: what each method makes of it
  pub pool_next :
      (r : Router) (skip : List Backend)
      → get_healthy_backends (next_backend r skip).1 ≡ get_healthy_backends r
  pub pool_disconnect :
      (r : Router) (b : Backend) → get_healthy_backends (on_disconnect r b) ≡ get_healthy_backends r
  pub pool_healthy :
      (r : Router) (b c : Backend)
      → contains Backend-discrete c (get_healthy_backends (mark_healthy r b))
        ≡ ite (Backend-discrete b c) true (contains Backend-discrete c (get_healthy_backends r))
  pub pool_unhealthy :
      (r : Router) (b c : Backend)
      → IsValid r
      → contains Backend-discrete c (get_healthy_backends (mark_unhealthy r b))
        ≡ ite (Backend-discrete b c) false (contains Backend-discrete c (get_healthy_backends r))
  -- the backends that the health checker probes stay as they were given
  pub all_healthy :
      (r : Router) (b : Backend) → get_all_backends (mark_healthy r b) ≡ get_all_backends r
  pub all_unhealthy :
      (r : Router) (b : Backend) → get_all_backends (mark_unhealthy r b) ≡ get_all_backends r
  pub valid_next : (r : Router) (skip : List Backend) → IsValid r → IsValid (next_backend r skip).1
  pub valid_disconnect : (r : Router) (b : Backend) → IsValid r → IsValid (on_disconnect r b)
  pub valid_healthy : (r : Router) (b : Backend) → IsValid r → IsValid (mark_healthy r b)
  pub valid_unhealthy : (r : Router) (b : Backend) → IsValid r → IsValid (mark_unhealthy r b)

-- The number of connections that a router has on each backend.
pub record Accounts (routing : Routing) : Type 0 where
  pub load : routing.Router → Backend → ℕ
  pub load_served :
      (r : routing.Router) (skip : List Backend) (b c : Backend)
      → routing.IsValid r
      → (routing.next_backend r skip).0 ≡ some b
      → load (routing.next_backend r skip).1 c
        ≡ ite (Backend-discrete b c) (suc (load r c)) (load r c)
  pub load_refused :
      (r : routing.Router) (skip : List Backend) (c : Backend)
      → (routing.next_backend r skip).0 ≡ none
      → load (routing.next_backend r skip).1 c ≡ load r c
  pub load_disconnect :
      (r : routing.Router) (b c : Backend)
      → load (routing.on_disconnect r b) c ≡ ite (Backend-discrete b c) (load r c - 1) (load r c)
  pub load_healthy :
      (r : routing.Router) (b c : Backend) → load (routing.mark_healthy r b) c ≡ load r c
  pub load_unhealthy :
      (r : routing.Router) (b c : Backend) → load (routing.mark_unhealthy r b) c ≡ load r c
