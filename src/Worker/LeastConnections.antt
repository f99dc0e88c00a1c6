-- ===== src/Worker/LeastConnections.antt =====
-- A worker over the least-connections router, from its start.
use Prim.Native.String.{String}
use text.Mathlib.Text.{◌==◌}
use l7_load_balancer.Prelude.{
  ℕ, ◌≤◌, ◌≡◌, refl, subst, List, Bool, some, arith, Bool-cases, inl, inr, not, ltb, ◌&&◌, if_split,
}
use l7_load_balancer.Backend.{Backend}
use l7_load_balancer.Router.{create_router}
use l7_load_balancer.Router.Instances.{least_connections_routing, least_connections_accounts}
use l7_load_balancer.Router.LeastConnections
use l7_load_balancer.Connection.{World}
use l7_load_balancer.Reactor.{Ref, Reactor}
use l7_load_balancer.Reactor.Loop.{start}
use l7_load_balancer.Worker.{
  Step, steps, Began, value_error, runtime_error, over_round_robin, over_least_connections,
  launch_over, listen, begin_worker,
}
use l7_load_balancer.Worker.Total.{total, held}
use l7_load_balancer.Worker.Counts.{busy, load-steps, total-busy}

abbrev Router : Type 0
Router = least_connections_routing.Router

-- The router of the interface is the least-connections router.
unfoldable initial : List Backend → Router
unfolding least_connections_routing
initial backends = LeastConnections.init backends

initial-IsValid : (backends : List Backend) → least_connections_routing.IsValid (initial backends)
unfolding initial least_connections_routing
initial-IsValid backends = LeastConnections.Start.init-IsValid backends

load-initial :
    (backends : List Backend) (b : Backend)
    → least_connections_accounts.load (initial backends) b ≡ 0
unfolding initial least_connections_routing least_connections_accounts
load-initial backends b = LeastConnections.Start.count_of-init backends b

module _ (id_of : Ref → ℕ) (backends : List Backend) (world : World) where
  -- Which reactor it is, if it is over the least-connections router.
  abbrev IsStart : Began → Type 0
  IsStart (over_least_connections st) =
      st ≡ start least_connections_routing id_of (initial backends) world
  IsStart _ = Unit

  listen-IsStart :
      (has_reuseport : Bool) (workers : ℕ) (g : Began)
      → IsStart g
      → IsStart (listen has_reuseport workers g)
  unfolding listen
  listen-IsStart has_reuseport workers value_error q = tt
  listen-IsStart has_reuseport workers runtime_error q =
      if_split {A = Began} IsStart (not has_reuseport && ltb 1 workers) _ _ (λ _. tt) (λ _. tt)
  listen-IsStart has_reuseport workers (over_round_robin st) q =
      if_split {A = Began} IsStart (not has_reuseport && ltb 1 workers) _ _ (λ _. tt) (λ _. tt)
  listen-IsStart has_reuseport workers (over_least_connections st) q =
      if_split {A = Began} IsStart (not has_reuseport && ltb 1 workers) _ _ (λ _. tt) (λ _. q)

  launch_over-IsStart :
      (algorithm : String) → IsStart (launch_over id_of (create_router algorithm backends) world)
  unfolding launch_over create_router initial least_connections_routing
  launch_over-IsStart algorithm = elim (Bool-cases (algorithm == "round_robin")) [
    | inl e ↦ rw e tt
    | inr e ↦ elim (Bool-cases (algorithm == "least_connections")) [
      | inl f ↦ rw e (rw f refl)
      | inr f ↦ rw e (rw f tt)
    ]
  ]

-- In a worker that _run_worker starts over the least-connections router, whatever the events of
-- its reactor and the marks of its health checker, in any order, if the handlers return, failed
-- sends and exceptions of connect_ex included, the count of each backend is the number of the
-- connections, finished ones included, that have that backend and have not reported its
-- disconnect; so it is never less than the number of those that are not done.
pub load-begin_worker :
    (id_of : Ref → ℕ) (has_reuseport : Bool) (workers : ℕ) (algorithm : String)
    (backends : List Backend) (world : World) (st st' : Reactor Router) (xs : List Step)
    → begin_worker id_of has_reuseport workers algorithm backends world ≡ over_least_connections st
    → steps least_connections_routing id_of xs st ≡ some st'
    → (b : Backend)
    → (least_connections_accounts.load st'.router b ≡ total (held b) st'.objects)
      × (total (busy b) st'.objects ≤ least_connections_accounts.load st'.router b)
unfolding begin_worker
load-begin_worker id_of has_reuseport workers algorithm backends world st st' xs e f b =
    let at_start : st ≡ start least_connections_routing id_of (initial backends) world =
      subst (IsStart id_of backends world) e (
        listen-IsStart id_of backends world has_reuseport workers _
          (launch_over-IsStart id_of backends world algorithm)) in
    let count =
      load-steps least_connections_routing least_connections_accounts id_of b (initial backends)
        world (initial-IsValid backends) xs st'
        (subst (λ s. steps least_connections_routing id_of xs s ≡ some st') at_start f) in
    let none_before = load-initial backends b in
    (omega (arith, count, none_before), omega (arith, count, none_before, total-busy b st'.objects))
