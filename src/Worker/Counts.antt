-- ===== src/Worker/Counts.antt =====
-- What the counts of a router say, in a whole worker.
use l7_load_balancer.Prelude.{
  if_split, ℕ, ◌+◌, ◌≤◌, ◌≡◌, refl, subst, List, [], ◌∷◌, some, arith, if◌then◌else◌,
}
use l7_load_balancer.Prelude.Dict.{lookup}
use l7_load_balancer.Backend.{Backend}
use l7_load_balancer.Router.Routing.{Routing, Accounts}
use l7_load_balancer.Connection.{ProxyConnection, World}
use l7_load_balancer.Connection.Deadline.{is_done}
use l7_load_balancer.Reactor.{Ref, Reactor}
use l7_load_balancer.Reactor.Loop.{start}
use l7_load_balancer.Worker.{Step, steps}
use l7_load_balancer.Worker.Total.{total, held}
use l7_load_balancer.Worker.Balance.{IsBalanced, AfterSome}
use l7_load_balancer.Worker.Steps.{steps-IsBalanced}

-- What a connection that is not done holds of a backend.
abbrev pub busy : Backend → ProxyConnection → ℕ
busy b c = if is_done c.state then 0 else held b c

busy-le_held : (b : Backend) (c : ProxyConnection) → busy b c ≤ held b c
busy-le_held b c =
    if_split (λ n. n ≤ held b c) (is_done c.state) _ _ (λ _. omega arith) (λ _. omega arith)

pub total-busy :
    (b : Backend) (os : List (Ref × ProxyConnection)) → total (busy b) os ≤ total (held b) os
unfolding total
total-busy b [] = omega arith
total-busy b ((ref, c) ∷ os) = omega (arith, busy-le_held b c, total-busy b os)

module _ (routing : Routing) (accounts : Accounts routing) (id_of : Ref → ℕ) (b : Backend)
    (router : routing.Router) (world : World) (valid : routing.IsValid router) where
  open routing use {Router}

  begun : IsBalanced routing accounts b (accounts.load router b) (start routing id_of router world)
  unfolding start total
  begun = record {
    valid = valid;
    owed = omega arith;
    fresh = tt;
    young = λ ref le. unfold lookup in refl;
  }

  -- Over any router that keeps counts, after any steps of a worker that return, failed sends and
  -- exceptions of connect_ex included, the count of a backend is what it was at the start and one
  -- for each connection that has that backend and has not reported its disconnect.
  pub load-steps :
      (xs : List Step) (st : Reactor Router)
      → steps routing id_of xs (start routing id_of router world) ≡ some st
      → accounts.load st.router b ≡ accounts.load router b + total (held b) st.objects
  load-steps xs st e =
      let v =
        subst (AfterSome routing accounts b (accounts.load router b)) e
          (steps-IsBalanced routing accounts b (accounts.load router b) id_of xs _ begun) in
      v.owed
