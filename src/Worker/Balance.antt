-- ===== src/Worker/Balance.antt =====
-- The books of a whole worker: the count of a backend, and what the connections hold of it.
pub mod Rounds
pub mod Events
use native.Mathlib.Decide.{ℕ_discrete}
use mathlib.Core.Logic.{if_neg}
use l7_load_balancer.Prelude.{
  ℕ, ◌+◌, ◌-◌, ◌≤◌, ◌≡◌, sym, ap, ◌∙◌, subst, List, Option, none, some, arith,
}
use l7_load_balancer.Prelude.Dict.{lookup, lookup-insert}
use l7_load_balancer.Backend.{Backend}
use l7_load_balancer.Router.Routing.{Routing, Accounts}
use l7_load_balancer.Connection.{reading_request, done, ProxyConnection, Sys}
use l7_load_balancer.Connection.Events.Ledger.{holds}
use l7_load_balancer.Reactor.{Ref, Reactor, object, view, put}
use l7_load_balancer.Worker.Total.{
  total, total-insert, weight-le_total, Each, insert-Each, lookup-Each, held,
}
use l7_load_balancer.Worker.Dispatches

-- The numbers from `made` on are not yet taken.
abbrev pub IsYoung : ℕ → List (Ref × ProxyConnection) → Type 0
IsYoung made os = (ref : Ref) → made ≤ ref → lookup ℕ_discrete ref os ≡ none

pub none-some : {c : ProxyConnection} → none ≡ some c → ⊥
none-some h = cc

module _ (routing : Routing) (accounts : Accounts routing) (b : Backend) (k : ℕ) where
  open routing use {Router, IsValid}

  abbrev pub Fresh : ProxyConnection → Type 0
  Fresh c = c.state ≡ reading_request → c.backend_addr ≡ none

  -- A connection that reads its request has no backend: `Fresh`. The count of `b` is `k`, and what
  -- the connections hold.
  pub record IsBalanced (st : Reactor Router) : Type 0 where
    pub valid : IsValid st.router
    pub owed : accounts.load st.router b ≡ k + total (held b) st.objects
    pub fresh : Each Fresh st.objects
    pub young : IsYoung st.made st.objects

  -- The books of one connection, among those of the others.
  abbrev pub others : ProxyConnection → Reactor Router → ℕ
  others c st = k + (total (held b) st.objects - held b c)

  abbrev pub Books : ProxyConnection → Reactor Router → Sys Router → Type 0
  Books c st s = Dispatches.Books routing accounts b (others c st) s

  pub view-Books :
      (ref : Ref) (c : ProxyConnection) (st : Reactor Router)
      → object st ref ≡ some c
      → IsBalanced st
      → Books c st (view st c)
  view-Books ref c st o v = record {
    account = record {
      valid = v.valid;
      owed = omega (arith, v.owed, weight-le_total (held b) ref c st.objects o);
    };
    fresh = lookup-Each Fresh ref c st.objects v.fresh o;
  }

  pub put-IsBalanced :
      (ref : Ref) (c : ProxyConnection) (s : Sys Router) (st : Reactor Router)
      → object st ref ≡ some c
      → IsBalanced st
      → Books c st s
      → IsBalanced (put ref s st)
  put-IsBalanced ref c s st o v q = record {
    valid = q.account.valid;
    owed = omega (
      arith,
      q.account.owed,
      weight-le_total (held b) ref c st.objects o,
      total-insert (held b) ref s.conn c st.objects o,
    );
    fresh = insert-Each Fresh ref s.conn st.objects q.fresh v.fresh;
    young = λ j le.
        lookup-insert ℕ_discrete ref j s.conn st.objects
        ∙ if_neg (ℕ_discrete ref j)
            (λ e. none-some (sym (v.young j le) ∙ ap (object st) (sym e) ∙ o)) _ _
        ∙ v.young j le;
  }

  -- Only the router, the objects and their number count.
  pub regard :
      (st st' : Reactor Router)
      → st'.router ≡ st.router
      → st'.objects ≡ st.objects
      → st'.made ≡ st.made
      → IsBalanced st
      → IsBalanced st'
  regard st st' e f g v = record {
    valid = subst IsValid (sym e) v.valid;
    owed = ap (λ r. accounts.load r b) e ∙ v.owed ∙ ap (λ os. k + total (held b) os) (sym f);
    fresh = subst (Each Fresh) (sym f) v.fresh;
    young = λ ref le. ap (lookup ℕ_discrete ref) f ∙ v.young ref (subst (λ n. n ≤ ref) g le);
  }

  -- What a step leaves, if it returns.
  abbrev pub AfterSome : Option (Reactor Router) → Type 0
  AfterSome none = Unit
  AfterSome (some st) = IsBalanced st
