-- ===== src/Router/LeastConnections/Health.antt =====
-- `LeastConnectionsRouter`: its construction, `on_disconnect` and the health marks.
use mathlib.Core.Logic.{ite}
use l7_load_balancer.Prelude.{
  ℕ, ◌-◌, List, [], ◌∷◌, ◌≡◌, refl, sym, subst, true, false, arith, Bool-cases, inl, inr,
}
use l7_load_balancer.Prelude.Dict.{
  contains, insert, contains-append, contains-discard_ne, contains-discard_self,
  contains-discard_absent, discard-Distinct, concat-Distinct, lookup-insert,
}
use l7_load_balancer.Prelude.Heap.{Any}
use l7_load_balancer.Backend.{Backend, Backend-discrete}
use l7_load_balancer.Router.LeastConnections.{
  LeastConnectionsRouter, count_of, push, on_disconnect, mark_unhealthy, mark_healthy, set_default,
  add,
}
use l7_load_balancer.Router.LeastConnections.Invariant.{
  IsFor, IsValid, count_of-insert, count_of-insert_self, count_of-insert_ne, push-IsSorted,
  push-HasLive,
}

module _ (r : LeastConnectionsRouter) (b : Backend) where
  -- A disconnect takes one from the count of its backend, and stops at zero.
  pub count_of-on_disconnect :
      (c : Backend)
      → count_of (on_disconnect r b).counts c
        ≡ ite (Backend-discrete b c) (count_of r.counts c - 1) (count_of r.counts c)
  unfolding on_disconnect
  count_of-on_disconnect c = ground (arith, count_of-insert b c (count_of r.counts b - 1) r.counts)

  -- On_disconnect keeps a valid least-connections router valid, for any backend.
  pub on_disconnect-IsValid : IsValid r → IsValid (on_disconnect r b)
  unfolding on_disconnect
  on_disconnect-IsValid v = record {
    distinct = unfold push in v.distinct;
    sorted = push-IsSorted (record r { counts = lowered }) (count_of r.counts b - 1) b v.sorted;
    live = λ c m.
        push-HasLive (record r { counts = lowered }) (count_of r.counts b - 1) b c
          (count_of-insert_self b (count_of r.counts b - 1) r.counts)
          (λ ne.
            subst (λ n. Any (IsFor c n) r.heap)
              (sym (count_of-insert_ne b c (count_of r.counts b - 1) r.counts ne)) (v.live c m));
  }
    where
      lowered : List (Backend × ℕ)
      lowered = insert Backend-discrete b (count_of r.counts b - 1) r.counts

  count_of-set_default : (c : Backend) → count_of (set_default b r.counts) c ≡ count_of r.counts c
  unfolding count_of set_default
  count_of-set_default c = ground (arith, lookup-insert Backend-discrete b c 0 r.counts)

  pub count_of-mark_healthy :
      (c : Backend) → count_of (mark_healthy r b).counts c ≡ count_of r.counts c
  unfolding mark_healthy
  count_of-mark_healthy c = ground (arith, count_of-set_default c)

  pub count_of-mark_unhealthy :
      (c : Backend) → count_of (mark_unhealthy r b).counts c ≡ count_of r.counts c
  unfolding mark_unhealthy
  count_of-mark_unhealthy c = refl

  pub contains-mark_healthy :
      (c : Backend)
      → contains Backend-discrete c (mark_healthy r b).healthy_set
        ≡ ite (Backend-discrete b c) true (contains Backend-discrete c r.healthy_set)
  unfolding mark_healthy contains
  contains-mark_healthy c =
      ground (arith, contains-append Backend-discrete c r.healthy_set (b ∷ []))

  abbrev defaulted : LeastConnectionsRouter
  defaulted = record r { healthy_set = add b r.healthy_set; counts = set_default b r.counts }

  mark_healthy_new :
      contains Backend-discrete b r.healthy_set ≡ false
      → mark_healthy r b ≡ push defaulted (count_of (set_default b r.counts) b) b
  unfolding mark_healthy
  mark_healthy_new h = rw h

  -- Mark_healthy keeps a valid least-connections router valid, whether the backend is new, old or
  -- comes back.
  pub mark_healthy-IsValid : IsValid r → IsValid (mark_healthy r b)
  unfolding push set_default add contains
  mark_healthy-IsValid v = elim (Bool-cases (contains Backend-discrete b r.healthy_set)) [
    | inl old ↦ unfold mark_healthy in rw old v
    | inr new ↦ rw (mark_healthy_new new) (record {
      distinct = ground (arith, concat-Distinct Backend-discrete b r.healthy_set v.distinct);
      sorted = push-IsSorted defaulted (count_of (set_default b r.counts) b) b v.sorted;
      live = λ c m. push-HasLive defaulted (count_of (set_default b r.counts) b) b c refl (λ ne.
          subst (λ n. Any (IsFor c n) r.heap) (sym (count_of-set_default c))
            (v.live c (ground (arith, contains-append Backend-discrete c r.healthy_set (b ∷ [])))));
    })
  ]

  pub mark_unhealthy-IsValid : IsValid r → IsValid (mark_unhealthy r b)
  unfolding mark_unhealthy
  mark_unhealthy-IsValid v = record {
    distinct = discard-Distinct Backend-discrete b r.healthy_set v.distinct;
    sorted = v.sorted;
    live = λ c m.
        v.live c (ground (arith, contains-discard_absent Backend-discrete c b r.healthy_set));
  }

  pub contains-mark_unhealthy :
      (c : Backend)
      → IsValid r
      → contains Backend-discrete c (mark_unhealthy r b).healthy_set
        ≡ ite (Backend-discrete b c) false (contains Backend-discrete c r.healthy_set)
  unfolding mark_unhealthy
  contains-mark_unhealthy c v = ground (
    arith,
    contains-discard_ne Backend-discrete c b r.healthy_set,
    contains-discard_self Backend-discrete b r.healthy_set v.distinct,
  )

  pub healthy_set-on_disconnect : (on_disconnect r b).healthy_set ≡ r.healthy_set
  unfolding on_disconnect
  healthy_set-on_disconnect = refl

  pub all_backends-mark_healthy : (mark_healthy r b).all_backends ≡ r.all_backends
  unfolding mark_healthy
  all_backends-mark_healthy = ground arith

  pub all_backends-mark_unhealthy : (mark_unhealthy r b).all_backends ≡ r.all_backends
  unfolding mark_unhealthy
  all_backends-mark_unhealthy = refl
