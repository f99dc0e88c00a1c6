-- ===== src/HealthChecker/Sweep.antt =====
-- A sweep leaves in the pool the backends that answered it.
use mathlib.Core.Logic.{ite}
use l7_load_balancer.Prelude.{
  ℕ, ◌+◌, ◌≡◌, refl, sym, ap, ◌∙◌, List, [], ◌∷◌, Bool, true, Bool-cases, inl, inr, if_split, some,
}
use l7_load_balancer.Prelude.Dict.{contains}
use l7_load_balancer.Backend.{Backend, Backend-discrete}
use l7_load_balancer.Router.Routing.{Routing}
use l7_load_balancer.HealthChecker.{Answer, probe, check, sweep_from, sweep}

-- The last answer of `c` in a sweep over these backends, or `before` if it is not among them.
abbrev pub verdict : (ℕ → Answer) → ℕ → List Backend → Backend → Bool → Bool
verdict net n [] c before = before
verdict net n (b ∷ bs) c before =
    verdict net (n + 1) bs c (ite (Backend-discrete b c) (probe (net n)) before)

module _ (routing : Routing) where
  open routing use {Router, IsValid, get_healthy_backends, get_all_backends}

  abbrev pub in_pool : Backend → Router → Bool
  in_pool c r = contains Backend-discrete c (get_healthy_backends r)

  pub check-IsValid :
      (b : Backend) (a : Answer) (r : Router) → IsValid r → IsValid (check routing b a r)
  unfolding check
  check-IsValid b a r v =
      if_split IsValid (probe a) _ _ (λ _. routing.valid_healthy r b v)
        (λ _. routing.valid_unhealthy r b v)

  in_pool-check :
      (b : Backend) (a : Answer) (r : Router) (c : Backend)
      → IsValid r
      → in_pool c (check routing b a r) ≡ ite (Backend-discrete b c) (probe a) (in_pool c r)
  unfolding check
  in_pool-check b a r c v = elim (Bool-cases (probe a)) [
    | inl up ↦ rw up (routing.pool_healthy r b c)
    | inr down ↦ rw down (routing.pool_unhealthy r b c v)
  ]

  in_pool-sweep_from :
      (net : ℕ → Answer) (n : ℕ) (bs : List Backend) (r : Router) (c : Backend)
      → IsValid r
      → in_pool c (sweep_from routing net n bs r) ≡ verdict net n bs c (in_pool c r)
  unfolding sweep_from
  in_pool-sweep_from net n [] r c v = refl
  in_pool-sweep_from net n (b ∷ bs) r c v =
      in_pool-sweep_from net (n + 1) bs (check routing b (net n) r) c (check-IsValid b (net n) r v)
      ∙ ap (verdict net (n + 1) bs c) (in_pool-check b (net n) r c v)

  -- Over any valid router of the Routing interface, a backend is in the pool after a sweep exactly
  -- if its last probe of the sweep succeeded; one that the sweep does not probe stays as it was.
  pub in_pool-sweep :
      (net : ℕ → Answer) (r : Router) (c : Backend)
      → IsValid r
      → in_pool c (sweep routing net r) ≡ verdict net 0 (get_all_backends r) c (in_pool c r)
  unfolding sweep
  in_pool-sweep net r c v = in_pool-sweep_from net 0 (get_all_backends r) r c v

  sweep_from-IsValid :
      (net : ℕ → Answer) (n : ℕ) (bs : List Backend) (r : Router)
      → IsValid r
      → IsValid (sweep_from routing net n bs r)
  unfolding sweep_from
  sweep_from-IsValid net n [] r v = v
  sweep_from-IsValid net n (b ∷ bs) r v =
      sweep_from-IsValid net (n + 1) bs (check routing b (net n) r) (check-IsValid b (net n) r v)

  pub sweep-IsValid : (net : ℕ → Answer) (r : Router) → IsValid r → IsValid (sweep routing net r)
  unfolding sweep
  sweep-IsValid net r v = sweep_from-IsValid net 0 (get_all_backends r) r v

  -- What a valid router serves after a sweep is a backend whose last probe of the sweep succeeded,
  -- or one that was in the pool and was not probed.
  pub served-sweep :
      (net : ℕ → Answer) (r : Router) (skip : List Backend) (c : Backend)
      → IsValid r
      → (routing.next_backend (sweep routing net r) skip).0 ≡ some c
      → verdict net 0 (get_all_backends r) c (in_pool c r) ≡ true
  served-sweep net r skip c v h =
      sym (in_pool-sweep net r c v)
      ∙ (routing.served (sweep routing net r) skip c (sweep-IsValid net r v) h).0
