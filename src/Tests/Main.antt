-- ===== src/Tests/Main.antt =====
-- The command line and the supervisor on concrete inputs.
use native.Mathlib.Decide.{ℕ_discrete}
use l7_load_balancer.Prelude.{
  ◌≡◌, ◌≢◌, refl, ap, List, [], ◌∷◌, some, none, true, inl, inr, arith, pos, negsuc,
}
use l7_load_balancer.Prelude.Dict.{contains, Distinct}
use l7_load_balancer.Backend.{Backend}
use l7_load_balancer.Bytes.{codes, is_space}
use l7_load_balancer.Main.Backends.{parse_backends}
use l7_load_balancer.Main.Backends.RoundTrip.{render, AllHosts, parse_backends-render}
use l7_load_balancer.Main.Supervisor.{
  exited, signaled, Wait, ended, interrupted, Supervisor, wait_all,
}
use l7_load_balancer.Main.Supervisor.Exit.{AllTold, wait_all-AllTold, wait_all-exit_code}
use l7_load_balancer.Main.Supervisor.Ends.{AllEnd, wait_all-returns}
use l7_load_balancer.Main.{usage_error, run_worker, default_backends, main}

-- An address of IPv6 and a name, with a port that `int` would also read from other texts.
abbrev listed : List Backend
listed =
    record { host = codes "::1"; port = pos 8001 }
    ∷ record { host = codes "b"; port = negsuc 6 }
    ∷ []

listed-AllHosts : AllHosts listed
unfolding is_space
listed-AllHosts = (
  ((refl, omega arith), ((refl, omega arith), ((refl, omega arith), tt))),
  (((refl, omega arith), tt), tt),
)

parse_backends-render_example : parse_backends (render listed) ≡ some listed
parse_backends-render_example = parse_backends-render listed listed-AllHosts

-- Three workers; the second is killed, and the parent is then told to stop.
abbrev started : Supervisor
started = record { children = 10 ∷ 11 ∷ 12 ∷ []; exit_code = 0; killed = [] }

abbrev ends : List Wait
ends = interrupted ∷ ended 99 (exited 3) ∷ ended 10 (exited 0) ∷ ended 12 (exited 0) ∷ []

second_is_child : contains ℕ_discrete 11 started.children ≡ true
unfolding contains ℕ_discrete
second_is_child = refl

wait_all-AllTold_example : AllTold (wait_all (ended 11 (signaled 9) ∷ ends) started).1
wait_all-AllTold_example = wait_all-AllTold 11 (signaled 9) ends started second_is_child

wait_all-exit_code_example : (wait_all (ended 11 (signaled 9) ∷ ends) started).1.exit_code ≢ 0
wait_all-exit_code_example =
    wait_all-exit_code 11 (signaled 9) ends started second_is_child (λ e. cc)

started-AllEnd : AllEnd started.children (ended 11 (signaled 9) ∷ ends)
unfolding contains
started-AllEnd c m = elim (ℕ_discrete 10 c) [
  | yes e ↦ inr (inr (inr (inl (exited 0, ap (λ n. ended n (exited 0)) e))))
  | no n ↦ elim (ℕ_discrete 11 c) [
    | yes e ↦ inl (signaled 9, ap (λ n. ended n (signaled 9)) e)
    | no k ↦ elim (ℕ_discrete 12 c) [
      | yes e ↦ inr (inr (inr (inr (inl (exited 0, ap (λ n. ended n (exited 0)) e)))))
      | no l ↦ absurd (ground arith)
    ]
  ]
]

started-Distinct : Distinct ℕ_discrete started.children
unfolding contains ℕ_discrete
started-Distinct = (refl, (refl, (refl, tt)))

wait_all-returns_example : (wait_all (ended 11 (signaled 9) ∷ ends) started).0 ≡ true
wait_all-returns_example =
    wait_all-returns (ended 11 (signaled 9) ∷ ends) started started-Distinct started-AllEnd

main_no_worker : main (record { backends = none; workers = pos 0 }) ≡ usage_error
unfolding main
main_no_worker = refl

main_default : main (record { backends = some []; workers = pos 1 }) ≡ run_worker default_backends
unfolding main
main_default = refl
