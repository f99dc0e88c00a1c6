-- ===== src/Main/Supervisor/Exit.antt =====
-- How the supervisor ends: its exit code, who is told to stop, and that it does end.
use native.Mathlib.Decide.{ℕ_discrete}
use l7_load_balancer.Prelude.{
  ℕ, ◌≡◌, ◌≢◌, refl, sym, subst, List, [], ◌∷◌, Bool, true, false, arith, inl, inr, Bool-cases,
  if_split,
}
use l7_load_balancer.Prelude.Dict.{contains, discard, contains-append}
use l7_load_balancer.Main.Supervisor.{
  Status, exited, Wait, ended, no_child, interrupted, Supervisor, while_children, wait_round,
  stop_children, add_status, child_ended, wait_all,
}

-- Each child has been sent SIGTERM.
abbrev pub AllTold : Supervisor → Type 0
AllTold s =
    (c : ℕ) → contains ℕ_discrete c s.children ≡ true → contains ℕ_discrete c s.killed ≡ true

stop_children-AllTold : (s : Supervisor) → AllTold (stop_children s)
unfolding stop_children
stop_children-AllTold s c m = ground (arith, contains-append ℕ_discrete c s.killed s.children)

add_status-ne : (status : Status) (code : ℕ) → code ≢ 0 → add_status status code ≢ 0
unfolding add_status
add_status-ne status code h = ground arith

add_status-bad : (status : Status) (code : ℕ) → status ≢ exited 0 → add_status status code ≢ 0
unfolding add_status
add_status-bad (exited n) code h = λ e. ground arith
add_status-bad (Status.signaled n) code h = λ e. cc
add_status-bad Status.other code h = λ e. cc

-- A property of the supervisor that both steps of the loop keep holds at its end.
wait_all_inv :
    (P : Supervisor → Type 0)
    → ((pid : ℕ) (status : Status) (s : Supervisor) → P s → P (child_ended pid status s))
    → ((s : Supervisor) → P s → P (stop_children s))
    → (ws : List Wait) (s : Supervisor) → P s
    → P (wait_all ws s).1
unfolding wait_all
wait_all_inv P f g [] s p = while-P s.children (false, s) p p
  where
    while-P : (cs : List ℕ) (r : Bool × Supervisor) → P s → P r.1 → P (while_children cs r s).1
    while-P [] r q k = q
    while-P (c ∷ cs) r q k = k
wait_all_inv P f g (w ∷ ws) s p =
    while-P s.children (wait_round w (wait_all ws) s) p
      (on_round w (λ t q. wait_all_inv P f g ws t q))
  where
    while-P : (cs : List ℕ) (r : Bool × Supervisor) → P s → P r.1 → P (while_children cs r s).1
    while-P [] r q k = q
    while-P (c ∷ cs) r q k = k

    on_round :
        (v : Wait)
        → ((t : Supervisor) → P t → P (wait_all ws t).1)
        → P (wait_round v (wait_all ws) s).1
    on_round (ended pid status) again = again _ (f pid status s p)
    on_round no_child again = p
    on_round interrupted again = again _ (g s p)

unfoldable pub after_end : ℕ → Status → Supervisor → Supervisor
after_end pid status s = record s {
  children = discard ℕ_discrete pid s.children;
  exit_code = add_status status s.exit_code;
}

pub child_ended-own :
    (pid : ℕ) (status : Status) (s : Supervisor)
    → contains ℕ_discrete pid s.children ≡ true
    → child_ended pid status s ≡ stop_children (after_end pid status s)
unfolding child_ended after_end
child_ended-own pid status s m = rw m

child_ended-AllTold :
    (pid : ℕ) (status : Status) (s : Supervisor) → AllTold s → AllTold (child_ended pid status s)
unfolding child_ended
child_ended-AllTold pid status s t = elim (Bool-cases (contains ℕ_discrete pid s.children)) [
  | inl m ↦
      subst AllTold (sym (child_ended-own pid status s m))
        (stop_children-AllTold (after_end pid status s))
  | inr m ↦ rw m t
]

abbrev HasFailed : Supervisor → Type 0
HasFailed s = s.exit_code ≢ 0

child_ended-HasFailed :
    (pid : ℕ) (status : Status) (s : Supervisor)
    → HasFailed s
    → HasFailed (child_ended pid status s)
unfolding child_ended stop_children
child_ended-HasFailed pid status s h =
    if_split {A = Supervisor} HasFailed (contains ℕ_discrete pid s.children) _ _
      (λ _. add_status-ne status s.exit_code h) (λ _. h)

while-nonempty :
    (pid : ℕ) (cs : List ℕ) (r : Bool × Supervisor) (s : Supervisor)
    → contains ℕ_discrete pid cs ≡ true
    → while_children cs r s ≡ r
unfolding contains
while-nonempty pid [] r s m = cc
while-nonempty pid (c ∷ cs) r s m = refl

wait_all-ended :
    (pid : ℕ) (status : Status) (ws : List Wait) (s : Supervisor)
    → contains ℕ_discrete pid s.children ≡ true
    → wait_all (ended pid status ∷ ws) s ≡ wait_all ws (child_ended pid status s)
unfolding wait_all
wait_all-ended pid status ws s m = while-nonempty pid s.children _ s m

-- Once a child has ended, whatever comes after, each child that is left at the end of the wait has
-- been sent SIGTERM.
pub wait_all-AllTold :
    (pid : ℕ) (status : Status) (ws : List Wait) (s : Supervisor)
    → contains ℕ_discrete pid s.children ≡ true
    → AllTold (wait_all (ended pid status ∷ ws) s).1
wait_all-AllTold pid status ws s m = rw (wait_all-ended pid status ws s m) (
    wait_all_inv AllTold child_ended-AllTold (λ t _. stop_children-AllTold t) ws _
      (subst AllTold (sym (child_ended-own pid status s m))
        (stop_children-AllTold (after_end pid status s))))

-- If a child ends in any way but an exit with code 0, the supervisor's exit code is not 0 at the
-- end, whatever the other children do.
pub wait_all-exit_code :
    (pid : ℕ) (status : Status) (ws : List Wait) (s : Supervisor)
    → contains ℕ_discrete pid s.children ≡ true
    → status ≢ exited 0
    → (wait_all (ended pid status ∷ ws) s).1.exit_code ≢ 0
wait_all-exit_code pid status ws s m bad = rw (wait_all-ended pid status ws s m) (
    wait_all_inv HasFailed child_ended-HasFailed (λ t h. unfold stop_children in h) ws _
      (subst HasFailed (sym (child_ended-own pid status s m))
        (unfold stop_children after_end in add_status-bad status s.exit_code bad)))
