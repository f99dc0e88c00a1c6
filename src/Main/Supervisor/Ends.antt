-- ===== src/Main/Supervisor/Ends.antt =====
-- The supervisor stops waiting once each child has ended.
use native.Mathlib.Decide.{ℕ_discrete}
use l7_load_balancer.Prelude.{
  ℕ, ◌≡◌, ◌≢◌, refl, sym, ap, ◌∙◌, subst, List, [], ◌∷◌, Bool, true, false, arith, inl, inr, ◌⊎◌,
  Bool-cases,
}
use l7_load_balancer.Prelude.Dict.{
  contains, discard, Distinct, contains-discard_absent, contains-discard_self, discard-Distinct,
}
use l7_load_balancer.Prelude.Heap.{Any}
use l7_load_balancer.Main.Supervisor.{
  Status, Wait, ended, no_child, interrupted, Supervisor, stop_children, child_ended, wait_all,
  while_children, wait_round,
}
use l7_load_balancer.Main.Supervisor.Exit.{after_end, child_ended-own}

-- `waitpid` gives the end of `c`.
abbrev pub IsEndOf : ℕ → Wait → Type 0
IsEndOf c w = (status : Status) × (w ≡ ended c status)

abbrev pub AllEnd : List ℕ → List Wait → Type 0
AllEnd cs ws = (c : ℕ) → contains ℕ_discrete c cs ≡ true → Any (IsEndOf c) ws

AllEnd-interrupted : (cs : List ℕ) (ws : List Wait) → AllEnd cs (interrupted ∷ ws) → AllEnd cs ws
AllEnd-interrupted cs ws h c m = elim (h c m) [ inl (st, e) ↦ cc | inr a ↦ a ]

AllEnd-other :
    (pid : ℕ) (status : Status) (cs : List ℕ) (ws : List Wait)
    → contains ℕ_discrete pid cs ≡ false
    → AllEnd cs (ended pid status ∷ ws)
    → AllEnd cs ws
AllEnd-other pid status cs ws out h c m = elim (h c m) [
  | inl (st, e) ↦
      let same : pid ≡ c = cc in cc (sym out ∙ ap (λ x. contains ℕ_discrete x cs) same ∙ m)
  | inr a ↦ a
]

AllEnd-discard :
    (pid : ℕ) (status : Status) (cs : List ℕ) (ws : List Wait)
    → Distinct ℕ_discrete cs
    → AllEnd cs (ended pid status ∷ ws)
    → AllEnd (discard ℕ_discrete pid cs) ws
AllEnd-discard pid status cs ws d h c m =
    elim (h c (still (Bool-cases (contains ℕ_discrete c cs)))) [
      | inl (st, e) ↦
          let same : pid ≡ c = cc in
          cc (
            sym (contains-discard_self ℕ_discrete pid cs d)
            ∙ ap (λ x. contains ℕ_discrete x (discard ℕ_discrete pid cs)) same
            ∙ m)
      | inr a ↦ a
    ]
  where
    still :
        (contains ℕ_discrete c cs ≡ true) ⊎ (contains ℕ_discrete c cs ≡ false)
        → contains ℕ_discrete c cs ≡ true
    still (inl y) = y
    still (inr n) = cc (sym m ∙ contains-discard_absent ℕ_discrete c pid cs n)

children-own :
    (pid : ℕ) (status : Status) (s : Supervisor)
    → contains ℕ_discrete pid s.children ≡ true
    → (child_ended pid status s).children ≡ discard ℕ_discrete pid s.children
children-own pid status s m =
    ap (λ q. q.children) (child_ended-own pid status s m) ∙ unfold stop_children after_end in refl

children-other :
    (pid : ℕ) (status : Status) (s : Supervisor)
    → contains ℕ_discrete pid s.children ≡ false
    → (child_ended pid status s).children ≡ s.children
unfolding child_ended
children-other pid status s m = rw m

while_children-true :
    (cs : List ℕ) (r : Bool × Supervisor) (s : Supervisor)
    → (cs ≢ [] → r.0 ≡ true)
    → (while_children cs r s).0 ≡ true
while_children-true [] r s h = refl
while_children-true (c ∷ cs) r s h = h (λ e. cc)

-- A supervisor whose children are distinct, and each of which is reported by waitpid at some time,
-- comes to the end of its wait, whatever signals and foreign children come between.
pub wait_all-returns :
    (ws : List Wait) (s : Supervisor)
    → Distinct ℕ_discrete s.children
    → AllEnd s.children ws
    → (wait_all ws s).0 ≡ true
unfolding wait_all
wait_all-returns [] s d h =
    while_children-true s.children (false, s) s (λ n. absurd (n (nobody s.children h)))
  where
    nobody : (cs : List ℕ) → AllEnd cs [] → cs ≡ []
    nobody [] k = refl
    nobody (c ∷ cs) k = absurd (k c (unfold contains in ground arith))
wait_all-returns (w ∷ ws) s d h =
    while_children-true s.children (wait_round w (wait_all ws) s) s
      (λ _. on_round w h (λ t. wait_all-returns ws t))
  where
    on_round :
        (v : Wait)
        → AllEnd s.children (v ∷ ws)
        → ((t : Supervisor)
            → Distinct ℕ_discrete t.children
            → AllEnd t.children ws
            → (wait_all ws t).0 ≡ true)
        → (wait_round v (wait_all ws) s).0 ≡ true
    on_round no_child k again = refl
    on_round interrupted k again =
        again (stop_children s) (unfold stop_children in d)
          (unfold stop_children in AllEnd-interrupted s.children ws k)
    on_round (ended pid status) k again = elim (Bool-cases (contains ℕ_discrete pid s.children)) [
      | inl m ↦
          again (child_ended pid status s)
            (subst (Distinct ℕ_discrete) (sym (children-own pid status s m))
              (discard-Distinct ℕ_discrete pid s.children d))
            (subst (λ cs. AllEnd cs ws) (sym (children-own pid status s m))
              (AllEnd-discard pid status s.children ws d k))
      | inr m ↦
          again (child_ended pid status s)
            (subst (Distinct ℕ_discrete) (sym (children-other pid status s m)) d)
            (subst (λ cs. AllEnd cs ws) (sym (children-other pid status s m))
              (AllEnd-other pid status s.children ws m k))
    ]
