-- ===== src/Main/Supervisor.antt =====
-- `_run_supervisor` of main.py: the children, and what the parent does while it waits for them.
pub mod Exit
pub mod Ends
use native.Mathlib.Decide.{ℕ_discrete}
use l7_load_balancer.Prelude.{
  ℕ, zero, suc, List, [], ◌∷◌, ◌++◌, Option, none, some, Bool, true, false, ◌==◌, if◌then◌else◌,
}
use l7_load_balancer.Prelude.Dict.{contains, discard}

-- `status`, as the macros of `os` read it.
pub data Status : Type 0 where
  exited signaled : ℕ → Status
  other : Status

-- What `os.waitpid(-1, 0)` does: a child has ended, there is no child, or a signal came,
-- whose handler tells all children.
pub data Wait : Type 0 where
  ended : ℕ → Status → Wait
  no_child : Wait
  interrupted : Wait

-- `killed` are the processes that were sent SIGTERM, in order.
pub record Supervisor : Type 0 where
  pub children : List ℕ
  pub exit_code : ℕ
  pub killed : List ℕ

-- The loop over `range(args.workers)`; `pid_of` gives what `os.fork` returns in the parent.
unfoldable pub fork_workers : (ℕ → ℕ) → ℕ → ℕ → List ℕ
fork_workers pid_of i zero = []
fork_workers pid_of i (suc n) = pid_of i ∷ fork_workers pid_of (suc i) n

unfoldable pub supervise : (ℕ → ℕ) → ℕ → Supervisor
unfolding fork_workers
supervise pid_of workers = record {
  children = fork_workers pid_of 0 workers;
  exit_code = 0;
  killed = [];
}

-- `os.kill(pid, SIGTERM)` for all children; a child that is gone is passed over by the system.
unfoldable pub stop_children : Supervisor → Supervisor
stop_children s = record s { killed = s.killed ++ s.children }

-- The code of a worker that ended, on top of the one so far.
unfoldable pub add_status : Status → ℕ → ℕ
add_status (exited code) exit_code = if code == 0 then exit_code else code
add_status (signaled sig) exit_code = 1
add_status other exit_code = 1

unfoldable pub child_ended : ℕ → Status → Supervisor → Supervisor
unfolding add_status stop_children
child_ended pid status s =
    if contains ℕ_discrete pid s.children
    then stop_children (record s {
      children = discard ℕ_discrete pid s.children;
      exit_code = add_status status s.exit_code;
    })
    else s

-- `while children:`, with what a round comes to.
abbrev pub while_children : List ℕ → Bool × Supervisor → Supervisor → Bool × Supervisor
while_children [] round s = (true, s)
while_children (c ∷ cs) round s = round

-- The body of the loop; the argument is the loop itself.
abbrev pub wait_round : Wait → (Supervisor → Bool × Supervisor) → Supervisor → Bool × Supervisor
wait_round (ended pid status) again s = again (child_ended pid status s)
wait_round no_child again s = (true, s)
wait_round interrupted again s = again (stop_children s)

-- The loop, over what `waitpid` does in its rounds. `true`: it has ended.
unfoldable pub wait_all : List Wait → Supervisor → Bool × Supervisor
unfolding child_ended stop_children
wait_all [] s = while_children s.children (false, s) s
wait_all (w ∷ ws) s = while_children s.children (wait_round w (wait_all ws) s) s

-- What a child process exits with: 1 after an exception of `_run_worker`.
unfoldable pub worker_exit : Bool → ℕ
worker_exit true = 1
worker_exit false = 0
