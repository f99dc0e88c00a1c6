-- ===== src/Main.antt =====
-- main.py: the command line, and what `main` starts.
pub mod Backends
pub mod Supervisor
use l7_load_balancer.Prelude.{
  ℕ, zero, suc, List, [], ◌∷◌, Option, none, some, Bool, true, false, ◌==◌, if◌then◌else◌, ℤ, pos,
  negsuc,
}
use l7_load_balancer.Backend.{Backend}
use l7_load_balancer.Bytes.{Bytes, codes}
use l7_load_balancer.Main.Backends.{parse_backends}

-- `config.BACKENDS`
abbrev pub default_backends : List Backend
default_backends =
    record { host = codes "127.0.0.1"; port = pos 8001 }
    ∷ record { host = codes "127.0.0.1"; port = pos 8002 }
    ∷ record { host = codes "127.0.0.1"; port = pos 8003 }
    ∷ []

-- What argparse leaves that `main` decides on; an absent `--backends` is `none`.
pub record Arguments : Type 0 where
  pub backends : Option Bytes
  pub workers : ℤ

-- What `main` comes to: an error of the command line, an uncaught ValueError, one worker in this
-- process, or a supervisor of several.
pub data Outcome : Type 0 where
  usage_error value_error : Outcome
  run_worker : List Backend → Outcome
  run_supervisor : ℕ → List Backend → Outcome

-- `parse_backends(args.backends) if args.backends else config.BACKENDS`
unfoldable pub chosen_backends : Option Bytes → Option (List Backend)
chosen_backends none = some default_backends
chosen_backends (some []) = some default_backends
chosen_backends (some (c ∷ cs)) = parse_backends (c ∷ cs)

launch : ℕ → Option (List Backend) → Outcome
launch n none = value_error
launch n (some backends) = if n == 1 then run_worker backends else run_supervisor n backends

start_workers : ℤ → Option Bytes → Outcome
unfolding launch chosen_backends
start_workers (negsuc n) backends = usage_error
start_workers (pos zero) backends = usage_error
start_workers (pos (suc n)) backends = launch (suc n) (chosen_backends backends)

unfoldable pub main : Arguments → Outcome
unfolding start_workers
main args = start_workers args.workers args.backends
