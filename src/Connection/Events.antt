-- ===== src/Connection/Events.antt =====
-- The calls that the reactor makes on a connection, one event each, and runs of them.
pub mod Ledger
pub mod Sound
pub mod Retry
pub mod Requests
pub mod Responses
pub mod Released
pub mod Totals
pub mod Relayed
use l7_load_balancer.Prelude.{ℕ, List, [], ◌∷◌, Option, none, some, and_then}
use l7_load_balancer.Router.Routing.{Routing}
use l7_load_balancer.Connection.{Sys, Recv, Send}
use l7_load_balancer.Connection.Finish.{handle_timeout}
use l7_load_balancer.Connection.Handlers.{
  handle_client_readable, handle_client_writable, handle_backend_readable, handle_backend_writable,
}

pub data Event : Type 0 where
  client_readable : Recv → Event
  client_writable : Send → Event
  backend_readable : Recv → Event
  backend_writable : ℕ → Send → Event
  timeout : Event

module _ (routing : Routing) where
  open routing use {Router}

  -- `none`: the handler never returns.
  unfoldable pub handle : Event → Sys Router → Option (Sys Router)
  handle (client_readable r) s = some (handle_client_readable routing r s)
  handle (client_writable r) s = some (handle_client_writable routing r s)
  handle (backend_readable r) s = handle_backend_readable routing r s
  handle (backend_writable so_error r) s = some (handle_backend_writable routing so_error r s)
  handle timeout s = some (handle_timeout routing s)

  -- The events that the loop dispatches to this connection, in order.
  unfoldable pub run : List Event → Sys Router → Option (Sys Router)
  run [] s = some s
  run (e ∷ es) s = and_then (handle e s) (run es)
