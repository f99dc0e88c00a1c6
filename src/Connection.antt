-- ===== src/Connection.antt =====
-- connection.py: the state of a `ProxyConnection`, and the world that its handlers act on.
-- A handler takes what the socket call at its head returned, and changes a `Sys`.
pub mod Deadline
pub mod Finish
pub mod Connect
pub mod Handlers
pub mod Events
pub mod Life
use l7_load_balancer.Prelude.{
  ℕ, zero, suc, ◌+◌, List, [], ◌∷◌, ◌++◌, Option, none, some, Bool, true, false, ℤ, negsuc,
}
use l7_load_balancer.Backend.{Backend}
use l7_load_balancer.Bytes.{Bytes}
use l7_load_balancer.Http.Request.{HttpRequest}

pub data State : Type 0 where
  reading_request connecting_to_backend forwarding_request : State
  reading_response forwarding_response done : State

-- A socket object, by its number.
abbrev pub Socket : Type 0
Socket = ℕ

pub record ProxyConnection : Type 0 where
  pub client_sock : Socket
  pub client_addr : Bytes × ℕ
  pub backend_sock : Option Socket
  pub backend_addr : Option Backend
  pub state : State
  pub request_buf : Bytes
  pub parsed_request : Option HttpRequest
  pub forward_buf : Bytes
  pub forward_offset : ℕ
  pub response_buf : Bytes
  pub relay_buf : Bytes
  pub relay_offset : ℕ
  pub start_time : ℕ
  pub response_status : Option ℤ
  pub response_headers_done : Bool
  pub response_content_length : ℤ
  pub response_body_received : ℕ
  pub response_is_chunked : Bool
  pub tried_backends : List Backend
  pub backend_attempts : ℕ
  pub client_bytes_sent : Bool
  pub disconnect_notified : Bool
  pub pending_backend_unregister : Option Socket
  pub deadline : ℕ
  pub deadline_gen : ℕ

-- The arguments of `access_log`.
pub record AccessEntry : Type 0 where
  pub client : Bytes × ℕ
  pub backend : Backend
  pub method : Bytes
  pub path : Bytes
  pub version : Bytes
  pub status : ℤ
  pub latency_ms : ℕ

-- What a handler did outside, in order.
pub data Effect : Type 0 where
  opened : Socket → Backend → Effect
  closed : Socket → Effect
  sent_all : Bytes → Effect
  logged : AccessEntry → Effect

-- What `connect_ex` does: it returns an error number, or raises, as for a host that is not found or a
-- port above 65535.
pub data Dialled : Type 0 where
  errno : ℕ → Dialled
  raises : Dialled

-- The operating system: the readings of `time.monotonic` in order; what the connect of each number
-- does; and whether a `sendall` to a client is taken, by the number of readings before it (each
-- `_send_error` reads the clock after its `sendall`). `raised` is an exception on its way out of a
-- handler.
pub record World : Type 0 where
  pub clock : ℕ → ℕ
  pub readings : ℕ
  pub connect_ex : ℕ → Backend → Dialled
  pub connects : ℕ
  pub takes_sendall : ℕ → Bool
  pub raised : Bool
  pub effects : List Effect

-- One connection, the router that it shares with the others, and the world.
pub record Sys (R : Type 0) : Type 0 where
  pub conn : ProxyConnection
  pub router : R
  pub world : World

-- The result of `recv`, and of `send`.
pub data Recv : Type 0 where
  would_block : Recv
  failed : Recv
  received : Bytes → Recv

pub data Send : Type 0 where
  would_block : Send
  failed : Send
  sent : ℕ → Send

module _ {R : Type 0} where
  abbrev pub on_conn : (ProxyConnection → ProxyConnection) → Sys R → Sys R
  on_conn f s = record s { conn = f s.conn }

  abbrev pub set_state : State → Sys R → Sys R
  set_state st = on_conn (λ c. record c { state = st })

  -- `time.monotonic()`
  abbrev pub now : Sys R → ℕ
  now s = s.world.clock s.world.readings

  abbrev pub tick : Sys R → Sys R
  tick s = record s { world = record s.world { readings = s.world.readings + 1 } }

  abbrev pub emit : Effect → Sys R → Sys R
  emit e s = record s { world = record s.world { effects = s.world.effects ++ e ∷ [] } }
