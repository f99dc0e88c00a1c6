-- ===== src/Connection/Life.antt =====
-- The life of a connection as a relation on what matters of it: its state, its backend and sockets,
-- and the attempts it has made.
pub mod Steps
pub mod Retries
pub mod Handlers
pub mod Responses
pub mod Attempts
pub mod Runs
use l7_load_balancer.Prelude.{
  ℕ, suc, ◌≤◌, ◌≡◌, refl, List, [], ◌∷◌, ◌++◌, ◌+◌, Option, none, some, Bool, true, false, ap, ◌∙◌,
}
use l7_load_balancer.Prelude.Dict.{contains}
use l7_load_balancer.Backend.{Backend, Backend-discrete}
use l7_load_balancer.Config.{max_backend_retries}
use l7_load_balancer.Connection.{
  State, reading_request, connecting_to_backend, forwarding_request, reading_response,
  forwarding_response, done, Socket, Sys, Effect, opened,
}
use l7_load_balancer.Connection.Connect.{add_tried, allows_retry}

-- The backends to which a socket was opened, in order.
abbrev pub opened_of : List Effect → List Backend
opened_of [] = []
opened_of (opened sock b ∷ es) = b ∷ opened_of es
opened_of (_ ∷ es) = opened_of es

pub record Core : Type 0 where
  pub state : State
  pub backend_sock : Option Socket
  pub pending : Option Socket
  pub backend_addr : Option Backend
  pub tried : List Backend
  pub attempts : ℕ
  pub may_retry : Bool
  pub connects : ℕ
  pub opened : List Backend

abbrev pub core : {R : Type 0} → Sys R → Core
core s = record {
  state = s.conn.state;
  backend_sock = s.conn.backend_sock;
  pending = s.conn.pending_backend_unregister;
  backend_addr = s.conn.backend_addr;
  tried = s.conn.tried_backends;
  attempts = s.conn.backend_attempts;
  may_retry = allows_retry s.conn.parsed_request;
  connects = s.world.connects;
  opened = opened_of s.world.effects;
}

-- A socket is opened to `b`, for the attempt of this number.
abbrev pub connecting : Backend → ℕ → Core → Core
connecting b n c = record c {
  state = connecting_to_backend;
  backend_sock = some c.connects;
  backend_addr = some b;
  attempts = n;
  connects = c.connects + 1;
  opened = c.opened ++ b ∷ [];
}

abbrev pub with_tried : Option Backend → List Backend → List Backend
with_tried none tried = tried
with_tried (some b) tried = add_tried b tried

abbrev pub or_old : Option Socket → Option Socket → Option Socket
or_old none pending = pending
or_old (some sock) pending = some sock

-- The backend is given up.
abbrev pub dropped : Core → Core
dropped c = record c {
  backend_sock = none;
  pending = or_old c.backend_sock c.pending;
  tried = with_tried c.backend_addr c.tried;
}

-- The states in which a backend can fail.
abbrev pub HasBackend : State → Type 0
HasBackend connecting_to_backend = Unit
HasBackend forwarding_request = Unit
HasBackend reading_response = Unit
HasBackend _ = ⊥

-- One change.
pub data Change : Core → Core → Type 0 where
  asked :
      (c : Core) (b : Backend) (again : Bool)
      → c.state ≡ reading_request
      → Change c (connecting b 1 (record c { may_retry = again }))
  retried :
      (c : Core) (b : Backend)
      → HasBackend c.state
      → c.may_retry ≡ true
      → c.attempts ≤ max_backend_retries
      → contains Backend-discrete b (dropped c).tried ≡ false
      → Change c (connecting b (c.attempts + 1) (dropped c))
  failed : (c : Core) → HasBackend c.state → Change c (record (dropped c) { state = done })
  connected :
      (c : Core)
      → c.state ≡ connecting_to_backend
      → Change c (record c { state = forwarding_request })
  forwarded :
      (c : Core) → c.state ≡ forwarding_request → Change c (record c { state = reading_response })
  answered :
      (c : Core) → c.state ≡ reading_response → Change c (record c { state = forwarding_response })
  -- no backend is left to ask
  unserved :
      (c : Core) (again : Bool)
      → c.state ≡ reading_request
      → Change c (record c { state = done; may_retry = again })
  ended : (c : Core) → Change c (record c { state = done })

-- Any number of changes.
pub data Changes : Core → Core → Type 0 where
  same : (c : Core) → Changes c c
  more : (c d e : Core) → Change c d → Changes d e → Changes c e

pub one : (c d : Core) → Change c d → Changes c d
one c d x = Changes.more c d d x (Changes.same d)

pub Changes-trans : (c d e : Core) → Changes c d → Changes d e → Changes c e
Changes-trans _ _ e (Changes.same c) y = y
Changes-trans _ _ e (Changes.more c d d' x xs) y = Changes.more c d e x (Changes-trans d d' e xs y)
