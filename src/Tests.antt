-- ===== src/Tests.antt =====
-- Runs at concrete inputs: tests of the definitions, and each theorem applied where it holds.
mod Play
mod Routers
mod Connections
mod Health
mod Chunked
mod Main
mod Reactor
mod Lives
mod Requests
mod Worker
use l7_load_balancer.Prelude.{ℕ, pos, List, [], ◌∷◌}
use l7_load_balancer.Backend.{Backend}

-- 127.0.0.1:8001 and so on, with short host names.
abbrev pub backend1 : Backend
backend1 = record { host = b'a' ∷ []; port = pos 8001 }

abbrev pub backend2 : Backend
backend2 = record { host = b'a' ∷ []; port = pos 8002 }

abbrev pub backend3 : Backend
backend3 = record { host = b'b' ∷ []; port = pos 8001 }

abbrev pub backends : List Backend
backends = backend1 ∷ backend2 ∷ backend3 ∷ []
