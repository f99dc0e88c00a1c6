-- ===== src/Backend.antt =====
-- `Backend = Tuple[str, int]` of router.py and connection.py: a host, as code points, and a port.
use native.Mathlib.Decide.{ℕ_discrete}
use l7_load_balancer.Prelude.{ℕ, List, [], ◌∷◌, Bool, true, false, ltb, if◌then◌else◌, leb_ℤ, ℤ}

pub record Backend : Type 0 where
  pub host : List ℕ
  pub port : ℤ

-- Equality of the tuples.
unfoldable pub Backend-discrete : Discrete Backend
unfolding ℕ_discrete
Backend-discrete = hlevel ℕ_discrete

-- `a <= b` on strings and on ports, the last parts of a tuple that Python compares.
host_leb : List ℕ → List ℕ → Bool → Bool
host_leb [] [] ports = ports
host_leb [] (y ∷ ys) ports = true
host_leb (x ∷ xs) [] ports = false
host_leb (x ∷ xs) (y ∷ ys) ports =
    if ltb x y then true else if ltb y x then false else host_leb xs ys ports

unfoldable pub backend_leb : Backend → Backend → Bool
unfolding host_leb
backend_leb a b = host_leb a.host b.host (leb_ℤ a.port b.port)
