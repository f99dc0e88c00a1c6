-- ===== src/Main/Backends.antt =====
-- `parse_backends` of main.py.
pub mod RoundTrip
use mathlib.Core.Option
use l7_load_balancer.Prelude.{ℕ, List, [], ◌∷◌, Option, none, some, ℤ, and_then}
use l7_load_balancer.Backend.{Backend}
use l7_load_balancer.Bytes.{Bytes, split, strip, rpartition}
use l7_load_balancer.Bytes.Number.{int}

-- `host, _, port_s = entry.rpartition(":")`; with no colon the host is empty.
abbrev host_and_port : Bytes → Option (Bytes × Bytes) → Bytes × Bytes
host_and_port entry none = ([], entry)
host_and_port entry (some p) = p

-- `none` is the ValueError of `int`.
unfoldable pub parse_entry : Bytes → Option Backend
parse_entry entry =
    let cut = host_and_port entry (rpartition b':' entry) in
    Option.map (λ port. record { host = cut.0; port = port }) (int 10 cut.1)

-- One entry of the loop, stripped, and the rest; an empty entry is passed over.
add_entry : Bytes → Option (List Backend) → Option (List Backend)
unfolding parse_entry
add_entry [] rest = rest
add_entry (c ∷ cs) rest = and_then (parse_entry (c ∷ cs)) (λ b. Option.map (λ bs. b ∷ bs) rest)

unfoldable pub parse_entries : List Bytes → Option (List Backend)
unfolding add_entry
parse_entries [] = some []
parse_entries (e ∷ es) = add_entry (strip e) (parse_entries es)

unfoldable pub parse_backends : Bytes → Option (List Backend)
unfolding parse_entries
parse_backends raw = parse_entries (split (b',' ∷ []) raw)
