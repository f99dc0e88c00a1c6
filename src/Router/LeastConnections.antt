-- ===== src/Router/LeastConnections.antt =====
-- `LeastConnectionsRouter` of router.py. Each method runs under the lock, so it is one step.
pub mod Invariant
pub mod Loop
pub mod Kept
pub mod Selection
pub mod Health
pub mod Start
use mathlib.Core.Option
use l7_load_balancer.Prelude.{
  ℕ, zero, suc, ◌+◌, ◌-◌, List, [], ◌∷◌, ◌++◌, Option, none, some, Bool, true, false, not, ltb, leb,
  ◌==◌, if◌then◌else◌, map,
}
use l7_load_balancer.Prelude.Dict.{contains, discard, lookup, insert}
use l7_load_balancer.Prelude.Heap.{heappush, heappush_all}
use l7_load_balancer.Backend.{Backend, Backend-discrete, backend_leb}

-- A heap entry `(count, tiebreak, backend)`.
pub record Entry : Type 0 where
  pub count : ℕ
  pub tiebreak : ℕ
  pub backend : Backend

-- `<=` of these tuples.
unfoldable pub entry_leb : Entry → Entry → Bool
entry_leb a b =
    if ltb a.count b.count
    then true
    else if ltb b.count a.count
    then false
    else if ltb a.tiebreak b.tiebreak
    then true
    else if ltb b.tiebreak a.tiebreak
    then false
    else backend_leb a.backend b.backend

pub record LeastConnectionsRouter : Type 0 where
  pub all_backends : List Backend
  pub counts : List (Backend × ℕ)
  pub tiebreak : ℕ
  pub heap : List Entry
  pub healthy_set : List Backend

-- `_counts.get(backend, 0)`
unfoldable pub count_of : List (Backend × ℕ) → Backend → ℕ
count_of counts b = elim (lookup Backend-discrete b counts) [ none ↦ 0 | some n ↦ n ]

-- `self._tiebreak += 1` and the push of an entry under it.
unfoldable pub push : LeastConnectionsRouter → ℕ → Backend → LeastConnectionsRouter
push r count b = record r {
  tiebreak = r.tiebreak + 1;
  heap =
      heappush entry_leb (record { count = count; tiebreak = r.tiebreak + 1; backend = b }) r.heap;
}

-- `{b: 0 for b in backends}` and `set(backends)`
pub zero_counts : List Backend → List (Backend × ℕ) → List (Backend × ℕ)
zero_counts [] counts = counts
zero_counts (b ∷ bs) counts = zero_counts bs (insert Backend-discrete b 0 counts)

unfoldable pub add : Backend → List Backend → List Backend
add b bs = if contains Backend-discrete b bs then bs else bs ++ b ∷ []

pub set_of : List Backend → List Backend → List Backend
set_of [] bs = bs
set_of (b ∷ rest) bs = set_of rest (add b bs)

-- The loop of `__init__`.
pub push_each : List Backend → LeastConnectionsRouter → LeastConnectionsRouter
push_each [] r = r
push_each (b ∷ bs) r = push_each bs (push r 0 b)

unfoldable pub init : List Backend → LeastConnectionsRouter
unfolding zero_counts set_of add push_each push
init backends = push_each backends (record {
  all_backends = backends;
  counts = zero_counts backends [];
  tiebreak = 0;
  heap = [];
  healthy_set = set_of backends [];
})

-- What the `while` loop leaves: the heap, the deferred entries and the chosen one.
pub record Scan : Type 0 where
  pub heap : List Entry
  pub deferred : List Entry
  pub chosen : Option Entry

-- The `while` loop of `next_backend`, one `heappop` a round.
unfoldable pub scan :
    List Backend → List (Backend × ℕ) → List Backend → List Entry → List Entry → Scan
scan healthy counts skip [] deferred = record { heap = []; deferred = deferred; chosen = none }
scan healthy counts skip (e ∷ heap) deferred =
    let dropped = scan healthy counts skip heap deferred in
    let put_off = scan healthy counts skip heap (deferred ++ e ∷ []) in
    if not (contains Backend-discrete e.backend healthy)
    then dropped
    else if not (e.count == count_of counts e.backend)
    then dropped
    else if contains Backend-discrete e.backend skip
    then put_off
    else record { heap = heap; deferred = deferred; chosen = some e }

-- The end of `next_backend`, after the deferred entries have gone back.
unfoldable pub choose :
    Option Entry → LeastConnectionsRouter → Option Backend × LeastConnectionsRouter
choose none r = (none, r)
choose (some e) r = (
  some e.backend,
  push (record r { counts = insert Backend-discrete e.backend (e.count + 1) r.counts })
      (e.count + 1) e.backend,
)

unfoldable pub next_backend :
    LeastConnectionsRouter → List Backend → Option Backend × LeastConnectionsRouter
unfolding scan choose push
next_backend r skip =
    let s = scan r.healthy_set r.counts skip r.heap [] in
    choose s.chosen (record r { heap = heappush_all entry_leb s.deferred s.heap })

-- `max(0, current - 1)` is the truncated subtraction.
unfoldable pub on_disconnect : LeastConnectionsRouter → Backend → LeastConnectionsRouter
unfolding push
on_disconnect r b =
    let new_count = count_of r.counts b - 1 in
    push (record r { counts = insert Backend-discrete b new_count r.counts }) new_count b

unfoldable pub mark_unhealthy : LeastConnectionsRouter → Backend → LeastConnectionsRouter
mark_unhealthy r b = record r { healthy_set = discard Backend-discrete b r.healthy_set }

-- `_counts.setdefault(b, 0)`
unfoldable pub set_default : Backend → List (Backend × ℕ) → List (Backend × ℕ)
set_default b counts = elim (lookup Backend-discrete b counts) [
  | none ↦ insert Backend-discrete b 0 counts
  | some _ ↦ counts
]

unfoldable pub mark_healthy : LeastConnectionsRouter → Backend → LeastConnectionsRouter
unfolding push set_default add
mark_healthy r b =
    if contains Backend-discrete b r.healthy_set
    then r
    else push (record r { healthy_set = add b r.healthy_set; counts = set_default b r.counts })
        (count_of (set_default b r.counts) b) b

unfoldable pub get_all_backends : LeastConnectionsRouter → List Backend
get_all_backends r = r.all_backends

-- The order of `list(set)` is not specified: only membership in this list is ever used.
unfoldable pub get_healthy_backends : LeastConnectionsRouter → List Backend
get_healthy_backends r = r.healthy_set
