-- ===== src/Router/RoundRobin/Selection.antt =====
-- `RoundRobinRouter.next_backend`: what it may return, and when it returns nothing.
use native.Mathlib.Nat.{mod-lt, add-zero, add-mod-mod, mod-add-mod, add-mod_right, mod-eq_of_lt}
use l7_load_balancer.Prelude.{
  ℕ, zero, suc, ◌+◌, ◌-◌, ◌%◌, ◌<◌, List, [], ◌∷◌, none, some, true, false, ◌≡◌, refl, arith,
  length, get_elem?, Bool-cases, Option-cases, inl, inr, ap,
}
use l7_load_balancer.Prelude.Dict.{contains}
use l7_load_balancer.Backend.{Backend, Backend-discrete}
use l7_load_balancer.Router.RoundRobin.{RoundRobinRouter, visit, pick, next_backend}

abbrev pub In : Backend → List Backend → Type 0
In b xs = contains Backend-discrete b xs ≡ true

pub get_elem?-In : (xs : List Backend) (i : ℕ) (b : Backend) → get_elem? xs i ≡ some b → In b xs
unfolding contains
get_elem?-In [] i b h = cc
get_elem?-In (x ∷ xs) zero b h = ground arith
get_elem?-In (x ∷ xs) (suc i) b h = ground (arith, get_elem?-In xs i b h)

pub In-get_elem? :
    (xs : List Backend) (b : Backend)
    → In b xs
    → (i : ℕ) × (i < length xs) × (get_elem? xs i ≡ some b)
unfolding contains
In-get_elem? [] b h = cc
In-get_elem? (x ∷ xs) b h = elim (Backend-discrete x b) [
  | yes e ↦ (0, omega arith, ap some e)
  | no ne ↦ let (i, lt, at) = In-get_elem? xs b (ground arith) in (suc i, omega arith, at)
]

pub get_elem?_lt :
    (xs : List Backend) (i : ℕ) → i < length xs → (b : Backend) × (get_elem? xs i ≡ some b)
get_elem?_lt [] i h = absurd (omega arith)
get_elem?_lt (x ∷ xs) zero h = (x, refl)
get_elem?_lt (x ∷ xs) (suc i) h = get_elem?_lt xs i (omega arith)

-- The subscript of the loop is always in range.
pub get_elem?_mod :
    (xs : List Backend) (i : ℕ)
    → 0 < length xs
    → (b : Backend) × (get_elem? xs (i % length xs) ≡ some b)
get_elem?_mod xs i h = get_elem?_lt xs (i % length xs) (mod-lt i h)

-- One round of the loop, at the backend that the subscript gives.
pick_skip :
    (k : ℕ) (healthy skip : List Backend) (i : ℕ) (c : Backend)
    → get_elem? healthy (i % length healthy) ≡ some c
    → In c skip
    → pick (suc k) healthy skip i ≡ pick k healthy skip (i + 1)
unfolding pick
pick_skip k healthy skip i c e s = rw (e, visit, s)

pub pick_take :
    (k : ℕ) (healthy skip : List Backend) (i : ℕ) (c : Backend)
    → get_elem? healthy (i % length healthy) ≡ some c
    → contains Backend-discrete c skip ≡ false
    → pick (suc k) healthy skip i ≡ (some c, i + 1)
unfolding pick
pick_take k healthy skip i c e s = rw (e, visit, s)

pick_out :
    (k : ℕ) (healthy skip : List Backend) (i : ℕ)
    → get_elem? healthy (i % length healthy) ≡ none
    → (pick (suc k) healthy skip i).0 ≡ none
unfolding pick
pick_out k healthy skip i e = rw (e, visit)

-- A backend that the loop returns is in the pool and not excluded.
pick-some :
    (k : ℕ) (healthy skip : List Backend) (i : ℕ) (b : Backend)
    → (pick k healthy skip i).0 ≡ some b
    → In b healthy × (contains Backend-discrete b skip ≡ false)
pick-some zero healthy skip i b h = unfold pick in cc
pick-some (suc k) healthy skip i b h =
    elim (Option-cases (get_elem? healthy (i % length healthy))) [
      | inl e ↦ cc (pick_out k healthy skip i e)
      | inr (c, e) ↦ elim (Bool-cases (contains Backend-discrete c skip)) [
        | inl s ↦ pick-some k healthy skip (i + 1) b (rw (pick_skip k healthy skip i c e s) at h)
        | inr s ↦
            let c-eq : c ≡ b = ground (arith, rw (pick_take k healthy skip i c e s) at h) in
            rw (← c-eq) (get_elem?-In healthy (i % length healthy) c e, s)
      ]
    ]

-- A loop that returns nothing has met excluded backends only.
pick-none :
    (k : ℕ) (healthy skip : List Backend) (i d : ℕ) (b : Backend)
    → (pick k healthy skip i).0 ≡ none
    → d < k
    → get_elem? healthy ((i + d) % length healthy) ≡ some b
    → In b skip
pick-none zero healthy skip i d b h lt e = absurd (omega arith)
pick-none (suc k) healthy skip i zero b h lt e =
    elim (Bool-cases (contains Backend-discrete b skip)) [
      | inl s ↦ s
      | inr s ↦ cc (pick_take k healthy skip i b (rw add-zero at e) s)
    ]
pick-none (suc k) healthy skip i (suc d) b h lt e =
    let (c, at) = get_elem?_mod healthy i (nonempty healthy ((i + suc d) % length healthy) b e) in
    elim (Bool-cases (contains Backend-discrete c skip)) [
      | inl s ↦
          pick-none k healthy skip (i + 1) d b (rw (pick_skip k healthy skip i c at s) at h)
            (omega arith) (rw shift at e)
      | inr s ↦ cc (pick_take k healthy skip i c at s)
    ]
  where
    shift : i + suc d ≡ i + 1 + d
    shift = omega arith

    nonempty : (xs : List Backend) (j : ℕ) (y : Backend) → get_elem? xs j ≡ some y → 0 < length xs
    nonempty [] j y at = cc
    nonempty (x ∷ xs) j y at = omega arith

-- Some round within one turn reads position `j`.
pub turn : (n i j : ℕ) → j < n → (d : ℕ) × (d < n) × ((i + d) % n ≡ j)
turn n i j h = (
  (j + n - i % n) % n,
  mod-lt (j + n - i % n) (omega arith),
  rw add-mod-mod
      (rw (← mod-add-mod i n (j + n - i % n)) (rw whole (rw add-mod_right (mod-eq_of_lt h)))),
)
  where
    whole : i % n + (j + n - i % n) ≡ j + n
    whole = omega (arith, mod-lt i {m = n} (omega arith))

module _ (r : RoundRobinRouter) (skip : List Backend) where
  -- `next_backend` returns a healthy backend that is not excluded.
  pub next_backend-some :
      (b : Backend)
      → (next_backend r skip).0 ≡ some b
      → In b r.healthy × (contains Backend-discrete b skip ≡ false)
  unfolding next_backend
  next_backend-some b = pick-some (length r.healthy) r.healthy skip r.index b

  -- A round-robin router serves nothing only if every healthy backend is excluded, wherever its
  -- index stands.
  pub next_backend-all_skipped :
      (b : Backend) → (next_backend r skip).0 ≡ none → In b r.healthy → In b skip
  unfolding next_backend
  next_backend-all_skipped b h m =
      let (j, lt, at) = In-get_elem? r.healthy b m in
      let (d, less, same) = turn (length r.healthy) r.index j lt in
      pick-none (length r.healthy) r.healthy skip r.index d b h less (rw same at)

  pub healthy-next_backend : (next_backend r skip).1.healthy ≡ r.healthy
  unfolding next_backend
  healthy-next_backend = refl
