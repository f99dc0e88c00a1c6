-- ===== src/Router/LeastConnections/Selection.antt =====
-- `LeastConnectionsRouter.next_backend`: it serves a least loaded backend of those it may serve.
use mathlib.Core.Logic.{ite}
use l7_load_balancer.Prelude.{false}
use l7_load_balancer.Prelude.{
  suc, ◌+◌, ◌≤◌, List, [], ◌≡◌, ◌≢◌, refl, sym, ap, subst, true, arith, Bool-cases, Option-cases,
  none, some, inl, inr,
}
use l7_load_balancer.Prelude.Dict.{contains, insert}
use l7_load_balancer.Prelude.Heap.{
  Any, IsSorted, heappush_all, heappush_all-Any, heappush_all-IsSorted,
}
use l7_load_balancer.Backend.{Backend, Backend-discrete}
use l7_load_balancer.Router.LeastConnections.{
  Entry, entry_leb, LeastConnectionsRouter, count_of, push, Scan, scan, choose, next_backend,
}
use l7_load_balancer.Router.LeastConnections.Invariant.{
  IsFor, HasLive, IsValid, entry_leb-le, entry_leb-ge, count_of-insert, count_of-insert_self,
  count_of-insert_ne, push-IsSorted, push-HasLive,
}
use l7_load_balancer.Router.LeastConnections.Loop.{May, best, scan-free, no_live, scan-IsSorted}
use l7_load_balancer.Router.LeastConnections.Kept.{keeps}

module _ (r : LeastConnectionsRouter) (skip : List Backend) where
  abbrev found : Scan
  found = scan r.healthy_set r.counts skip r.heap []

  -- The router once the deferred entries have gone back.
  abbrev restored : LeastConnectionsRouter
  restored = record r { heap = heappush_all entry_leb found.deferred found.heap }

  abbrev pub MayServe : Backend → Type 0
  MayServe = May r.healthy_set r.counts skip

  next_backend_none_lem : found.chosen ≡ none → next_backend r skip ≡ (none, restored)
  unfolding next_backend choose
  next_backend_none_lem h = rw h

  abbrev served : Entry → LeastConnectionsRouter
  served e =
      push (record restored { counts = insert Backend-discrete e.backend (e.count + 1) r.counts })
        (e.count + 1) e.backend

  next_backend_some_lem :
      (e : Entry) → found.chosen ≡ some e → next_backend r skip ≡ (some e.backend, served e)
  unfolding next_backend choose
  next_backend_some_lem e h = rw h

  chosen :
      (b : Backend)
      → (next_backend r skip).0 ≡ some b
      → (e : Entry) × (found.chosen ≡ some e) × (e.backend ≡ b)
  chosen b h = elim (Option-cases found.chosen) [
    | inl n ↦ cc (next_backend_none_lem n)
    | inr (e, c) ↦ (e, c, cc (next_backend_some_lem e c))
  ]

  pub next_backend-free :
      (b : Backend) → (next_backend r skip).0 ≡ some b → contains Backend-discrete b skip ≡ false
  next_backend-free b h =
      let (e, c, same) = chosen b h in
      subst (λ x. contains Backend-discrete x skip ≡ false) same
        (scan-free r.healthy_set r.counts skip r.heap [] e c)

  -- In a valid router, the backend that next_backend serves is healthy and not excluded, and no
  -- healthy backend that is not excluded has a smaller count.
  pub next_backend-least :
      IsValid r
      → (b : Backend) → (next_backend r skip).0 ≡ some b
      → MayServe b × ((c : Backend) → MayServe c → count_of r.counts b ≤ count_of r.counts c)
  next_backend-least v b h =
      let (e, c, same) = chosen b h in
      let known = best r.healthy_set r.counts skip r.heap [] e v.sorted c in
      subst
        (λ x. MayServe x × ((c : Backend) → MayServe c → count_of r.counts x ≤ count_of r.counts c))
        same
        (
          known.may,
          λ d m. subst (λ n. n ≤ count_of r.counts d) known.live (known.least d m (v.live d m.0)),
        )

  -- In a valid router, next_backend serves nothing only if every healthy backend is excluded: a
  -- stale heap never hides a backend.
  pub next_backend-none :
      IsValid r
      → (next_backend r skip).0 ≡ none
      → (b : Backend) → contains Backend-discrete b r.healthy_set ≡ true
      → contains Backend-discrete b skip ≡ true
  next_backend-none v h b m = elim (Bool-cases (contains Backend-discrete b skip)) [
    | inl yes_it ↦ yes_it
    | inr free ↦ elim (Option-cases found.chosen) [
      | inl n ↦ absurd (no_live r.healthy_set r.counts skip r.heap [] b (m, free) n (v.live b m))
      | inr (e, c) ↦ cc (next_backend_some_lem e c)
    ]
  ]

  counts-served :
      (e : Entry) → (served e).counts ≡ insert Backend-discrete e.backend (e.count + 1) r.counts
  unfolding push
  counts-served e = refl

  -- In a valid router, a call of next_backend that serves a backend adds one to its count and
  -- leaves every other count.
  pub count_of-next_backend :
      IsValid r
      → (b c : Backend) → (next_backend r skip).0 ≡ some b
      → count_of (next_backend r skip).1.counts c
        ≡ ite (Backend-discrete b c) (suc (count_of r.counts c)) (count_of r.counts c)
  count_of-next_backend v b c h =
      let (e, ch, same) = chosen b h in
      let known = best r.healthy_set r.counts skip r.heap [] e v.sorted ch in
      rw (next_backend_some_lem e ch) (
        ground (
          arith,
          counts-served e,
          count_of-insert e.backend c (e.count + 1) r.counts,
          known.live,
          ap (count_of r.counts) same,
        ))

  -- If nothing is served, no count changes.
  pub counts-next_backend_none :
      (next_backend r skip).0 ≡ none → (next_backend r skip).1.counts ≡ r.counts
  counts-next_backend_none h = elim (Option-cases found.chosen) [
    | inl n ↦ rw (next_backend_none_lem n)
    | inr (e, c) ↦ cc (next_backend_some_lem e c)
  ]

  pub healthy_set-next_backend : (next_backend r skip).1.healthy_set ≡ r.healthy_set
  unfolding push
  healthy_set-next_backend = elim (Option-cases found.chosen) [
    | inl n ↦ rw (next_backend_none_lem n)
    | inr (e, c) ↦ rw (next_backend_some_lem e c)
  ]

  restored-IsSorted : IsValid r → IsSorted (λ e. e.count) restored.heap
  restored-IsSorted v =
      heappush_all-IsSorted entry_leb (λ e. e.count) entry_leb-le entry_leb-ge found.deferred
        found.heap (scan-IsSorted r.healthy_set r.counts skip r.heap [] v.sorted)

  -- A healthy backend that is not served keeps its live entry.
  restored-HasLive :
      IsValid r
      → (b : Backend) → contains Backend-discrete b r.healthy_set ≡ true
      → ((e : Entry) → found.chosen ≡ some e → e.backend ≢ b)
      → HasLive r.counts b restored.heap
  restored-HasLive v b m other =
      elim (keeps r.healthy_set r.counts skip r.heap [] b m (inr (v.live b m))) [
        | inl (e, c, same) ↦ absurd (other e c same)
        | inr q ↦
            heappush_all-Any entry_leb (IsFor b (count_of r.counts b)) found.deferred found.heap q
      ]

  served-IsValid : IsValid r → (e : Entry) → found.chosen ≡ some e → IsValid (served e)
  unfolding push
  served-IsValid v e c = record {
    distinct = v.distinct;
    sorted = push-IsSorted charged (e.count + 1) e.backend (restored-IsSorted v);
    live = λ b m. rw (counts-served e) (
        push-HasLive charged (e.count + 1) e.backend b
          (count_of-insert_self e.backend (e.count + 1) r.counts)
          (λ ne.
            subst (λ n. Any (IsFor b n) restored.heap)
              (sym (count_of-insert_ne e.backend b (e.count + 1) r.counts ne))
              (restored-HasLive v b (healthy-served b m) (λ x same_e same. ne (cc)))));
  }
    where
      healthy-served :
          (b : Backend)
          → contains Backend-discrete b (served e).healthy_set ≡ true
          → contains Backend-discrete b r.healthy_set ≡ true
      healthy-served b m = m

      charged : LeastConnectionsRouter
      charged = record restored {
        counts = insert Backend-discrete e.backend (e.count + 1) r.counts;
      }

  -- Next_backend keeps the router valid: the pool has no duplicates, the heap is in order, and
  -- each healthy backend has an entry under its current count.
  pub next_backend-IsValid : IsValid r → IsValid (next_backend r skip).1
  next_backend-IsValid v = elim (Option-cases found.chosen) [
    | inl n ↦ rw (next_backend_none_lem n) (record {
      distinct = v.distinct;
      sorted = restored-IsSorted v;
      live = λ b m. restored-HasLive v b m (λ e c. cc);
    })
    | inr (e, c) ↦ rw (next_backend_some_lem e c) (served-IsValid v e c)
  ]
