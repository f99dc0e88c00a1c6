-- ===== src/Router/LeastConnections/Loop.antt =====
-- The `while` loop of `LeastConnectionsRouter.next_backend`: which entry it chooses.
use l7_load_balancer.Prelude.{
  ℕ, ◌≤◌, List, [], ◌∷◌, ◌++◌, ◌≡◌, sym, ap, ◌∙◌, subst, true, false, arith, Bool-cases, none, some,
  ◌==◌, inl, inr, ◌⊎◌,
}
use l7_load_balancer.Prelude.Dict.{contains}
use l7_load_balancer.Prelude.Heap.{All, Any, IsSorted}
use l7_load_balancer.Backend.{Backend, Backend-discrete}
use l7_load_balancer.Router.LeastConnections.{Entry, count_of, Scan, scan}
use l7_load_balancer.Router.LeastConnections.Invariant.{IsFor}

module _ (healthy : List Backend) (counts : List (Backend × ℕ)) (skip : List Backend) where
  -- `next_backend` may serve `b`.
  abbrev pub May : Backend → Type 0
  May b = (contains Backend-discrete b healthy ≡ true) × (contains Backend-discrete b skip ≡ false)

  abbrev pub IsLive : Entry → Type 0
  IsLive e = e.count ≡ count_of counts e.backend

  -- What the loop does with the entry that it pops.
  pub data Verdict (e : Entry) (heap deferred : List Entry) : Scan → Type 0 where
    drop :
        ((contains Backend-discrete e.backend healthy ≡ false) ⊎ (¬ IsLive e))
        → Verdict e heap deferred (scan healthy counts skip heap deferred)
    put_off :
        IsLive e
        → contains Backend-discrete e.backend skip ≡ true
        → Verdict e heap deferred (scan healthy counts skip heap (deferred ++ e ∷ []))
    take :
        IsLive e
        → May e.backend
        → Verdict e heap deferred (record { heap = heap; deferred = deferred; chosen = some e })

  pub scan-Verdict :
      (e : Entry) (heap deferred : List Entry)
      → Verdict e heap deferred (scan healthy counts skip (e ∷ heap) deferred)
  unfolding scan
  scan-Verdict e heap deferred = elim (Bool-cases (contains Backend-discrete e.backend healthy)) [
    | inr out ↦ rw out (drop (inl out))
    | inl pool ↦ elim (Bool-cases (e.count == count_of counts e.backend)) [
      | inr stale ↦ rw (pool, stale) (drop (inr (ground arith)))
      | inl live ↦ elim (Bool-cases (contains Backend-discrete e.backend skip)) [
        | inl no_use ↦ rw (pool, live, no_use) (put_off (ground arith) no_use)
        | inr use_it ↦ rw (pool, live, use_it) (take (ground arith) (pool, use_it))
      ]
    ]
  ]

  -- Of an entry that stands for `b`, which may be served, the loop drops none and puts none off.
  abbrev pub Claims : Backend → Entry → Type 0
  Claims b e = IsFor b (count_of counts b) e

  not-dropped :
      (e : Entry) (b : Backend)
      → May b
      → Claims b e
      → ((contains Backend-discrete e.backend healthy ≡ false) ⊎ (¬ IsLive e))
      → ⊥
  not-dropped e b m c (inl out) = cc (ap (λ x. contains Backend-discrete x healthy) c.0)
  not-dropped e b m c (inr stale) = stale (c.1 ∙ ap (count_of counts) (sym c.0))

  not-put_off :
      (e : Entry) (b : Backend)
      → May b
      → Claims b e
      → contains Backend-discrete e.backend skip ≡ true
      → ⊥
  not-put_off e b m c no_use = cc (ap (λ x. contains Backend-discrete x skip) c.0)

  no_live_step :
      (e : Entry) (heap deferred : List Entry) (b : Backend) {s : Scan}
      → May b
      → Verdict e heap deferred s
      → s.chosen ≡ none
      → ((d : List Entry) → (scan healthy counts skip heap d).chosen ≡ none → ¬ Any (Claims b) heap)
      → ¬ Any (Claims b) (e ∷ heap)
  no_live_step e heap deferred b m (drop why) h rest (inl c) = not-dropped e b m c why
  no_live_step e heap deferred b m (drop why) h rest (inr q) = rest deferred h q
  no_live_step e heap deferred b m (put_off live no_use) h rest (inl c) = not-put_off e b m c no_use
  no_live_step e heap deferred b m (put_off live no_use) h rest (inr q) =
      rest (deferred ++ e ∷ []) h q
  no_live_step e heap deferred b m (take live may) h rest q = cc

  pub no_live :
      (heap deferred : List Entry) (b : Backend)
      → May b
      → (scan healthy counts skip heap deferred).chosen ≡ none
      → ¬ Any (Claims b) heap
  no_live [] deferred b m h = λ q. q
  no_live (e ∷ heap) deferred b m h =
      no_live_step e heap deferred b m (scan-Verdict e heap deferred) h (λ d. no_live heap d b m)

  -- What is known of the chosen entry.
  pub record IsBest (heap : List Entry) (e : Entry) : Type 0 where
    pub may : May e.backend
    pub live : IsLive e
    pub least : (b : Backend) → May b → Any (Claims b) heap → e.count ≤ count_of counts b

  Claims-le :
      (e : Entry) (heap : List Entry) (b : Backend)
      → All (λ y. e.count ≤ y.count) heap
      → Any (Claims b) heap
      → e.count ≤ count_of counts b
  Claims-le e [] b a q = absurd q
  Claims-le e (x ∷ heap) b a (inl c) = omega arith
  Claims-le e (x ∷ heap) b a (inr q) = Claims-le e heap b a.1 q

  IsBest-step :
      (x : Entry) (heap deferred : List Entry) (e : Entry) {s : Scan}
      → All (λ y. x.count ≤ y.count) heap
      → Verdict x heap deferred s
      → s.chosen ≡ some e
      → ((d : List Entry) → (scan healthy counts skip heap d).chosen ≡ some e → IsBest heap e)
      → IsBest (x ∷ heap) e
  IsBest-step x heap deferred e a (drop why) h rest =
      let best = rest deferred h in
      record {
        may = best.may;
        live = best.live;
        least = λ b m. elim [ inl c ↦ absurd (not-dropped x b m c why) | inr q ↦ best.least b m q ];
      }
  IsBest-step x heap deferred e a (put_off live no_use) h rest =
      let best = rest (deferred ++ x ∷ []) h in
      record {
        may = best.may;
        live = best.live;
        least =
            λ b m. elim [ inl c ↦ absurd (not-put_off x b m c no_use) | inr q ↦ best.least b m q ];
      }
  IsBest-step x heap deferred e a (take live may) h rest =
      let same : x ≡ e = cc in
      subst (IsBest (x ∷ heap)) same (record {
        may = may;
        live = live;
        least = λ b m. elim [ inl c ↦ omega arith | inr q ↦ Claims-le x heap b a q ];
      })

  pub best :
      (heap deferred : List Entry) (e : Entry)
      → IsSorted (λ y. y.count) heap
      → (scan healthy counts skip heap deferred).chosen ≡ some e
      → IsBest heap e
  best [] deferred e s h = unfold scan in cc
  best (x ∷ heap) deferred e s h =
      IsBest-step x heap deferred e s.0 (scan-Verdict x heap deferred) h (λ d. best heap d e s.1)

  -- What the loop chooses is not excluded, whether or not the heap is in order.
  scan-free_step :
      (x : Entry) (heap deferred : List Entry) (e : Entry) {s : Scan}
      → Verdict x heap deferred s
      → s.chosen ≡ some e
      → ((d : List Entry)
          → (scan healthy counts skip heap d).chosen ≡ some e
          → contains Backend-discrete e.backend skip ≡ false)
      → contains Backend-discrete e.backend skip ≡ false
  scan-free_step x heap deferred e (drop why) h rest = rest deferred h
  scan-free_step x heap deferred e (put_off live no_use) h rest = rest (deferred ++ x ∷ []) h
  scan-free_step x heap deferred e (take live may) h rest =
      let same : x ≡ e = cc in
      subst (λ y. contains Backend-discrete y.backend skip ≡ false) same may.1

  pub scan-free :
      (heap deferred : List Entry) (e : Entry)
      → (scan healthy counts skip heap deferred).chosen ≡ some e
      → contains Backend-discrete e.backend skip ≡ false
  scan-free [] deferred e h = unfold scan in cc
  scan-free (x ∷ heap) deferred e h =
      scan-free_step x heap deferred e (scan-Verdict x heap deferred) h (λ d. scan-free heap d e)

  scan-IsSorted_step :
      (x : Entry) (heap deferred : List Entry) {s : Scan}
      → IsSorted (λ y. y.count) heap
      → Verdict x heap deferred s
      → ((d : List Entry) → IsSorted (λ y. y.count) (scan healthy counts skip heap d).heap)
      → IsSorted (λ y. y.count) s.heap
  scan-IsSorted_step x heap deferred s (drop why) rest = rest deferred
  scan-IsSorted_step x heap deferred s (put_off live no_use) rest = rest (deferred ++ x ∷ [])
  scan-IsSorted_step x heap deferred s (take live may) rest = s

  pub scan-IsSorted :
      (heap deferred : List Entry)
      → IsSorted (λ y. y.count) heap
      → IsSorted (λ y. y.count) (scan healthy counts skip heap deferred).heap
  scan-IsSorted [] deferred s = unfold scan in tt
  scan-IsSorted (x ∷ heap) deferred s =
      scan-IsSorted_step x heap deferred s.1 (scan-Verdict x heap deferred)
        (λ d. scan-IsSorted heap d s.1)
