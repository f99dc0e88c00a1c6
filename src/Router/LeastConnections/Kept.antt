-- ===== src/Router/LeastConnections/Kept.antt =====
-- The `while` loop of `LeastConnectionsRouter.next_backend`: which entries it keeps.
use l7_load_balancer.Prelude.{
  ℕ, List, [], ◌∷◌, ◌++◌, ◌≡◌, refl, sym, ap, ◌∙◌, true, some, inl, inr, ◌⊎◌,
}
use l7_load_balancer.Prelude.Dict.{contains}
use l7_load_balancer.Prelude.Heap.{Any}
use l7_load_balancer.Backend.{Backend, Backend-discrete}
use l7_load_balancer.Router.LeastConnections.{Entry, count_of, Scan, scan}
use l7_load_balancer.Router.LeastConnections.Loop.{
  Verdict, drop, put_off, take, Claims, scan-Verdict,
}

module _ (healthy : List Backend) (counts : List (Backend × ℕ)) (skip : List Backend) where
  abbrev Claim : Backend → Entry → Type 0
  Claim b e = Claims healthy counts skip b e

  -- A healthy backend keeps its live entry, unless that is the chosen one.
  abbrev pub Keeps : Backend → Scan → Type 0
  Keeps b s =
      ((e : Entry) × (s.chosen ≡ some e) × (e.backend ≡ b))
      ⊎ (Any (Claim b) s.deferred ⊎ Any (Claim b) s.heap)

  Any-concat_self :
      (b : Backend) (x : Entry) (xs : List Entry) → Claim b x → Any (Claim b) (xs ++ x ∷ [])
  Any-concat_self b x [] c = inl c
  Any-concat_self b x (y ∷ xs) c = inr (Any-concat_self b x xs c)

  Any-concat :
      (b : Backend) (x : Entry) (xs : List Entry) → Any (Claim b) xs → Any (Claim b) (xs ++ x ∷ [])
  Any-concat b x [] q = absurd q
  Any-concat b x (y ∷ xs) (inl c) = inl c
  Any-concat b x (y ∷ xs) (inr q) = inr (Any-concat b x xs q)

  Keeps-step :
      (x : Entry) (heap deferred : List Entry) (b : Backend) {s : Scan}
      → contains Backend-discrete b healthy ≡ true
      → Verdict healthy counts skip x heap deferred s
      → Any (Claim b) deferred ⊎ Any (Claim b) (x ∷ heap)
      → ((d : List Entry)
          → Any (Claim b) d ⊎ Any (Claim b) heap
          → Keeps b (scan healthy counts skip heap d))
      → Keeps b s
  Keeps-step x heap deferred b m (drop why) (inl q) rest = rest deferred (inl q)
  Keeps-step x heap deferred b m (drop (inl out)) (inr (inl c)) rest =
      cc (ap (λ y. contains Backend-discrete y healthy) c.0)
  Keeps-step x heap deferred b m (drop (inr stale)) (inr (inl c)) rest =
      absurd (stale (c.1 ∙ ap (count_of counts) (sym c.0)))
  Keeps-step x heap deferred b m (drop why) (inr (inr q)) rest = rest deferred (inr q)
  Keeps-step x heap deferred b m (put_off live no_use) (inl q) rest =
      rest (deferred ++ x ∷ []) (inl (Any-concat b x deferred q))
  Keeps-step x heap deferred b m (put_off live no_use) (inr (inl c)) rest =
      rest (deferred ++ x ∷ []) (inl (Any-concat_self b x deferred c))
  Keeps-step x heap deferred b m (put_off live no_use) (inr (inr q)) rest =
      rest (deferred ++ x ∷ []) (inr q)
  Keeps-step x heap deferred b m (take live may) (inl q) rest = inr (inl q)
  Keeps-step x heap deferred b m (take live may) (inr (inl c)) rest = inl (x, refl, c.0)
  Keeps-step x heap deferred b m (take live may) (inr (inr q)) rest = inr (inr q)

  pub keeps :
      (heap deferred : List Entry) (b : Backend)
      → contains Backend-discrete b healthy ≡ true
      → Any (Claim b) deferred ⊎ Any (Claim b) heap
      → Keeps b (scan healthy counts skip heap deferred)
  keeps [] deferred b m q = inr (unfold scan in q)
  keeps (x ∷ heap) deferred b m q =
      Keeps-step x heap deferred b m (scan-Verdict healthy counts skip x heap deferred) q
        (λ d. keeps heap d b m)
