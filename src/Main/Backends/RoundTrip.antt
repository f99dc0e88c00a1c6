-- ===== src/Main/Backends/RoundTrip.antt =====
-- A list of backends is read back from its text.
use mathlib.Core.Option
use l7_load_balancer.Prelude.{
  ℕ, ◌≡◌, ◌≢◌, refl, ap, ◌∙◌, List, [], ◌∷◌, ◌++◌, append_assoc, append-nil, Option, none, some,
  false, arith, ◌==◌,
}
use l7_load_balancer.Prelude.Heap.{All}
use l7_load_balancer.Backend.{Backend}
use l7_load_balancer.Bytes.{Bytes, is_space, lstrip, split_go, split, strip, rpartition}
use l7_load_balancer.Bytes.Number.{str_int}
use l7_load_balancer.Bytes.Number.RoundTrip.{
  NoSpace, NoSpace-strip, All-append, str_int-All, str_int-NoSpace, int-str_int,
}
use l7_load_balancer.Main.Backends.{parse_entry, add_entry, parse_entries, parse_backends}

-- `host:port`
unfoldable pub render_backend : Backend → Bytes
render_backend b = b.host ++ b':' ∷ str_int b.port

-- The texts of the backends with commas between them.
unfoldable pub render : List Backend → Bytes
unfolding render_backend
render [] = []
render (b ∷ []) = render_backend b
render (b ∷ c ∷ bs) = render_backend b ++ b',' ∷ render (c ∷ bs)

-- A host name with no space and no comma; colons may be in it.
abbrev pub IsHost : Bytes → Type 0
IsHost host = All (λ c. (is_space c ≡ false) × (c ≢ b',')) host

-- No character of the text is `c`.
abbrev Lacks : ℕ → Bytes → Type 0
Lacks c s = All (λ d. d ≢ c) s

All-map : (P Q : ℕ → Type 0) → ((c : ℕ) → P c → Q c) → (s : Bytes) → All P s → All Q s
All-map P Q f [] a = tt
All-map P Q f (c ∷ s) a = (f c a.0, All-map P Q f s a.1)

rpartition-Lacks : (c : ℕ) (s : Bytes) → Lacks c s → rpartition c s ≡ none
unfolding rpartition
rpartition-Lacks c [] a = refl
rpartition-Lacks c (x ∷ s) a = rw (rpartition-Lacks c s a.1) (ground arith)

rpartition-last :
    (c : ℕ) (host t : Bytes) → Lacks c t → rpartition c (host ++ c ∷ t) ≡ some (host, t)
unfolding rpartition
rpartition-last c [] t a = rw (rpartition-Lacks c t a) (ground arith)
rpartition-last c (x ∷ host) t a = rw (rpartition-last c host t a)

parse-render_backend : (b : Backend) → parse_entry (render_backend b) ≡ some b
unfolding parse_entry render_backend
parse-render_backend b = rw (
  rpartition-last b':' b.host (str_int b.port)
      (str_int-All (λ d. d ≢ b':') (λ c d. omega arith) (omega arith) b.port),
  int-str_int b.port,
)

differ : (c : ℕ) → c ≢ b',' → (b',' == c) ≡ false
differ c n = ground arith

split_go-Lacks :
    (piece s : Bytes) → Lacks b',' s → split_go (b',' ∷ []) 0 piece s ≡ (piece ++ s) ∷ []
unfolding split_go
split_go-Lacks piece [] a = rw append-nil
split_go-Lacks piece (c ∷ s) a =
    rw (differ c a.0)
      (split_go-Lacks (piece ++ c ∷ []) s a.1 ∙ ap (λ x. x ∷ []) (append_assoc piece (c ∷ []) s))

split_go-comma :
    (piece s rest : Bytes)
    → Lacks b',' s
    → split_go (b',' ∷ []) 0 piece (s ++ b',' ∷ rest)
      ≡ (piece ++ s) ∷ split_go (b',' ∷ []) 0 [] rest
unfolding split_go
split_go-comma piece [] rest a = rw append-nil
split_go-comma piece (c ∷ s) rest a = rw (differ c a.0) (
    split_go-comma (piece ++ c ∷ []) s rest a.1
    ∙ ap (λ x. x ∷ split_go (b',' ∷ []) 0 [] rest) (append_assoc piece (c ∷ []) s))

module _ (b : Backend) (h : IsHost b.host) where
  text-NoSpace : NoSpace (render_backend b)
  unfolding render_backend is_space
  text-NoSpace =
      All-append (λ c. is_space c ≡ false) b.host _
        (All-map (λ c. (is_space c ≡ false) × (c ≢ b',')) (λ c. is_space c ≡ false) (λ c q. q.0)
          b.host h)
        (refl, str_int-NoSpace b.port)

  text-Lacks : Lacks b',' (render_backend b)
  unfolding render_backend
  text-Lacks =
      All-append (λ c. c ≢ b',') b.host _
        (All-map (λ c. (is_space c ≡ false) × (c ≢ b',')) (λ c. c ≢ b',') (λ c q. q.1) b.host h)
        (omega arith, str_int-All (λ d. d ≢ b',') (λ c d. omega arith) (omega arith) b.port)

  add_entry-text :
      (rest : Option (List Backend))
      → add_entry (strip (render_backend b)) rest ≡ Option.map (λ bs. b ∷ bs) rest
  add_entry-text rest =
      rw (NoSpace-strip (render_backend b) text-NoSpace)
        (nonempty (render_backend b) (starts b.host refl) (parse-render_backend b))
    where
      nonempty :
          (t : Bytes)
          → t ≢ []
          → parse_entry t ≡ some b
          → add_entry t rest ≡ Option.map (λ bs. b ∷ bs) rest
      nonempty [] n e = absurd (n refl)
      nonempty (c ∷ cs) n e = unfold add_entry in rw e

      starts : (host : Bytes) → b.host ≡ host → render_backend b ≢ []
      starts [] e = unfold render_backend in rw e (λ q. cc)
      starts (c ∷ cs) e = unfold render_backend in rw e (λ q. cc)

abbrev pub AllHosts : List Backend → Type 0
AllHosts [] = Unit
AllHosts (b ∷ bs) = IsHost b.host × AllHosts bs

parse_split :
    (bs : List Backend)
    → AllHosts bs
    → parse_entries (split_go (b',' ∷ []) 0 [] (render bs)) ≡ some bs
unfolding parse_entries render
parse_split [] a = unfold split_go strip lstrip add_entry in refl
parse_split (b ∷ []) a =
    rw (split_go-Lacks [] (render_backend b) (text-Lacks b a.0)) (add_entry-text b a.0 (some []))
parse_split (b ∷ c ∷ bs) a =
    rw (split_go-comma [] (render_backend b) (render (c ∷ bs)) (text-Lacks b a.0))
      (add_entry-text b a.0 _ ∙ ap (Option.map (λ q. b ∷ q)) (parse_split (c ∷ bs) a.1))

-- A list of backends whose hosts have no white space and no comma is what parse_backends reads
-- from its text, host and port with a colon between them and commas between the backends; hosts
-- with colons are read back too.
pub parse_backends-render : (bs : List Backend) → AllHosts bs → parse_backends (render bs) ≡ some bs
unfolding parse_backends split
parse_backends-render bs a = parse_split bs a
