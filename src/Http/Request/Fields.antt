-- ===== src/Http/Request/Fields.antt =====
-- The header fields of a request, written as lines and read back.
use l7_load_balancer.Prelude.{
  ◌≡◌, refl, sym, ap, ◌∙◌, subst, List, [], ◌∷◌, ◌++◌, map, append_assoc, append-nil, false, arith,
}
use l7_load_balancer.Prelude.Heap.{All}
use l7_load_balancer.Prelude.Dict.{contains, Distinct, contains-append, insert}
use l7_load_balancer.Bytes.{Bytes, Bytes-discrete, strip, lstrip, is_space}
use l7_load_balancer.Http.Request.{Headers, add_header, add_headers, header_lines}
use l7_load_balancer.Http.Request.Lines.{Lacks, joined, partition-first}

abbrev pub names : Headers → List Bytes
names [] = []
names ((name, value) ∷ hs) = name ∷ names hs

-- A header that is written as it stands: the name has no colon, neither part has white space around
-- it.
abbrev pub IsHeader : Bytes × Bytes → Type 0
IsHeader h =
    Lacks b':' h.0 × Lacks b'\r' h.0 × Lacks b'\r' h.1 × (strip h.0 ≡ h.0) × (strip h.1 ≡ h.1)

abbrev pub line_of : Bytes × Bytes → Bytes
line_of h = h.0 ++ b':' ∷ b' ' ∷ h.1

pub strip-space : (v : Bytes) → strip (b' ' ∷ v) ≡ strip v
unfolding strip lstrip is_space
strip-space v = refl

pub insert-new :
    (k v : Bytes) (d : Headers)
    → contains Bytes-discrete k (names d) ≡ false
    → insert Bytes-discrete k v d ≡ d ++ (k, v) ∷ []
unfolding insert contains
insert-new k v [] n = refl
insert-new k v ((j, w) ∷ d) n = ground (arith, insert-new k v d)

pub add-line :
    (h : Bytes × Bytes) (d : Headers)
    → IsHeader h
    → contains Bytes-discrete h.0 (names d) ≡ false
    → add_header (line_of h) d ≡ d ++ h ∷ []
unfolding add_header
add-line (name, value) d (c, r, s, e, f) n =
    rw (add_header, partition-first b':' name (b' ' ∷ value) c, e, strip-space value, f)
      (insert-new name value d n)

-- No name of the headers that follow is among those so far, or comes twice.
unfoldable pub AllNew : Headers → Headers → Type 0
AllNew d [] = Unit
AllNew d (h ∷ hs) = (contains Bytes-discrete h.0 (names d) ≡ false) × AllNew (d ++ h ∷ []) hs

pub add-lines :
    (hs d : Headers) → All IsHeader hs → AllNew d hs → add_headers (map line_of hs) d ≡ d ++ hs
unfolding add_headers AllNew
add-lines [] d a n = sym (append-nil d)
add-lines (h ∷ hs) d a n =
    rw (add_headers, add-line h d a.0 n.0)
      (add-lines hs (d ++ h ∷ []) a.1 n.1 ∙ append_assoc d (h ∷ []) hs)

pub header_lines_lem : (hs : Headers) → header_lines hs ≡ joined (map line_of hs)
unfolding header_lines
header_lines_lem [] = refl
header_lines_lem ((name, value) ∷ hs) = rw (header_lines_lem hs) (
    ap (λ s. b'\r' ∷ b'\n' ∷ s)
      (sym (append_assoc name (b':' ∷ b' ' ∷ value) (joined (map line_of hs)))))

pub apart :
    (k : Bytes) (xs ys : List Bytes)
    → Distinct Bytes-discrete (xs ++ k ∷ ys)
    → contains Bytes-discrete k xs ≡ false
unfolding contains
apart k [] ys d = refl
apart k (x ∷ xs) ys d =
    ground (arith, apart k xs ys d.1, contains-append Bytes-discrete x xs (k ∷ ys))

pub names-append : (d e : Headers) → names (d ++ e) ≡ names d ++ names e
names-append [] e = refl
names-append ((k, v) ∷ d) e = ap (◌∷◌ k) (names-append d e)

pub Distinct-AllNew : (d hs : Headers) → Distinct Bytes-discrete (names (d ++ hs)) → AllNew d hs
unfolding AllNew
Distinct-AllNew d [] q = tt
Distinct-AllNew d (h ∷ hs) q = (
  apart h.0 (names d) (names hs) (subst (Distinct Bytes-discrete) (names-append d (h ∷ hs)) q),
  Distinct-AllNew (d ++ h ∷ []) hs
      (subst (λ e. Distinct Bytes-discrete (names e)) (sym (append_assoc d (h ∷ []) hs)) q),
)
