-- ===== src/Connection/Events/Relayed.antt =====
-- What the client is sent of a response, however the backend's bytes arrive.
use l7_load_balancer.Prelude.{
  ℕ, ◌+◌, ◌≡◌, List, [], ◌∷◌, ◌++◌, Option, none, some, true, false, ◌&&◌, leb_ℤ, if◌then◌else◌,
  ◌-◌, negsuc, ◌⊎◌, ℤ, pos, ◌+ℤ◌, drop, length,
}
use l7_load_balancer.Bytes.{Bytes, find, slice}
use l7_load_balancer.Http.{header_delim}
use l7_load_balancer.Http.Response.{is_chunked_response, get_response_content_length}
use l7_load_balancer.Http.Chunked.{framed, incomplete, try_consume_chunked_body}
use l7_load_balancer.Router.Routing.{Routing}
use l7_load_balancer.Connection.{
  reading_response, forwarding_response, ProxyConnection, Sys, received,
}
use l7_load_balancer.Connection.Handlers.{truth}
use l7_load_balancer.Connection.Events.{Event, backend_readable}

-- What the bytes in `buf` say: the response is complete, as its header lines frame it, and `relay` is
-- what the client gets. A chunked one goes up to the end of its chunks, one with a length as it stands.
abbrev pub Relays : Bytes → Bytes → Type 0
Relays buf relay =
    (k : ℕ) × (find header_delim buf ≡ some k)
    × (((is_chunked_response buf ≡ some true)
          × (n : ℤ) × (try_consume_chunked_body (drop (k + 4) buf) ≡ framed n)
          × (relay ≡ slice buf (pos 0) (pos (k + 4) +ℤ n)))
        ⊎ ((is_chunked_response buf ≡ some false)
            × (leb_ℤ (pos 0) (get_response_content_length buf) ≡ true)
            × (leb_ℤ (get_response_content_length buf) (pos (length (drop (k + 4) buf))) ≡ true)
            × (relay ≡ buf)))

-- The bytes in `buf` are no complete response: the headers have no end yet, or the chunks, or there is
-- less than the length, or no length.
abbrev pub Waits : Bytes → Type 0
Waits buf =
    (find header_delim buf ≡ none)
    ⊎ ((k : ℕ) × (find header_delim buf ≡ some k)
        × (((is_chunked_response buf ≡ some true)
              × (try_consume_chunked_body (drop (k + 4) buf) ≡ incomplete))
            ⊎ ((is_chunked_response buf ≡ some false)
                × ((leb_ℤ (pos 0) (get_response_content_length buf)
                      && leb_ℤ (get_response_content_length buf) (pos (length (drop (k + 4) buf))))
                    ≡ false))))

-- What was noted of the headers is what the bytes so far say.
abbrev Known : ProxyConnection → Type 0
Known c =
    (k : ℕ) × (find header_delim c.response_buf ≡ some k)
    × (is_chunked_response c.response_buf ≡ some c.response_is_chunked)
    × (c.response_is_chunked ≡ false
        → c.response_content_length ≡ get_response_content_length c.response_buf)

abbrev Noted : ProxyConnection → Type 0
Noted c =
    ((c.response_headers_done ≡ false) × (find header_delim c.response_buf ≡ none))
    ⊎ ((c.response_headers_done ≡ true) × Known c)

-- What was noted before more bytes came, if anything, is what the bytes say.
abbrev Heard : ProxyConnection → Type 0
Heard c = (c.response_headers_done ≡ false) ⊎ ((c.response_headers_done ≡ true) × Known c)

-- What `note_headers` notes of headers that end at `k`.
abbrev noted_at : ℕ → ProxyConnection → ProxyConnection
noted_at k c =
    let chunked = truth (is_chunked_response c.response_buf) in
    record c {
      response_headers_done = true;
      response_is_chunked = chunked;
      response_content_length =
          if chunked then negsuc 0 else get_response_content_length c.response_buf;
      response_body_received = length c.response_buf - (k + 4);
    }

module _ {R : Type 0} where
  -- The response so far is `all`: read, or in part handed over.
  abbrev pub Holds : Bytes → Sys R → Type 0
  Holds all s =
      ((s.conn.state ≡ reading_response)
        × (s.conn.response_buf ≡ all)
        × Noted s.conn
        × Waits s.conn.response_buf)
      ⊎ ((s.conn.state ≡ forwarding_response)
          × (buf : Bytes) × (rest : Bytes) × (buf ++ rest ≡ all)
          × Relays buf s.conn.relay_buf)

  abbrev HoldsIf : Bytes → Option (Sys R) → Type 0
  HoldsIf all none = Unit
  HoldsIf all (some s) = Holds all s

-- The bytes of the backend, in the order of the reads; a read brings at least one.
abbrev pub all_bytes : List (ℕ × Bytes) → Bytes
all_bytes [] = []
all_bytes ((x, xs) ∷ reads) = (x ∷ xs) ++ all_bytes reads

abbrev pub reads_of : List (ℕ × Bytes) → List Event
reads_of [] = []
reads_of ((x, xs) ∷ reads) = backend_readable (received (x ∷ xs)) ∷ reads_of reads
