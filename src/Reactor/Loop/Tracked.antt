-- ===== src/Reactor/Loop/Tracked.antt =====
-- Every round of the loop keeps each live connection's deadline in the heap.
use native.Mathlib.Decide.{ℕ_discrete}
use mathlib.Core.Logic.{if_pos, if_neg}
use mathlib.Core.Option
use l7_load_balancer.Prelude.{
  ℕ, ◌≡◌, ◌≢◌, refl, sym, ap, ◌∙◌, List, [], ◌∷◌, Option, none, some, arith, inl, inr, ◌⊎◌,
  and_then,
}
use l7_load_balancer.Prelude.Dict.{insert, lookup-insert}
use l7_load_balancer.Bytes.{Bytes}
use l7_load_balancer.Router.Routing.{Routing}
use l7_load_balancer.Connection.{ProxyConnection, Sys}
use l7_load_balancer.Connection.Deadline.{init}
use l7_load_balancer.Reactor.{Ref, Sock, Reactor, object, view, put}
use l7_load_balancer.Reactor.Deadlines.{schedule_deadline}
use l7_load_balancer.Reactor.Deadlines.Tracking.{Listed, IsTracked, schedule_deadline-IsTracked}
use l7_load_balancer.Reactor.Dispatch.{Local, Mask, Answers, dispatch}
use l7_load_balancer.Reactor.Loop.{
  Ready, write_back, accepts, ready, signalled, stop, accept_one, accept_all, dispatch_object,
  serve, serve_all,
}

Listed-insert_self : (k : ℕ) (v : Ref) (cs : List (ℕ × Ref)) → Listed v (insert ℕ_discrete k v cs)
unfolding insert
Listed-insert_self k v [] = inl refl
Listed-insert_self k v ((j, w) ∷ cs) = ground (arith, Listed-insert_self k v cs)

Listed-insert :
    (k : ℕ) (v a : Ref) (cs : List (ℕ × Ref))
    → Listed a (insert ℕ_discrete k v cs)
    → (a ≡ v) ⊎ Listed a cs
unfolding insert
Listed-insert k v a [] m = ground arith
Listed-insert k v a ((j, w) ∷ cs) m = elim (ℕ_discrete j k) [
  | yes e ↦ at_key (rw (if_pos (ℕ_discrete j k) e) at m)
  | no n ↦ behind (Listed-insert k v a cs) (rw (if_neg (ℕ_discrete j k) n) at m)
]
  where
    at_key : Listed a ((j, v) ∷ cs) → (a ≡ v) ⊎ Listed a ((j, w) ∷ cs)
    at_key (inl q) = inl (sym q)
    at_key (inr q) = inr (inr q)

    behind :
        (Listed a (insert ℕ_discrete k v cs) → (a ≡ v) ⊎ Listed a cs)
        → Listed a ((j, w) ∷ insert ℕ_discrete k v cs)
        → (a ≡ v) ⊎ Listed a ((j, w) ∷ cs)
    behind step (inl q) = inr (inl q)
    behind step (inr q) = elim (step q) [ inl r ↦ inl r | inr r ↦ inr (inr r) ]

pub object-put_self :
    {R : Type 0} (ref : Ref) (s : Sys R) (st : Reactor R) → object (put ref s st) ref ≡ some s.conn
object-put_self ref s st =
    rw (lookup-insert ℕ_discrete ref ref s.conn st.objects, if_pos (ℕ_discrete ref ref) refl)

pub object-put_ne :
    {R : Type 0} (ref a : Ref) (s : Sys R) (st : Reactor R)
    → ref ≢ a
    → object (put ref s st) a ≡ object st a
object-put_ne ref a s st n =
    rw (lookup-insert ℕ_discrete ref a s.conn st.objects, if_neg (ℕ_discrete ref a) n)

module _ (routing : Routing) (id_of : Ref → ℕ) where
  open routing use {Router}

  -- `id` of a new object is that of no object that is alive.
  abbrev pub IsFreshId : Reactor Router → Type 0
  IsFreshId st = (a : Ref) → Listed a st.connections → id_of a ≢ id_of st.made

  accept_one-IsTracked :
      (sock port : ℕ) (host : Bytes) (st : Reactor Router)
      → IsFreshId st
      → IsTracked id_of st
      → IsTracked id_of (accept_one routing id_of (sock, host, port) st)
  unfolding accept_one
  accept_one-IsTracked sock port host st fresh v =
      let s = init sock (host, port) st.router st.world in
      schedule_deadline-IsTracked id_of st.made s.conn _ (object-put_self st.made s st)
        (Listed-insert_self sock st.made st.connections) v.sorted
        (λ a m n. rw (object-put_ne st.made a s st (λ e. n (sym e))) (v.watched a (old a m n)))
        (λ a m. elim (Listed-insert sock st.made a st.connections m) [
          | inl e ↦ omega arith
          | inr l ↦ omega (arith, v.older a l)
        ])
        (λ a b m n e.
          both a b (Listed-insert sock st.made a st.connections m)
            (Listed-insert sock st.made b st.connections n) e)
    where
      old :
          (a : Ref)
          → Listed a (insert ℕ_discrete sock st.made st.connections)
          → a ≢ st.made
          → Listed a st.connections
      old a m n = elim (Listed-insert sock st.made a st.connections m) [
        | inl e ↦ absurd (n e)
        | inr l ↦ l
      ]

      both :
          (a b : Ref)
          → (a ≡ st.made) ⊎ Listed a st.connections
          → (b ≡ st.made) ⊎ Listed b st.connections
          → id_of a ≡ id_of b
          → a ≡ b
      both a b (inl e) (inl f) g = e ∙ sym f
      both a b (inl e) (inr l) g = absurd (fresh b l (sym g ∙ ap id_of e))
      both a b (inr l) (inl f) g = absurd (fresh a l (g ∙ ap id_of f))
      both a b (inr l) (inr k) g = v.apart a b l k g

  -- Each client that `accept` gives meets a table in which its `id` is fresh.
  abbrev pub AllFresh : List (ℕ × Bytes × ℕ) → Reactor Router → Type 0
  AllFresh [] st = Unit
  AllFresh (c ∷ cs) st = IsFreshId st × AllFresh cs (accept_one routing id_of c st)

  accept_all-IsTracked :
      (cs : List (ℕ × Bytes × ℕ)) (st : Reactor Router)
      → AllFresh cs st
      → IsTracked id_of st
      → IsTracked id_of (accept_all routing id_of cs st)
  unfolding accept_all
  accept_all-IsTracked [] st f v = v
  accept_all-IsTracked ((sock, host, port) ∷ cs) st f v =
      accept_all-IsTracked cs _ f.1 (accept_one-IsTracked sock port host st f.0 v)

  -- A connection on which the reactor worked is scheduled again, whatever it did.
  write_back-IsTracked :
      (ref : Ref) (l : Local Router) (st : Reactor Router)
      → Listed ref st.connections
      → IsTracked id_of st
      → IsTracked id_of (schedule_deadline id_of ref (write_back ref st l))
  write_back-IsTracked ref l st m v =
      schedule_deadline-IsTracked id_of ref l.sys.conn _ (object-put_self ref l.sys st) m v.sorted
        (λ a k n. rw (object-put_ne ref a l.sys st (λ e. n (sym e))) (v.watched a k)) v.older
        v.apart

  abbrev pub AfterSome : Option (Reactor Router) → Type 0
  AfterSome none = Unit
  AfterSome (some st) = IsTracked id_of st

  -- What the operating system and the interpreter are relied on for: the `id` of a new object is
  -- free, and events are about connections in the table.
  abbrev pub MayServe : Ready → Reactor Router → Type 0
  MayServe (accepts cs) st = AllFresh cs st
  MayServe (ready ref sock mask a) st = Listed ref st.connections
  MayServe signalled st = Unit

  dispatch_object-IsTracked :
      (ref : Ref) (sock : Sock) (mask : Mask) (a : Answers) (o : Option ProxyConnection)
      (st : Reactor Router)
      → Listed ref st.connections
      → IsTracked id_of st
      → AfterSome (dispatch_object routing id_of ref sock mask a o st)
  unfolding dispatch_object
  dispatch_object-IsTracked ref sock mask a none st m v = v
  dispatch_object-IsTracked ref sock mask a (some c) st m v =
      worked (dispatch routing ref sock mask a (record { sys = view st c; sel = st.sel }))
    where
      worked :
          (r : Option (Local Router))
          → AfterSome (Option.map (λ l. schedule_deadline id_of ref (write_back ref st l)) r)
      worked none = tt
      worked (some l) = write_back-IsTracked ref l st m v

  serve-IsTracked :
      (e : Ready) (st : Reactor Router)
      → MayServe e st
      → IsTracked id_of st
      → AfterSome (serve routing id_of e st)
  unfolding serve stop
  serve-IsTracked (accepts cs) st ok v = accept_all-IsTracked cs st ok v
  serve-IsTracked (ready ref sock mask a) st ok v =
      dispatch_object-IsTracked ref sock mask a (object st ref) st ok v
  serve-IsTracked signalled st ok v = record {
    sorted = v.sorted;
    watched = v.watched;
    older = v.older;
    apart = v.apart;
  }

  abbrev pub MayServeAll : List Ready → Reactor Router → Type 0
  MayServeAll [] st = Unit
  MayServeAll (e ∷ es) st =
      MayServe e st
      × ((st' : Reactor Router) → serve routing id_of e st ≡ some st' → MayServeAll es st')

  pub serve_all-IsTracked :
      (es : List Ready) (st : Reactor Router)
      → MayServeAll es st
      → IsTracked id_of st
      → AfterSome (serve_all routing id_of es st)
  unfolding serve_all
  serve_all-IsTracked [] st ok v = v
  serve_all-IsTracked (e ∷ es) st ok v =
      next (serve routing id_of e st) refl (serve-IsTracked e st ok.0 v)
        (λ st' q. serve_all-IsTracked es st' (ok.1 st' q))
    where
      next :
          (r : Option (Reactor Router))
          → serve routing id_of e st ≡ r
          → AfterSome r
          → ((st' : Reactor Router)
              → serve routing id_of e st ≡ some st'
              → IsTracked id_of st'
              → AfterSome (serve_all routing id_of es st'))
          → AfterSome (and_then r (serve_all routing id_of es))
      next none q w step = tt
      next (some st') q w step = step st' q w
