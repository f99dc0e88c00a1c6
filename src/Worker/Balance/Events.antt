-- ===== src/Worker/Balance/Events.antt =====
-- The books of a worker through the events of a round.
use native.Mathlib.Decide.{ℕ_discrete}
use mathlib.Core.Option
use mathlib.Core.Logic.{if_neg}
use l7_load_balancer.Prelude.{
  ℕ, ◌≡◌, refl, sym, ap, ◌∙◌, subst, List, [], ◌∷◌, Option, none, some, arith, if_split,
}
use l7_load_balancer.Prelude.Dict.{lookup-insert}
use l7_load_balancer.Backend.{Backend}
use l7_load_balancer.Bytes.{Bytes}
use l7_load_balancer.Router.Routing.{Routing, Accounts}
use l7_load_balancer.Connection.{reading_request, ProxyConnection, World, Sys}
use l7_load_balancer.Connection.Deadline.{
  init, is_done, refresh_deadline, refresh_by, timeout_for_state,
}
use l7_load_balancer.Reactor.{Ref, Sock, Reactor, object, view, put}
use l7_load_balancer.Reactor.Deadlines.{schedule_object, schedule_deadline}
use l7_load_balancer.Reactor.Dispatch.{Local, Mask, Answers, dispatch}
use l7_load_balancer.Reactor.Loop.{
  Ready, write_back, accepts, ready, signalled, accept_one, accept_all, dispatch_object, serve,
  stop,
}
use l7_load_balancer.Worker.Total.{total-insert_new, insert-Each, held}
use l7_load_balancer.Worker.Dispatches
use l7_load_balancer.Worker.Balance.{
  IsBalanced, Fresh, others, view-Books, put-IsBalanced, regard, AfterSome,
}

-- A new connection.
init-blank :
    {R : Type 0} (b : Backend) (sock : ℕ) (addr : Bytes × ℕ) (r : R) (w : World)
    → let s = init sock addr r w in
      (s.router ≡ r)
      × (s.conn.state ≡ reading_request)
      × (s.conn.backend_addr ≡ none)
      × (held b s.conn ≡ 0)
unfolding init refresh_deadline refresh_by timeout_for_state
init-blank b sock addr r w = (refl, refl, refl, refl)

module _ (routing : Routing) (accounts : Accounts routing) (b : Backend) (k : ℕ) where
  open routing use {Router, IsValid}

  schedule-IsBalanced :
      (id_of : Ref → ℕ) (ref : Ref) (st : Reactor Router)
      → IsBalanced routing accounts b k st
      → IsBalanced routing accounts b k (schedule_deadline id_of ref st)
  unfolding schedule_deadline
  schedule-IsBalanced id_of ref st v = scheduled (object st ref)
    where
      scheduled :
          (o : Option ProxyConnection)
          → IsBalanced routing accounts b k (schedule_object id_of ref o st)
      scheduled none = unfold schedule_object in v
      scheduled (some c) =
          unfold schedule_object in
          if_split {A = Reactor Router} (IsBalanced routing accounts b k) (is_done c.state) _ _
            (λ _. v) (λ _. regard routing accounts b k st _ refl refl refl v)

  ready-IsBalanced :
      (id_of : Ref → ℕ) (ref : Ref) (sock : Sock) (mask : Mask) (a : Answers)
      (o : Option ProxyConnection) (st : Reactor Router)
      → object st ref ≡ o
      → IsBalanced routing accounts b k st
      → AfterSome routing accounts b k (dispatch_object routing id_of ref sock mask a o st)
  unfolding dispatch_object
  ready-IsBalanced id_of ref sock mask a none st o v = v
  ready-IsBalanced id_of ref sock mask a (some c) st o v =
      let l : Local Router = record { sys = view st c; sel = st.sel } in
      worked (dispatch routing ref sock mask a l) (
        Dispatches.dispatch-Books routing accounts b (others routing accounts b k c st) ref sock
          mask a l (view-Books routing accounts b k ref c st o v))
    where
      worked :
          (r : Option (Local Router))
          → Dispatches.OnSome routing accounts b (others routing accounts b k c st) r
          → AfterSome routing accounts b k
              (Option.map (λ l. schedule_deadline id_of ref (write_back ref st l)) r)
      worked none q = tt
      worked (some l) q = schedule-IsBalanced id_of ref (write_back ref st l) (
          regard routing accounts b k (put ref l.sys st) _ refl refl refl
            (put-IsBalanced routing accounts b k ref c l.sys st o v q))

  accept_one-IsBalanced :
      (id_of : Ref → ℕ) (sock : ℕ) (host : Bytes) (port : ℕ) (st : Reactor Router)
      → IsBalanced routing accounts b k st
      → IsBalanced routing accounts b k (accept_one routing id_of (sock, host, port) st)
  unfolding accept_one
  accept_one-IsBalanced id_of sock host port st v =
      let s : Sys Router = init sock (host, port) st.router st.world in
      let (same, new, nobody, nothing) = init-blank b sock (host, port) st.router st.world in
      schedule-IsBalanced id_of st.made _ (record {
        valid = subst IsValid (sym same) v.valid;
        owed =
            ap (λ r. accounts.load r b) same
            ∙ v.owed
            ∙ omega (
              arith,
              nothing,
              total-insert_new (held b) st.made s.conn st.objects (v.young st.made (omega arith)),
            );
        fresh =
            insert-Each (Fresh routing accounts b k) st.made s.conn st.objects (λ _. nobody)
              v.fresh;
        young = λ j le.
            lookup-insert ℕ_discrete st.made j s.conn st.objects
            ∙ if_neg (ℕ_discrete st.made j) (omega (arith, le)) _ _
            ∙ v.young j (omega (arith, le));
      })

  accept_all-IsBalanced :
      (id_of : Ref → ℕ) (cs : List (ℕ × Bytes × ℕ)) (st : Reactor Router)
      → IsBalanced routing accounts b k st
      → IsBalanced routing accounts b k (accept_all routing id_of cs st)
  unfolding accept_all
  accept_all-IsBalanced id_of [] st v = v
  accept_all-IsBalanced id_of ((sock, host, port) ∷ cs) st v =
      accept_all-IsBalanced id_of cs _ (accept_one-IsBalanced id_of sock host port st v)

  pub serve-IsBalanced :
      (id_of : Ref → ℕ) (e : Ready) (st : Reactor Router)
      → IsBalanced routing accounts b k st
      → AfterSome routing accounts b k (serve routing id_of e st)
  unfolding serve stop
  serve-IsBalanced id_of (accepts cs) st v = accept_all-IsBalanced id_of cs st v
  serve-IsBalanced id_of (ready ref sock mask a) st v =
      ready-IsBalanced id_of ref sock mask a (object st ref) st refl v
  serve-IsBalanced id_of signalled st v = regard routing accounts b k st _ refl refl refl v
