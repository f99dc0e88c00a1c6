-- ===== src/Connection/Events/Retry.antt =====
-- The books through `_fail_backend`: what failed is given back before a retry takes another.
use mathlib.Core.Logic.{ite}
use l7_load_balancer.Prelude.{
  ℕ, zero, suc, ◌+◌, ◌≡◌, ◌∙◌, List, Option, none, some, false, arith, inl, inr, Option-cases,
  Bool-cases,
}
use l7_load_balancer.Backend.{Backend, Backend-discrete}
use l7_load_balancer.Bytes.{codes}
use l7_load_balancer.Router.Routing.{Routing, Accounts}
use l7_load_balancer.Connection.{Socket, Sys, on_conn}
use l7_load_balancer.Connection.Finish.{notify}
use l7_load_balancer.Connection.Connect.{
  drop_socket, note_tried, give_up, fail_with, fail_on, can_retry,
}
use l7_load_balancer.Connection.Events.Ledger
use l7_load_balancer.Connection.Events.Ledger.{holds}
use l7_load_balancer.Connection.Events.Sound

module _ (routing : Routing) (accounts : Accounts routing) (b : Backend) (k : ℕ) where
  open routing use {Router, IsValid}

  abbrev pub Account : Sys Router → Type 0
  Account s = Ledger.Account routing accounts b k s

  abbrev pub Released : Sys Router → Type 0
  Released s = Ledger.Released routing accounts b k s

  abbrev pub Books : Sys Router → Type 0
  Books s = Sound.Sound routing accounts b k s

  drop_socket-Account :
      (sock : Option Socket) (s : Sys Router)
      → Account s
      → Released s
      → Account (drop_socket routing sock s) × Released (drop_socket routing sock s)
  drop_socket-Account none s a free = (a, free)
  drop_socket-Account (some sock) s a free = (a, free)

  note_tried-Account :
      (failed : Option Backend) (s : Sys Router)
      → Account s
      → Released s
      → Account (on_conn (note_tried failed) s) × Released (on_conn (note_tried failed) s)
  note_tried-Account none s a free = (a, free)
  note_tried-Account (some c) s a free = (a, free)

  give_up-Account :
      (s : Sys Router) → Account s → Account (give_up routing s) × Released (give_up routing s)
  unfolding give_up
  give_up-Account s a =
      let (kept, free) = Ledger.notify-Account routing accounts b k s a in
      let (kept', free') = drop_socket-Account s.conn.backend_sock (notify routing s) kept free in
      note_tried-Account s.conn.backend_addr
        (drop_socket routing s.conn.backend_sock (notify routing s)) kept' free'

  -- A connection that holds nothing takes one of what it is served.
  pub picked-Owes :
      (r : Router) (skip : List Backend)
      → IsValid r
      → accounts.load r b ≡ k
      → Ledger.Owes routing accounts b k
          (routing.next_backend r skip).1
          (routing.next_backend r skip).0
          false
  picked-Owes r skip v e = elim (Option-cases (routing.next_backend r skip).0) [
    | inl n ↦ rw n (record {
      valid = routing.valid_next r skip v;
      owed = omega (arith, accounts.load_refused r skip b n, e);
    })
    | inr (c, n) ↦ rw n (record {
      valid = routing.valid_next r skip v;
      owed = accounts.load_served r skip c b v n ∙ charged c (accounts.load r b) e;
    })
  ]
    where
      charged :
          (c : Backend) (n : ℕ)
          → n ≡ k
          → ite (Backend-discrete c b) (suc n) n ≡ k + ite (Backend-discrete c b) 1 0
      charged c n p = ground arith

  pub owed_free : (s : Sys Router) → Account s → Released s → accounts.load s.router b ≡ k
  owed_free s a free = omega (arith, a.owed, free)

  pub fail_with-Sound :
      (fail : Sys Router → Sys Router)
      → ((s : Sys Router) → Books s → Books (fail s))
      → (s : Sys Router) → Account s
      → Books (fail_with routing fail s)
  unfolding fail_with
  fail_with-Sound fail fails s a =
      let (kept, free) = give_up-Account s a in
      elim (Bool-cases (can_retry (give_up routing s).conn)) [
        | inl e ↦ rw e (
            Sound.retry-Sound routing accounts b k fail fails _ (give_up routing s) free (
              picked-Owes (give_up routing s).router (give_up routing s).conn.tried_backends
                kept.valid (owed_free (give_up routing s) kept free)))
        | inr e ↦ rw e (
            Sound.send_error-Sound routing accounts b k 502 (codes "Bad Gateway")
              (give_up routing s) kept)
      ]

  -- Whatever the fuel.
  pub fail_on-Sound : (fuel : ℕ) (s : Sys Router) → Books s → Books (fail_on routing fuel s)
  unfolding fail_on
  fail_on-Sound zero s q = q
  fail_on-Sound (suc fuel) s q =
      fail_with-Sound (fail_on routing fuel) (fail_on-Sound fuel) s q.account
