-- ===== src/Connection/Life/Attempts.antt =====
-- How often a connection connects, and to which backends.
use l7_load_balancer.Prelude.{
  ◌+◌, ◌≤◌, ◌≡◌, ◌≢◌, refl, sym, ap, ◌∙◌, List, [], ◌∷◌, ◌++◌, Option, none, some, Bool, true,
  false, arith, length, length-append, ◌||◌,
}
use mathlib.Core.Logic.{ite}
use l7_load_balancer.Prelude.Dict.{contains, Distinct, contains-append, concat-Distinct}
use l7_load_balancer.Backend.{Backend, Backend-discrete}
use l7_load_balancer.Config.{max_backend_retries}
use l7_load_balancer.Connection.{State, reading_request, connecting_to_backend, done}
use l7_load_balancer.Connection.Connect.{add_tried}
use l7_load_balancer.Connection.Life.{Core, dropped, with_tried, HasBackend, Change, Changes}

abbrev among : Backend → List Backend → Bool
among = contains Backend-discrete

-- Every backend that was asked is one that would be excluded if the present one failed.
pub record IsCounted (c : Core) : Type 0 where
  pub distinct : Distinct Backend-discrete c.opened
  pub noted : (x : Backend) → among x c.opened ≡ true → among x (dropped c).tried ≡ true
  pub counted : length c.opened ≡ c.attempts
  pub bounded : c.attempts ≤ 1 + max_backend_retries
  pub fresh : c.state ≡ reading_request → c.opened ≡ []
  pub single : c.may_retry ≡ false → c.attempts ≤ 1

among-add_tried :
    (x b : Backend) (tried : List Backend)
    → among x (add_tried b tried) ≡ (among x tried || ite (Backend-discrete b x) true false)
unfolding add_tried contains
among-add_tried x b tried = ground (arith, contains-append Backend-discrete x tried (b ∷ []))

among-with_tried :
    (x : Backend) (a : Option Backend) (tried : List Backend)
    → among x tried ≡ true
    → among x (with_tried a tried) ≡ true
among-with_tried x none tried h = h
among-with_tried x (some b) tried h = ground (arith, among-add_tried x b tried)

HasBackend-begun : (s : State) → HasBackend s → s ≢ reading_request
HasBackend-begun s h = grind arith

connecting-noted :
    (b : Backend) (tried opened : List Backend)
    → ((x : Backend) → among x opened ≡ true → among x tried ≡ true)
    → (x : Backend) → among x (opened ++ b ∷ []) ≡ true
    → among x (add_tried b tried) ≡ true
unfolding contains
connecting-noted b tried opened h x e =
    ground
      (arith, h x, among-add_tried x b tried, contains-append Backend-discrete x opened (b ∷ []))

-- A connection never goes back to its request.
moved-IsCounted :
    (c : Core) (st : State)
    → st ≢ reading_request
    → IsCounted c
    → IsCounted (record c { state = st })
moved-IsCounted c st away v = record {
  distinct = v.distinct;
  noted = v.noted;
  counted = v.counted;
  bounded = v.bounded;
  fresh = λ e. absurd (away e);
  single = v.single;
}

true_not : true ≢ false
true_not = grind arith

not_asked :
    (c : Core) (x : Backend) → IsCounted c → c.state ≡ reading_request → among x c.opened ≢ true
unfolding contains
not_asked c x v h m = true_not (sym m ∙ ap (among x) (v.fresh h))

begun_not : connecting_to_backend ≢ reading_request
begun_not = λ e. HasBackend-begun connecting_to_backend tt e

done_not : done ≢ reading_request
done_not = grind arith

step-IsCounted : (c d : Core) → Change c d → IsCounted c → IsCounted d
step-IsCounted c _ (Change.asked _ b again h) v = record {
  distinct = rw (v.fresh h) (unfold contains in (refl, tt));
  noted = connecting-noted b c.tried c.opened (λ x m. absurd (not_asked c x v h m));
  counted = omega (arith, ap length (v.fresh h), length-append c.opened (b ∷ []));
  bounded = omega arith;
  fresh = λ e. absurd (begun_not e);
  single = λ e. omega arith;
}
step-IsCounted c _ (Change.retried _ b h again n free) v = record {
  distinct = concat-Distinct Backend-discrete b c.opened v.distinct (ground (arith, v.noted b));
  noted = connecting-noted b (dropped c).tried c.opened v.noted;
  counted = omega (arith, v.counted, length-append c.opened (b ∷ []));
  bounded = omega (arith, n);
  fresh = λ e. absurd (begun_not e);
  single = λ e. absurd (true_not (sym again ∙ e));
}
step-IsCounted c _ (Change.failed _ h) v = record {
  distinct = v.distinct;
  noted = λ x e. among-with_tried x c.backend_addr (dropped c).tried (v.noted x e);
  counted = v.counted;
  bounded = v.bounded;
  fresh = λ e. absurd (done_not e);
  single = v.single;
}
step-IsCounted c _ (Change.connected _ h) v = moved-IsCounted c _ (grind arith) v
step-IsCounted c _ (Change.forwarded _ h) v = moved-IsCounted c _ (grind arith) v
step-IsCounted c _ (Change.answered _ h) v = moved-IsCounted c _ (grind arith) v
step-IsCounted c _ (Change.unserved _ again h) v = record {
  distinct = v.distinct;
  noted = v.noted;
  counted = v.counted;
  bounded = v.bounded;
  fresh = λ e. absurd (done_not e);
  single = λ e. omega (arith, v.counted, ap length (v.fresh h));
}
step-IsCounted c _ (Change.ended _) v = moved-IsCounted c _ (grind arith) v

pub Changes-IsCounted : (c d : Core) → Changes c d → IsCounted c → IsCounted d
Changes-IsCounted c _ (Changes.same _) v = v
Changes-IsCounted c _ (Changes.more _ d e x xs) v =
    Changes-IsCounted d e xs (step-IsCounted c d x v)
