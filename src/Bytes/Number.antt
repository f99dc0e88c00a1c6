-- ===== src/Bytes/Number.antt =====
-- Python's `int(s)` and `int(s, 16)` on texts below 256, and `str(n)` of an integer.
pub mod RoundTrip
use mathlib.Core.Option
use mathlib.Core.List.{Mem, mem-cons_self}
use native.Mathlib.Omega.{arith}
use mathlib.Core.Logic.{◌≢◌}
use l7_load_balancer.Prelude.{◌≡◌, subst, Bool-cases, inl, inr}
use Prim.Native.Nat.{◌/◌, ◌%◌}
use l7_load_balancer.Prelude.{
  ℕ, zero, suc, ◌+◌, ◌-◌, ◌*◌, [], ◌∷◌, Option, none, some, ◌&&◌, ◌||◌, ltb, leb, ◌==◌,
  if◌then◌else◌, ℤ, pos, negsuc,
}
use l7_load_balancer.Bytes.{Bytes, strip}

-- The value of a digit, or a number that is no digit of any base in use.
unfoldable pub digit_value : ℕ → ℕ
digit_value c =
    if leb 48 c && leb c 57
    then c - 48
    else if leb 97 c && leb c 102
    then c - 87
    else if leb 65 c && leb c 70
    then c - 55
    else 99

-- What may follow: a digit only, a digit or an underscore, or also the end.
pub data Place : Type 0 where
  digit_only after_prefix after_digit : Place

unfoldable pub digits : ℕ → ℕ → Place → Bytes → Option ℕ
unfolding digit_value
digits base acc after_digit [] = some acc
digits base acc digit_only [] = none
digits base acc after_prefix [] = none
digits base acc digit_only (c ∷ cs) =
    let rest = digits base (acc * base + digit_value c) after_digit cs in
    if ltb (digit_value c) base then rest else none
digits base acc _ (c ∷ cs) =
    let under = digits base acc digit_only cs in
    let rest = digits base (acc * base + digit_value c) after_digit cs in
    if c == b'_' then under else if ltb (digit_value c) base then rest else none

-- The `0x` that base 16 allows.
unfoldable pub magnitude : ℕ → Bytes → Option ℕ
unfolding digits
magnitude base (z ∷ x ∷ cs) =
    if base == 16 && z == b'0' && (x == b'x' || x == b'X')
    then digits base 0 after_prefix cs
    else digits base 0 digit_only (z ∷ x ∷ cs)
magnitude base cs = digits base 0 digit_only cs

unfoldable pub negate : ℕ → ℤ
negate zero = pos 0
negate (suc n) = negsuc n

unfoldable pub signed : ℕ → Bytes → Option ℤ
unfolding magnitude negate
signed base [] = none
signed base (c ∷ cs) =
    if c == b'-'
    then Option.map negate (magnitude base cs)
    else if c == b'+'
    then Option.map pos (magnitude base cs)
    else Option.map pos (magnitude base (c ∷ cs))

-- `int(s, base)`, for base 10 and 16; `none` is a ValueError.
unfoldable pub int : ℕ → Bytes → Option ℤ
unfolding strip signed
int base s = signed base (strip s)

map_pos-nonneg : (o : Option ℕ) (k : ℕ) → Option.map pos o ≢ some (negsuc k)
map_pos-nonneg none k h = cc
map_pos-nonneg (some n) k h = cc

signed-minus : (base : ℕ) (s : Bytes) (k : ℕ) → signed base s ≡ some (negsuc k) → Mem b'-' s
unfolding signed
signed-minus base [] k h = cc
signed-minus base (c ∷ cs) k h = elim (Bool-cases (c == b'-')) [
  | inl e ↦ let same : c ≡ b'-' = ground arith in subst (λ y. Mem y (c ∷ cs)) same mem-cons_self
  | inr e ↦ elim (Bool-cases (c == b'+')) [
    | inl f ↦ absurd (map_pos-nonneg (magnitude base cs) k (rw (e, f) at h))
    | inr f ↦ absurd (map_pos-nonneg (magnitude base (c ∷ cs)) k (rw (e, f) at h))
  ]
]

-- A text that is read as a negative number has a minus sign, once it is stripped.
pub int-minus : (base : ℕ) (s : Bytes) (k : ℕ) → int base s ≡ some (negsuc k) → Mem b'-' (strip s)
unfolding int
int-minus base s k h = signed-minus base (strip s) k h

-- `str(n)`, on fuel: a number has fewer digits than its value has units, and one more.
unfoldable pub decimal : ℕ → ℕ → Bytes → Bytes
decimal zero n out = out
decimal (suc f) n out =
    let rest = decimal f (n / 10) ((48 + n % 10) ∷ out) in if ltb n 10 then (48 + n) ∷ out else rest

unfoldable pub str : ℕ → Bytes
unfolding decimal
str n = decimal (suc n) n []

unfoldable pub str_int : ℤ → Bytes
unfolding str
str_int (pos n) = str n
str_int (negsuc n) = b'-' ∷ str (suc n)
