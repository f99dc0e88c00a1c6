-- ===== src/Bytes/Number/RoundTrip.antt =====
-- `int(str(n))` is `n`.
use mathlib.Core.Option
use mathlib.Core.List.{reverse, reverse-cons, reverse-reverse}
use Prim.Native.Nat.{◌/◌, ◌%◌}
use l7_load_balancer.Prelude.{
  ℕ, zero, suc, ◌+◌, ◌*◌, ◌<◌, ◌≤◌, ◌≡◌, ◌≢◌, refl, sym, ap, ◌∙◌, [], ◌∷◌, ◌++◌, none, some, false,
  arith, inl, inr, Bool-cases, ltb, ltb→lt, ℤ, pos, negsuc,
}
use l7_load_balancer.Prelude.Heap.{All}
use l7_load_balancer.Bytes.{Bytes, is_space, lstrip, strip}
use l7_load_balancer.Bytes.Number.{
  digit_value, digit_only, after_digit, digits, magnitude, negate, signed, int, decimal, str,
  str_int,
}

digit_value_lem : (d : ℕ) → d < 10 → digit_value (48 + d) ≡ d
unfolding digit_value
digit_value_lem d h = ground arith

digits_first :
    (a d : ℕ) (cs : Bytes)
    → d < 10
    → digits 10 a digit_only ((48 + d) ∷ cs) ≡ digits 10 (a * 10 + d) after_digit cs
unfolding digits
digits_first a d cs h = ground (arith, digit_value_lem d h)

digits_next :
    (a d : ℕ) (cs : Bytes)
    → d < 10
    → digits 10 a after_digit ((48 + d) ∷ cs) ≡ digits 10 (a * 10 + d) after_digit cs
unfolding digits
digits_next a d cs h = ground (arith, digit_value_lem d h)

digits-decimal :
    (f n : ℕ) (out : Bytes)
    → n < f
    → digits 10 0 digit_only (decimal f n out) ≡ digits 10 n after_digit out
unfolding decimal
digits-decimal zero n out h = absurd (omega arith)
digits-decimal (suc f) n out h = elim (Bool-cases (ltb n 10)) [
  | inl e ↦
      rw e
        (digits_first 0 n out (ltb→lt n 10 e) ∙ ap (λ m. digits 10 m after_digit out) (omega arith))
  | inr e ↦ rw e (
      digits-decimal f (n / 10) ((48 + n % 10) ∷ out) (ground arith)
      ∙ digits_next (n / 10) (n % 10) out (omega arith)
      ∙ ap (λ m. digits 10 m after_digit out) (omega arith))
]

-- A decimal digit.
abbrev pub IsDigit : ℕ → Type 0
IsDigit c = (48 ≤ c) × (c ≤ 57)

decimal-IsDigit : (f n : ℕ) (out : Bytes) → All IsDigit out → All IsDigit (decimal f n out)
unfolding decimal
decimal-IsDigit zero n out a = a
decimal-IsDigit (suc f) n out a = elim (Bool-cases (ltb n 10)) [
  | inl e ↦ rw e ((omega arith, omega (arith, ltb→lt n 10 e)), a)
  | inr e ↦ rw e (decimal-IsDigit f (n / 10) _ ((omega arith, omega arith), a))
]

pub str-IsDigit : (n : ℕ) → All IsDigit (str n)
unfolding str
str-IsDigit n = decimal-IsDigit (suc n) n [] tt

magnitude-digits : (s : Bytes) → magnitude 10 s ≡ digits 10 0 digit_only s
unfolding magnitude
magnitude-digits [] = refl
magnitude-digits (c ∷ []) = refl
magnitude-digits (c ∷ d ∷ s) = refl

magnitude-str : (n : ℕ) → magnitude 10 (str n) ≡ some n
unfolding str digits
magnitude-str n = magnitude-digits (str n) ∙ digits-decimal (suc n) n [] (omega arith)

-- The digits of a number have no sign in front.
signed-digits : (s : Bytes) → All IsDigit s → s ≢ [] → signed 10 s ≡ Option.map pos (magnitude 10 s)
unfolding signed
signed-digits [] a n = absurd (n refl)
signed-digits (c ∷ cs) a n = ground arith

str-nonempty : (n : ℕ) → str n ≢ []
str-nonempty n e =
    let nothing : magnitude 10 [] ≡ none = unfold magnitude digits in refl in
    cc (sym (magnitude-str n) ∙ ap (magnitude 10) e ∙ nothing)

pub signed-str_int : (z : ℤ) → signed 10 (str_int z) ≡ some z
unfolding str_int signed
signed-str_int (pos n) =
    signed-digits (str n) (str-IsDigit n) (str-nonempty n) ∙ ap (Option.map pos) (magnitude-str n)
signed-str_int (negsuc n) = ap (Option.map negate) (magnitude-str (suc n)) ∙ unfold negate in refl

-- No space is in the text.
abbrev pub NoSpace : Bytes → Type 0
NoSpace s = All (λ c. is_space c ≡ false) s

NoSpace-lstrip : (s : Bytes) → NoSpace s → lstrip s ≡ s
unfolding lstrip
NoSpace-lstrip [] a = refl
NoSpace-lstrip (c ∷ cs) a = rw a.0

pub All-append : (P : ℕ → Type 0) (s t : Bytes) → All P s → All P t → All P (s ++ t)
All-append P [] t a b = b
All-append P (c ∷ s) t a b = (a.0, All-append P s t a.1 b)

All-reverse : (P : ℕ → Type 0) (s : Bytes) → All P s → All P (reverse s)
All-reverse P [] a = a
All-reverse P (c ∷ s) a =
    rw (reverse-cons c s) (All-append P (reverse s) (c ∷ []) (All-reverse P s a.1) (a.0, tt))

pub NoSpace-strip : (s : Bytes) → NoSpace s → strip s ≡ s
unfolding strip
NoSpace-strip s a =
    rw (NoSpace-lstrip s a, NoSpace-lstrip (reverse s) (All-reverse (λ c. is_space c ≡ false) s a))
      (reverse-reverse s)

-- A property of digits holds all over the text of a number if the minus sign has it too.
pub str_int-All :
    (P : ℕ → Type 0) → ((c : ℕ) → IsDigit c → P c) → P b'-' → (z : ℤ) → All P (str_int z)
unfolding str_int
str_int-All P f m (pos n) = all (str n) (str-IsDigit n)
  where
    all : (s : Bytes) → All IsDigit s → All P s
    all [] a = tt
    all (c ∷ s) a = (f c a.0, all s a.1)
str_int-All P f m (negsuc n) = (m, all (str (suc n)) (str-IsDigit (suc n)))
  where
    all : (s : Bytes) → All IsDigit s → All P s
    all [] a = tt
    all (c ∷ s) a = (f c a.0, all s a.1)

pub str_int-NoSpace : (z : ℤ) → NoSpace (str_int z)
unfolding is_space
str_int-NoSpace z = str_int-All (λ c. is_space c ≡ false) (λ c d. ground arith) refl z

pub int-str_int : (z : ℤ) → int 10 (str_int z) ≡ some z
unfolding int
int-str_int z = rw (NoSpace-strip (str_int z) (str_int-NoSpace z)) (signed-str_int z)
