-- ===== src/Bytes.antt =====
-- What the program uses of Python's `bytes` and `str`. A byte string is the list of its bytes, and
-- a text decoded as latin-1 is the same list of code points.
pub mod Find
pub mod Number
use Prim.Native.Char.{code}
use Prim.Native.String.{String}
use mathlib.Core.List.{reverse}
use mathlib.Core.Option
use native.Mathlib.Decide.{ℕ_discrete}
use l7_load_balancer.Prelude.{
  ℕ, zero, suc, ◌+◌, ◌-◌, min, List, [], ◌∷◌, ◌++◌, Option, none, some, Bool, true, false, ◌&&◌,
  ◌||◌, ltb, leb, ◌==◌, if◌then◌else◌, length, take, drop, ℤ, pos, negsuc,
}

abbrev pub Bytes : Type 0
Bytes = List ℕ

unfoldable pub Bytes-discrete : Discrete Bytes
unfolding ℕ_discrete
Bytes-discrete = hlevel ℕ_discrete

abbrev pub codes : String → Bytes
codes String.[] = []
codes (String.◌∷◌ c s) = code c ∷ codes s

-- `a == b`
unfoldable pub is : Bytes → Bytes → Bool
is [] [] = true
is (x ∷ xs) (y ∷ ys) = x == y && is xs ys
is _ _ = false

unfoldable pub starts_with : Bytes → Bytes → Bool
starts_with [] s = true
starts_with (x ∷ xs) [] = false
starts_with (x ∷ xs) (c ∷ cs) = x == c && starts_with xs cs

-- `s.find(sub)` of a non-empty `sub`; `none` is -1.
unfoldable pub find : Bytes → Bytes → Option ℕ
unfolding starts_with
find sub [] = none
find sub (c ∷ cs) = if starts_with sub (c ∷ cs) then some 0 else Option.map suc (find sub cs)

-- An index of `s[i:]`, for a string of length `n`: a negative one counts from the end, and both
-- ends clip.
unfoldable pub clip : ℕ → ℤ → ℕ
clip n (pos k) = min k n
clip n (negsuc k) = n - suc k

-- `s[a:b]`
unfoldable pub slice : Bytes → ℤ → ℤ → Bytes
unfolding clip
slice s a b = let i = clip (length s) a in let j = clip (length s) b in take (j - i) (drop i s)

-- `s.find(sub, start)`
unfoldable pub find_from : Bytes → Bytes → ℤ → Option ℕ
unfolding find clip
find_from sub s start =
    let i = clip (length s) start in Option.map (λ k. i + k) (find sub (drop i s))

-- The text before the first `c` and the text behind it.
unfoldable pub partition : ℕ → Bytes → Option (Bytes × Bytes)
partition c [] = none
partition c (x ∷ xs) =
    if x == c then some ([], xs) else Option.map (λ p. (x ∷ p.0, p.1)) (partition c xs)

-- `s.rpartition(c)`, where `c` is in `s`: cut at the last one.
unfoldable pub rpartition : ℕ → Bytes → Option (Bytes × Bytes)
rpartition c [] = none
rpartition c (x ∷ xs) = elim (rpartition c xs) [
  | some (before, behind) ↦ some (x ∷ before, behind)
  | none ↦ if x == c then some ([], xs) else none
]

-- `s.split(c, n)` for a single character `c`.
unfoldable pub split_max : ℕ → ℕ → Bytes → List Bytes
unfolding partition
split_max zero c s = s ∷ []
split_max (suc n) c s = elim (partition c s) [
  | none ↦ s ∷ []
  | some (before, behind) ↦ before ∷ split_max n c behind
]

-- `s.split(sep)`: `skip` bytes of a separator are still to be passed over, `piece` is the part
-- read so far.
unfoldable pub split_go : Bytes → ℕ → Bytes → Bytes → List Bytes
unfolding starts_with
split_go sep skip piece [] = piece ∷ []
split_go sep (suc skip) piece (c ∷ cs) = split_go sep skip piece cs
split_go sep zero piece (c ∷ cs) =
    let next = split_go sep (length sep - 1) [] cs in
    let on = split_go sep zero (piece ++ c ∷ []) cs in
    if starts_with sep (c ∷ cs) then piece ∷ next else on

unfoldable pub split : Bytes → Bytes → List Bytes
unfolding split_go
split sep s = split_go sep 0 [] s

-- `str.isspace` below 256, as `strip` and `int` use it.
unfoldable pub is_space : ℕ → Bool
is_space c = leb 9 c && leb c 13 || leb 28 c && leb c 32 || c == 133 || c == 160

unfoldable pub lstrip : Bytes → Bytes
unfolding is_space
lstrip [] = []
lstrip (c ∷ cs) = let rest = lstrip cs in if is_space c then rest else c ∷ cs

unfoldable pub strip : Bytes → Bytes
unfolding lstrip
strip s = reverse (lstrip (reverse (lstrip s)))

abbrev within : ℕ → ℕ → ℕ → Bool
within lo hi c = leb lo c && leb c hi

-- `str.lower` and `str.upper` below 256. Two letters have no upper case in latin-1, and one has
-- an upper case of two letters.
lower_code : ℕ → ℕ
lower_code c =
    if within 65 90 c
    then c + 32
    else if within 192 222 c
    then (if c == 215 then c else c + 32)
    else c

unfoldable pub lower : Bytes → Bytes
unfolding lower_code
lower [] = []
lower (c ∷ cs) = lower_code c ∷ lower cs

upper_code : ℕ → Bytes
upper_code c =
    if within 97 122 c
    then (c - 32) ∷ []
    else if c == 181
    then 924 ∷ []
    else if c == 223
    then 83 ∷ 83 ∷ []
    else if c == 255
    then 376 ∷ []
    else if within 224 254 c
    then (if c == 247 then c ∷ [] else (c - 32) ∷ [])
    else c ∷ []

unfoldable pub upper : Bytes → Bytes
unfolding upper_code
upper [] = []
upper (c ∷ cs) = upper_code c ++ upper cs
