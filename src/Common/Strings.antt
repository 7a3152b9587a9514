-- ===== src/Common/Strings.antt =====
-- Go strings as sequences of bytes, and what the program uses of the packages `strings` and
-- `strconv`.
use Prim.Native.Char.{code}
use Prim.Native.Nat.{ℕ, ◌+◌, ◌-◌, ◌*◌, ◌^◌}
use Prim.Native.String.{String}
use mathlib.Core.Path.{◌≡◌, refl}
use mathlib.Core.Logic.{◌↔◌}
use mathlib.Core.Bool.{Bool, true, false, ◌&&◌, ◌||◌}
use mathlib.Core.List.{List, [], ◌∷◌}
use mathlib.Core.Option.{Option, none, some}
use native.Mathlib.Omega.{arith}
use pre_scaling_operator.Common.Int.{ℤ, pos, neg}
use pre_scaling_operator.Common.Tests.{nat_eq, ltb, leb, if◌then◌else◌}

-- The bytes of a string.
abbrev pub Text : Type 0
Text = List ℕ

-- The bytes of an ASCII literal.
abbrev pub bytes : String → Text
bytes String.[] = []
bytes (String.◌∷◌ c s) = code c ∷ bytes s

-- s == t
infix 50 ◌==◌
unfoldable pub ◌==◌ : Text → Text → Bool
[] == [] = true
[] == (b ∷ t) = false
(a ∷ s) == [] = false
(a ∷ s) == (b ∷ t) = nat_eq a b && s == t

eq_of_== : (s t : Text) → s == t ≡ true → s ≡ t
unfolding ◌==◌
eq_of_== [] [] h = refl
eq_of_== [] (b ∷ t) h = ground arith
eq_of_== (a ∷ s) [] h = ground arith
eq_of_== (a ∷ s) (b ∷ t) h = ground (arith, eq_of_== s t)

pub ==_refl : (s : Text) → s == s ≡ true
unfolding ◌==◌
==_refl [] = refl
==_refl (a ∷ s) = ground (arith, ==_refl s)

==_of_eq : (s t : Text) → s ≡ t → s == t ≡ true
==_of_eq s t h = rw h (==_refl t)

-- The test decides the equality of texts.
pub ==_iff : (s t : Text) → (s == t ≡ true) ↔ (s ≡ t)
==_iff s t = (eq_of_== s t, ==_of_eq s t)

-- strings.HasPrefix(s, prefix)
unfoldable pub has_prefix : Text → Text → Bool
has_prefix s [] = true
has_prefix [] (p ∷ prefix) = false
has_prefix (c ∷ s) (p ∷ prefix) = nat_eq c p && has_prefix s prefix

-- What strconv.ParseBool accepts.
abbrev truths : List Text
truths = bytes "1" ∷ bytes "t" ∷ bytes "T" ∷ bytes "true" ∷ bytes "TRUE" ∷ bytes "True" ∷ []

abbrev falsehoods : List Text
falsehoods = bytes "0" ∷ bytes "f" ∷ bytes "F" ∷ bytes "false" ∷ bytes "FALSE" ∷ bytes "False" ∷ []

among : Text → List Text → Bool
among s [] = false
among s (t ∷ ts) = s == t || among s ts

-- strconv.ParseBool(s); `none` is its error, with which it returns false.
unfoldable pub parse_bool : Text → Option Bool
unfolding among ◌==◌
parse_bool s = if among s truths then some true else if among s falsehoods then some false else none

-- The value that `b, _ := strconv.ParseBool(s)` leaves in b.
abbrev pub bool_or_false : Option Bool → Bool
bool_or_false none = false
bool_or_false (some b) = b

is_digit : ℕ → Bool
is_digit c = leb b'0' c && leb c b'9'

unfoldable pub digits_from : ℕ → Text → Option ℕ
unfolding is_digit
digits_from acc [] = some acc
digits_from acc (c ∷ s) =
    let rest = digits_from (acc * 10 + (c - b'0')) s in if is_digit c then rest else none

digits : Text → Option ℕ
unfolding digits_from
digits [] = none
digits (c ∷ s) = digits_from 0 (c ∷ s)

-- The range check of strconv.Atoi on a machine whose int has 64 bits.
int64_pos : Option ℕ → Option ℤ
int64_pos none = none
int64_pos (some n) = if ltb n (2 ^ 63) then some (pos n) else none

int64_neg : Option ℕ → Option ℤ
unfolding neg
int64_neg none = none
int64_neg (some n) = if leb n (2 ^ 63) then some (neg (pos n)) else none

-- strconv.Atoi(s); `none` is its error.
unfoldable pub atoi : Text → Option ℤ
unfolding digits int64_pos int64_neg
atoi [] = none
atoi (c ∷ s) =
    if nat_eq c b'+'
    then int64_pos (digits s)
    else if nat_eq c b'-'
    then int64_neg (digits s)
    else int64_pos (digits (c ∷ s))

-- strings.Contains(s, sub)
unfoldable pub contains : Text → Text → Bool
unfolding has_prefix
contains [] sub = has_prefix [] sub
contains (c ∷ s) sub = has_prefix (c ∷ s) sub || contains s sub

contains_self : (s : Text) → has_prefix s s ≡ true
unfolding has_prefix
contains_self [] = refl
contains_self (c ∷ s) = ground (arith, contains_self s)

-- s < t on strings: by the first byte that differs, and a proper prefix first.
unfoldable pub lt_text : Text → Text → Bool
lt_text [] [] = false
lt_text [] (b ∷ t) = true
lt_text (a ∷ s) [] = false
lt_text (a ∷ s) (b ∷ t) =
    let rest = lt_text s t in if ltb a b then true else if ltb b a then false else rest

-- Of two different strings one is less than the other.
pub lt_text_total : (s t : Text) → lt_text s t ≡ false → lt_text t s ≡ false → s ≡ t
unfolding lt_text
lt_text_total [] [] p q = refl
lt_text_total [] (b ∷ t) p q = cc
lt_text_total (a ∷ s) [] p q = cc
lt_text_total (a ∷ s) (b ∷ t) p q = ground (arith, lt_text_total s t)
