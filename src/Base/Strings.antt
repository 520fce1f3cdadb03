-- ===== src/Base/Strings.antt =====
-- Go strings as lists of bytes.
use Prim.Native.Nat.{ℕ, zero, suc, ◌+◌, ◌-◌, ◌*◌, ◌/◌, ◌%◌, ◌<◌}
use Prim.Native.Char.{code}
use Prim.Native.String.{String}
use mathlib.Core.Path.{◌≡◌, refl, ap, ◌∙◌}
use mathlib.Core.Logic.{◌↔◌, inl, inr}
use mathlib.Core.Bool.{Bool, true, false, ◌&&◌}
use mathlib.Core.List.{List, [], ◌∷◌, ◌++◌}
use native.Mathlib.Omega.{arith}
use hyperfleet_controller.Base.Tests.{nat_eq, nat_eq_iff, leb, Bool-cases, if◌then◌else◌}

abbrev pub Text : Type 0
Text = List ℕ

-- The bytes of a literal. All literals of the program are ASCII, where code points are bytes.
unfoldable pub text : String → Text
text String.[] = []
text (String.◌∷◌ c s) = code c ∷ text s

-- `s == t`
infix 50 ◌==◌
unfoldable pub ◌==◌ : Text → Text → Bool
[] == [] = true
(a ∷ s) == (b ∷ t) = nat_eq a b && s == t
_ == _ = false

pub ==_iff : (s t : Text) → ((s == t) ≡ true) ↔ (s ≡ t)
unfolding ◌==◌
==_iff [] [] = (λ _. refl, λ _. refl)
==_iff (a ∷ s) (b ∷ t) = ground (arith, ==_iff s t)
==_iff [] (b ∷ t) = ground arith
==_iff (a ∷ s) [] = ground arith

pub ==_refl : (s : Text) → (s == s) ≡ true
==_refl s = (==_iff s s).1 refl

-- strings.HasPrefix
unfoldable pub has_prefix : Text → Text → Bool
has_prefix s [] = true
has_prefix [] (b ∷ t) = false
has_prefix (a ∷ s) (b ∷ t) = nat_eq a b && has_prefix s t

-- A prefix leaves a rest.
pub has_prefix-rest : (s t : Text) → has_prefix s t ≡ true → (rest : Text) × (s ≡ t ++ rest)
unfolding has_prefix
has_prefix-rest s [] h = (s, refl)
has_prefix-rest [] (b ∷ t) h = ground arith
has_prefix-rest (a ∷ s) (b ∷ t) h =
    let (rest, e) = has_prefix-rest s t (ground arith) in (rest, ground (arith, nat_eq_iff a b))

pub has_prefix-append : (t rest : Text) → has_prefix (t ++ rest) t ≡ true
unfolding has_prefix
has_prefix-append [] rest = refl
has_prefix-append (b ∷ t) rest = ground (arith, has_prefix-append t rest)

-- strings.Join
unfoldable pub join_with : Text → List Text → Text
join_with sep [] = []
join_with sep (s ∷ []) = s
join_with sep (s ∷ t ∷ r) = s ++ sep ++ join_with sep (t ∷ r)

-- strings.ToLower on ASCII. Other bytes are kept.
lower_byte : ℕ → ℕ
lower_byte c = if leb b'A' c && leb c b'Z' then c + 32 else c

unfoldable pub to_lower : Text → Text
unfolding lower_byte
to_lower [] = []
to_lower (c ∷ s) = lower_byte c ∷ to_lower s

lower_byte_idem : (c : ℕ) → lower_byte (lower_byte c) ≡ lower_byte c
unfolding lower_byte
lower_byte_idem c = ground arith

pub to_lower_idem : (s : Text) → to_lower (to_lower s) ≡ to_lower s
unfolding to_lower
to_lower_idem [] = refl
to_lower_idem (c ∷ s) = cc (lower_byte_idem c, to_lower_idem s)

-- The decimal digits of a number, in front of `rest`: what the verb %d prints. A number below the
-- fuel has fewer digits than that.
decimal_onto : ℕ → ℕ → Text → Text
decimal_onto zero n rest = rest
decimal_onto (suc fuel) n rest =
    let digits = (b'0' + n % 10) ∷ rest in
    elim (leb n 9) [ true ↦ digits | false ↦ decimal_onto fuel (n / 10) digits ]

unfoldable pub decimal : ℕ → Text
unfolding decimal_onto
decimal n = decimal_onto (suc n) n []

-- The number that digits behind `acc` stand for.
unfoldable pub read_decimal : ℕ → Text → ℕ
read_decimal acc [] = acc
read_decimal acc (c ∷ s) = read_decimal (acc * 10 + (c - b'0')) s

digit_back : (acc n : ℕ) → acc * 10 + n % 10 ≡ n → acc * 10 + (b'0' + n % 10 - b'0') ≡ n
digit_back acc n e = omega arith

read_decimal-decimal_onto :
    (fuel n : ℕ) (rest : Text)
    → n < fuel
    → read_decimal 0 (decimal_onto fuel n rest) ≡ read_decimal n rest
unfolding decimal_onto read_decimal
read_decimal-decimal_onto zero n rest h = omega arith
read_decimal-decimal_onto (suc fuel) n rest h =
    let more = read_decimal-decimal_onto fuel (n / 10) ((b'0' + n % 10) ∷ rest) in
    elim (Bool-cases (leb n 9)) [
      | inl e ↦ rw (read_decimal, e) (ap (λ x. read_decimal x rest) (digit_back 0 n (ground arith)))
      | inr e ↦
          rw (read_decimal, e)
            (more (ground arith)
              ∙ ap (λ x. read_decimal x rest) (digit_back (n / 10) n (omega arith)))
    ]

-- The fuel of `decimal` is enough: the digits that it prints are those of the number.
pub read_decimal-decimal : (n : ℕ) → read_decimal 0 (decimal n) ≡ n
unfolding decimal read_decimal
read_decimal-decimal n = read_decimal-decimal_onto (suc n) n [] (omega arith)
