-- ===== src/Base/Text.antt =====
-- Texts as lists of bytes, and what the host uses of the standard library on them.
use Prim.Native.Char.{code}
use Prim.Native.Nat.{ℕ, zero, suc, ◌+◌, ◌-◌, ◌*◌, ◌/◌, ◌%◌, ◌^◌}
use Prim.Native.String.{String}
use mathlib.Core.Path.{◌≡◌, refl}
use mathlib.Core.Logic.{◌↔◌}
use mathlib.Core.Bool.{Bool, true, false, ◌&&◌, ◌||◌}
use mathlib.Core.Option.{Option, none, some}
use mathlib.Core.List.{List, [], ◌∷◌, ◌++◌}
use native.Mathlib.Omega.{arith}
use immersive.Base.Tests.{ltb, leb, ◌==◌, if◌then◌else◌}

-- The bytes of an ASCII literal.
abbrev pub codes : String → List ℕ
codes String.[] = []
codes (String.◌∷◌ first rest) = code first ∷ codes rest

-- `==` of two std::string.
unfoldable pub text_eq : List ℕ → List ℕ → Bool
text_eq [] [] = true
text_eq [] (d ∷ t) = false
text_eq (c ∷ s) [] = false
text_eq (c ∷ s) (d ∷ t) = let rest = text_eq s t in if c == d then rest else false

pub text_eq_iff : (s t : List ℕ) → (text_eq s t ≡ true) ↔ (s ≡ t)
unfolding text_eq
text_eq_iff [] [] = ground arith
text_eq_iff [] (d ∷ t) = ground arith
text_eq_iff (c ∷ s) [] = ground arith
text_eq_iff (c ∷ s) (d ∷ t) = ground (arith, text_eq_iff s t)

pub text_eq_self : (s : List ℕ) → text_eq s s ≡ true
text_eq_self s = (text_eq_iff s s).1 refl

unfoldable pub is_empty : List ℕ → Bool
is_empty [] = true
is_empty (c ∷ s) = false

-- substr(0, find(c)).
unfoldable pub before : ℕ → List ℕ → List ℕ
before c [] = []
before c (d ∷ s) = let rest = before c s in if d == c then [] else d ∷ rest

-- substr(find(c) + 1), where find() succeeds.
unfoldable pub behind : ℕ → List ℕ → Option (List ℕ)
behind c [] = none
behind c (d ∷ s) = let rest = behind c s in if d == c then some s else rest

unfoldable pub prepend : ℕ → List (List ℕ) → List (List ℕ)
prepend c [] = (c ∷ []) ∷ []
prepend c (p ∷ ps) = (c ∷ p) ∷ ps

-- What getline() with a delimiter delivers in turn: no last piece that is empty.
unfoldable pub pieces : ℕ → List ℕ → List (List ℕ)
unfolding prepend
pieces sep [] = []
pieces sep (c ∷ s) = let rest = pieces sep s in if c == sep then [] ∷ rest else prepend c rest

-- erase(0, find_first_not_of(…)).
unfoldable pub skip_while : (ℕ → Bool) → List ℕ → List ℕ
skip_while p [] = []
skip_while p (c ∷ s) = let rest = skip_while p s in if p c then rest else c ∷ s

-- The same from the end.
unfoldable pub strip_while : (ℕ → Bool) → List ℕ → List ℕ
unfolding is_empty
strip_while p [] = []
strip_while p (c ∷ s) = let rest = strip_while p s in if p c && is_empty rest then [] else c ∷ rest

-- rfind(p, 0) == 0.
unfoldable pub starts_with : List ℕ → List ℕ → Bool
starts_with [] s = true
starts_with (p ∷ ps) [] = false
starts_with (p ∷ ps) (c ∷ s) = let rest = starts_with ps s in if p == c then rest else false

-- isspace() in the C locale.
abbrev pub is_space : ℕ → Bool
is_space c = c == 32 || leb 9 c && leb c 13

abbrev pub is_digit : ℕ → Bool
is_digit c = leb 48 c && leb c 57

-- The digits at the front, as strtol reads them.
unfoldable pub read_decimal : ℕ → List ℕ → ℕ
read_decimal acc [] = acc
read_decimal acc (c ∷ s) =
    let rest = read_decimal (acc * 10 + (c - 48)) s in if is_digit c then rest else acc

-- A number with its sign, as a minus sign in front of the digits tells it.
pub record Signed : Type 0 where
  pub negative : Bool
  pub digits : ℕ

unfoldable pub read_signed : List ℕ → Signed
unfolding read_decimal
read_signed [] = record { negative = false; digits = 0 }
read_signed (c ∷ s) =
    if c == b'-' then record { negative = true; digits = read_decimal 0 s } else record {
      negative = false;
      digits = if c == b'+' then read_decimal 0 s else read_decimal 0 (c ∷ s);
    }

-- atoi(); of a number that an int cannot hold the standard says nothing, and here it keeps its
-- value.
unfoldable pub atoi : List ℕ → Signed
unfolding read_signed skip_while
atoi s = read_signed (skip_while is_space s)

abbrev pub ulong_max : ℕ
ulong_max = 2 ^ 64 - 1

-- strtoul() in base 10: ULONG_MAX for what is too large, and a minus sign negates modulo 2 ^ 64.
unfoldable pub strtoul : List ℕ → ℕ
unfolding atoi
strtoul s =
    let n = atoi s in
    if ltb ulong_max n.digits
    then ulong_max
    else if n.negative
    then (2 ^ 64 - n.digits) % 2 ^ 64
    else n.digits

-- The words that `>>` reads.
unfoldable pub words : List ℕ → List (List ℕ)
unfolding prepend
words [] = []
words (c ∷ s) =
    let rest = words s in
    if is_space c then rest else elim s [
      | [] ↦ (c ∷ []) ∷ []
      | d ∷ _ ↦ if is_space d then (c ∷ []) ∷ rest else prepend c rest
    ]

-- `<` of two std::string.
unfoldable pub text_lt : List ℕ → List ℕ → Bool
text_lt s [] = false
text_lt [] (d ∷ t) = true
text_lt (c ∷ s) (d ∷ t) = ltb c d || c == d && text_lt s t

-- std::to_string: with fuel, one unit for each digit.
unfoldable pub decimal_digits : ℕ → ℕ → List ℕ
decimal_digits zero n = []
decimal_digits (suc fuel) n =
    let rest = decimal_digits fuel (n / 10) in
    if ltb n 10 then (48 + n) ∷ [] else rest ++ (48 + n % 10) ∷ []

unfoldable pub decimal : ℕ → List ℕ
unfolding decimal_digits
decimal n = decimal_digits (n + 1) n
