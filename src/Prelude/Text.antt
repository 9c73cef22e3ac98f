-- ===== src/Prelude/Text.antt =====
-- Go strings as lists of bytes: the parts of `strings` that the strategies call.
use Prim.Native.Nat.{ℕ, zero, suc, ◌+◌, ◌-◌, ◌*◌, ◌^◌}
use Prim.Native.Char.{code}
use Prim.Native.String.{String}
use mathlib.Core.Bool.{Bool, true, false, ◌&&◌}
use mathlib.Core.Option.{Option, none, some}
use mathlib.Core.List.{List, [], ◌∷◌}
use mars_icnp.Prelude.Tests.{◌==◌, ltb, leb, if◌then◌else◌}
use mars_icnp.Prelude.Int.{ℤ, pos, negsuc}

abbrev pub Str : Type 0
Str = List ℕ

-- The bytes of an ASCII literal.
abbrev pub codes : String → Str
codes String.[] = []
codes (String.◌∷◌ c s) = code c ∷ codes s

-- `strings.HasPrefix`.
unfoldable pub has_prefix : Str → Str → Bool
has_prefix s [] = true
has_prefix [] (p ∷ ps) = false
has_prefix (c ∷ s) (p ∷ ps) = (c == p) && has_prefix s ps

unfoldable pub drop_prefix : Str → Str → Str
drop_prefix s [] = s
drop_prefix [] (p ∷ ps) = []
drop_prefix (c ∷ s) (p ∷ ps) = drop_prefix s ps

-- `strings.TrimPrefix`.
unfoldable pub trim_prefix : Str → Str → Str
unfolding has_prefix drop_prefix
trim_prefix s p = if has_prefix s p then drop_prefix s p else s

-- `a == b` on strings.
unfoldable pub str_eq : Str → Str → Bool
str_eq [] [] = true
str_eq [] (d ∷ t) = false
str_eq (c ∷ s) [] = false
str_eq (c ∷ s) (d ∷ t) = (c == d) && str_eq s t

abbrev pub is_digit : ℕ → Bool
is_digit c = leb b'0' c && leb c b'9'

-- Decimal digits after the value `n` of those before them.
unfoldable pub parse_digits : Str → ℕ → Option ℕ
parse_digits [] n = some n
parse_digits (c ∷ s) n = if is_digit c then parse_digits s (n * 10 + (c - b'0')) else none

-- At least one digit, and a value below the bound.
unfoldable pub parse_below : ℕ → Str → Option ℕ
unfolding parse_digits
parse_below bound [] = none
parse_below bound (c ∷ s) = elim (parse_digits (c ∷ s) 0) [
  | none ↦ none
  | some n ↦ if ltb n bound then some n else none
]

abbrev pub negate : ℕ → ℤ
negate zero = pos 0
negate (suc n) = negsuc n

abbrev pub as_pos : Option ℕ → Option ℤ
as_pos none = none
as_pos (some n) = some (pos n)

abbrev pub as_neg : Option ℕ → Option ℤ
as_neg none = none
as_neg (some n) = some (negate n)

-- `strconv.Atoi` for a 64-bit `int`: `none` is an error.
unfoldable pub atoi : Str → Option ℤ
unfolding parse_below
atoi [] = none
atoi (c ∷ s) =
    if c == b'-'
    then as_neg (parse_below (2 ^ 63 + 1) s)
    else if c == b'+'
    then as_pos (parse_below (2 ^ 63) s)
    else as_pos (parse_below (2 ^ 63) (c ∷ s))
