-- ===== src/Base/Numerals.antt =====
-- Decimal text read back, as `strconv.ParseInt(_, 10, 64)` does.
use Prim.Native.Nat.{ℕ, zero, suc, ◌+◌, ◌-◌, ◌*◌, ◌^◌}
use Prim.Native.Char.{code}
use Prim.Native.String.{String}
use mathlib.Core.Path.{◌≡◌, refl}
use mathlib.Core.Bool.{◌||◌}
use mathlib.Core.Option.{Option, none, some}
use btcpay_gate.Base.Tests.{eqb, ltb, if◌then◌else◌}
use btcpay_gate.Base.Integers.{ℤ, pos, negsuc}

-- The digits of a text behind the number `n`.
unfoldable pub scan : String → ℕ → Option ℕ
scan String.[] n = some n
scan (String.◌∷◌ c s) n =
    if ltb (code c) b'0' || ltb b'9' (code c) then none else scan s (n * 10 + (code c - b'0'))

abbrev pub unsigned : String → Option ℕ
unsigned String.[] = none
unsigned (String.◌∷◌ c s) = scan (String.◌∷◌ c s) 0

abbrev pub not_negative : Option ℕ → Option ℤ
not_negative none = none
not_negative (some n) = if ltb n (2 ^ 63) then some (pos n) else none

abbrev pub negated : Option ℕ → Option ℤ
negated none = none
negated (some zero) = some (pos 0)
negated (some (suc k)) = if ltb k (2 ^ 63) then some (negsuc k) else none

-- `ParseInt` in base 10 to 64 bits: a sign, one or more digits, and a value that fits.
unfoldable pub parse_int : String → Option ℤ
parse_int String.[] = none
parse_int (String.◌∷◌ c s) =
    if eqb (code c) b'-'
    then negated (unsigned s)
    else if eqb (code c) b'+'
    then not_negative (unsigned s)
    else not_negative (unsigned (String.◌∷◌ c s))

parse_int_examples :
    (parse_int "1789640000" ≡ some (pos 1_789_640_000))
    × (parse_int "-42" ≡ some (negsuc 41))
    × (parse_int "12.5" ≡ none)
    × (parse_int "9223372036854775808" ≡ none)
unfolding parse_int scan
parse_int_examples = (refl, refl, refl, refl)
