-- ===== src/Base/Decimal.antt =====
-- Decimal text of an int64, as `strconv.FormatInt(n, 10)` and the verb %d write it.
use Prim.Native.Nat.{ℕ, zero, suc, ◌/◌, ◌%◌}
use Prim.Native.String.{String, ◌++◌}
use mathlib.Core.Path.{◌≡◌, refl}
use btcpay_gate.Base.Tests.{eqb, ltb, if◌then◌else◌}
use btcpay_gate.Base.Integers.{ℤ, pos, negsuc}

unfoldable pub digit : ℕ → String
digit d =
    if eqb d 0
    then "0"
    else if eqb d 1
    then "1"
    else if eqb d 2
    then "2"
    else if eqb d 3
    then "3"
    else if eqb d 4
    then "4"
    else if eqb d 5
    then "5"
    else if eqb d 6
    then "6"
    else if eqb d 7
    then "7"
    else if eqb d 8
    then "8"
    else "9"

-- At most as many digits as the first argument says.
unfoldable pub digits : ℕ → ℕ → String
digits zero n = ""
digits (suc f) n =
    let front = digits f (n / 10) in if ltb n 10 then digit n else front ++ digit (n % 10)

-- An int64 has at most 19 digits.
unfoldable pub format_int : ℤ → String
unfolding digit digits
format_int (pos n) = digits 20 n
format_int (negsuc n) = "-" ++ digits 20 (suc n)

format_int-small :
    (format_int (pos 1_789_640_000) ≡ "1789640000") × (format_int (negsuc 41) ≡ "-42")
unfolding format_int
format_int-small = (refl, refl)
