-- ===== src/Base/Readback.antt =====
-- `ParseInt` reads back what `FormatInt` writes.
use Prim.Native.Nat.{ℕ, zero, suc, ◌+◌, ◌-◌, ◌*◌, ◌^◌, ◌/◌, ◌%◌, ◌<◌}
use Prim.Native.Char.{Char, code}
use Prim.Native.String.{String, ◌++◌}
use mathlib.Core.Path.{◌≡◌, refl, ◌∙◌, ap, sym}
use mathlib.Core.Bool.{Bool, true, false, ◌||◌}
use mathlib.Core.Logic.{inl, inr, ◌≢◌}
use mathlib.Core.Option.{Option, none, some}
use native.Mathlib.Omega.{arith}
use text.Mathlib.TextLemmas.{nil-append, cons-append, append-ne-nil_of_right_ne-nil}
use btcpay_gate.Base.Tests.{eqb, ltb, if◌then◌else◌, Bool-cases}
use btcpay_gate.Base.Integers.{ℤ, pos, negsuc, ◌≤ℤ◌, ◌<ℤ◌}
use btcpay_gate.Base.Decimal.{digit, digits, format_int}
use btcpay_gate.Base.Numerals.{scan, unsigned, not_negative, negated, parse_int}

-- Reading a digit more, after the digits for `n`: one of the cases of `digit`, or a later one.
module _ (d n : ℕ) where
  abbrev Reads : String → Type 0
  Reads s = scan s n ≡ some (n * 10 + d)

  case :
      (k : ℕ) (s t : String)
      → scan s n ≡ some (n * 10 + k)
      → (eqb d k ≡ false → Reads t)
      → Reads (if eqb d k then s else t)
  case k s t here later = elim (Bool-cases (eqb d k)) [
    | inl same ↦ rw same (here ∙ ap (λ x. some (n * 10 + x)) (sym (equal same)))
    | inr other ↦ rw other (later other)
  ]
    where
      equal : eqb d k ≡ true → d ≡ k
      equal h = ground arith

  scan-digit : d < 10 → Reads (digit d)
  unfolding digit scan
  scan-digit h = case 0 "0" _ refl λ h₀. case 1 "1" _ refl λ h₁. case 2 "2" _ refl λ h₂.
      case 3 "3" _ refl λ h₃. case 4 "4" _ refl λ h₄. case 5 "5" _ refl λ h₅.
        case 6 "6" _ refl λ h₆. case 7 "7" _ refl λ h₇.
          case 8 "8" _ refl
            λ h₈. ap (λ x. some (n * 10 + x)) (sym (nine h₀ h₁ h₂ h₃ h₄ h₅ h₆ h₇ h₈))
    where
      nine :
          eqb d 0 ≡ false
          → eqb d 1 ≡ false
          → eqb d 2 ≡ false
          → eqb d 3 ≡ false
          → eqb d 4 ≡ false
          → eqb d 5 ≡ false
          → eqb d 6 ≡ false
          → eqb d 7 ≡ false
          → eqb d 8 ≡ false
          → d ≡ 9
      nine h₀ h₁ h₂ h₃ h₄ h₅ h₆ h₇ h₈ = ground arith

abbrev value_of : Option ℕ → ℕ
value_of none = 0
value_of (some n) = n

-- What `scan` makes of a character and the rest, by whether it is refused.
abbrev pub choice : Char → String → ℕ → Bool → Option ℕ
choice c s n refused = if refused then none else scan s (n * 10 + (code c - b'0'))

scan_append : (s t : String) (n m : ℕ) → scan s n ≡ some m → scan (s ++ t) n ≡ scan t m
unfolding scan
scan_append String.[] t n m h = rw (nil-append t) (ap (scan t) (ap value_of h))
scan_append (String.◌∷◌ c s) t n m h =
    rw (cons-append c s t) (elim (Bool-cases (ltb (code c) b'0' || ltb b'9' (code c))) [
      | inl other ↦ absurd (refused (sym (ap (choice c s n) other) ∙ h))
      | inr good ↦ rw good (scan_append s t _ m (sym (ap (choice c s n) good) ∙ h))
    ])
  where
    refused : none ≡ some m → ⊥
    refused x = cc

scan-digits : (f n : ℕ) → n < 10 ^ f → scan (digits f n) 0 ≡ some n
unfolding digits scan
scan-digits zero n h = ap some (omega (arith, h))
scan-digits (suc f) n h = elim (Bool-cases (ltb n 10)) [
  | inl one ↦ rw one (scan-digit n 0 (below one) ∙ ap some (omega arith))
  | inr more ↦ rw more (
      scan_append (digits f (n / 10)) (digit (n % 10)) 0 (n / 10)
        (scan-digits f (n / 10) (omega (arith, h)))
      ∙ scan-digit (n % 10) (n / 10) (omega arith)
      ∙ ap some (omega arith))
]
  where
    below : ltb n 10 ≡ true → n < 10
    below e = ground arith

digit-ne-nil : (d : ℕ) → d < 10 → digit d ≢ ""
unfolding scan
digit-ne-nil d h e = absurd (grown (ap value_of (sym (scan-digit d 1 h) ∙ ap (λ s. scan s 1) e)))
  where
    grown : value_of (some (1 * 10 + d)) ≡ value_of (scan "" 1) → ⊥
    grown x = omega (arith, x)

digits-ne-nil : (f n : ℕ) → digits (suc f) n ≢ ""
unfolding digits
digits-ne-nil f n = elim (Bool-cases (ltb n 10)) [
  | inl one ↦ rw one (digit-ne-nil n (below one))
  | inr more ↦
      rw more
        (append-ne-nil_of_right_ne-nil (digits f (n / 10)) (digit-ne-nil (n % 10) (omega arith)))
]
  where
    below : ltb n 10 ≡ true → n < 10
    below e = ground arith

unsigned-scan : (s : String) → s ≢ "" → unsigned s ≡ scan s 0
unsigned-scan String.[] h = absurd (h refl)
unsigned-scan (String.◌∷◌ c s) h = refl

-- Digits have no sign.
abbrev IsUnsigned : String → Type 0
IsUnsigned String.[] = ⊥
IsUnsigned (String.◌∷◌ c s) = (eqb (code c) b'-' ≡ false) × (eqb (code c) b'+' ≡ false)

scan-IsUnsigned : (s : String) (n m : ℕ) → s ≢ "" → scan s n ≡ some m → IsUnsigned s
unfolding scan
scan-IsUnsigned String.[] n m full h = full refl
scan-IsUnsigned (String.◌∷◌ c s) n m full h =
    elim (Bool-cases (ltb (code c) b'0' || ltb b'9' (code c))) [
      | inl other ↦ absurd (refused (sym (ap (choice c s n) other) ∙ h))
      | inr good ↦ (minus good, plus good)
    ]
  where
    refused : none ≡ some m → ⊥
    refused x = cc

    minus : (ltb (code c) b'0' || ltb b'9' (code c)) ≡ false → eqb (code c) b'-' ≡ false
    minus x = ground arith

    plus : (ltb (code c) b'0' || ltb b'9' (code c)) ≡ false → eqb (code c) b'+' ≡ false
    plus x = ground arith

parse_int_plain : (s : String) → s ≢ "" → IsUnsigned s → parse_int s ≡ not_negative (scan s 0)
unfolding parse_int
parse_int_plain String.[] full h = absurd h
parse_int_plain (String.◌∷◌ c s) full h = rw (h.0, h.1) refl

parse_int_minus : (s : String) → s ≢ "" → parse_int ("-" ++ s) ≡ negated (scan s 0)
unfolding parse_int
parse_int_minus s full =
    ap parse_int (cons-append "-" "" s ∙ ap (λ t. String.◌∷◌ "-" t) (nil-append s))
    ∙ ap negated (unsigned-scan s full)

not_negative-fits : (n : ℕ) → n < 2 ^ 63 → not_negative (some n) ≡ some (pos n)
not_negative-fits n h = ground arith

negated-fits : (n : ℕ) → n < 2 ^ 63 → negated (some (suc n)) ≡ some (negsuc n)
negated-fits n h = ground arith

parse_int-digits : (n : ℕ) → n < 2 ^ 63 → parse_int (digits 20 n) ≡ some (pos n)
parse_int-digits n h =
    let full = digits-ne-nil 19 n in
    let read = scan-digits 20 n (omega (arith, h)) in
    parse_int_plain (digits 20 n) full (scan-IsUnsigned (digits 20 n) 0 n full read)
    ∙ ap not_negative read
    ∙ not_negative-fits n h

parse_int-minus_digits :
    (n : ℕ) → n < 2 ^ 63 → parse_int ("-" ++ digits 20 (suc n)) ≡ some (negsuc n)
parse_int-minus_digits n h =
    parse_int_minus (digits 20 (suc n)) (digits-ne-nil 19 (suc n))
    ∙ ap negated (scan-digits 20 (suc n) (omega (arith, h)))
    ∙ negated-fits n h

-- What `FormatInt` writes of an int64, `ParseInt` reads back.
pub parse_int-format_int :
    (x : ℤ) → negsuc (2 ^ 63 - 1) ≤ℤ x → x <ℤ pos (2 ^ 63) → parse_int (format_int x) ≡ some x
unfolding format_int
parse_int-format_int (pos n) low high = parse_int-digits n (omega (arith, high))
parse_int-format_int (negsuc n) low high = parse_int-minus_digits n (omega (arith, low))
