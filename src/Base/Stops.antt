-- ===== src/Base/Stops.antt =====
-- Text up to a full stop, which no number in decimal has.
use Prim.Native.Nat.{ℕ}
use Prim.Native.Char.{Char, code}
use Prim.Native.String.{String, ◌++◌}
use mathlib.Core.Path.{◌≡◌, refl, ◌∙◌, ap, sym}
use mathlib.Core.Bool.{true, false, ◌||◌}
use mathlib.Core.Logic.{inl, inr}
use mathlib.Core.Option.{Option, none, some}
use native.Mathlib.Omega.{arith}
use text.Mathlib.TextLemmas.{nil-append, cons-append, head-eq_of_cons-eq, tail-eq_of_cons-eq}
use btcpay_gate.Base.Tests.{eqb, ltb, Bool-cases}
use btcpay_gate.Base.Integers.{ℤ}
use btcpay_gate.Base.Numerals.{scan, unsigned, not_negative, negated, parse_int}
use btcpay_gate.Base.Readback.{choice}

-- Text without a full stop.
abbrev pub HasNoStop : String → Type 0
HasNoStop String.[] = Unit
HasNoStop (String.◌∷◌ c s) = (eqb (code c) b'.' ≡ false) × HasNoStop s

scan-HasNoStop : (s : String) (n m : ℕ) → scan s n ≡ some m → HasNoStop s
unfolding scan
scan-HasNoStop String.[] n m h = tt
scan-HasNoStop (String.◌∷◌ c s) n m h = elim (Bool-cases (ltb (code c) b'0' || ltb b'9' (code c))) [
  | inl other ↦ absurd (refused (sym (ap (choice c s n) other) ∙ h))
  | inr good ↦ (stop good, scan-HasNoStop s _ m (sym (ap (choice c s n) good) ∙ h))
]
  where
    refused : none ≡ some m → ⊥
    refused x = cc

    stop : (ltb (code c) b'0' || ltb b'9' (code c)) ≡ false → eqb (code c) b'.' ≡ false
    stop x = ground arith

unsigned-HasNoStop : (s : String) (m : ℕ) → unsigned s ≡ some m → HasNoStop s
unsigned-HasNoStop String.[] m h = tt
unsigned-HasNoStop (String.◌∷◌ c s) m h = scan-HasNoStop (String.◌∷◌ c s) 0 m h

from_not_negative : (o : Option ℕ) (x : ℤ) → not_negative o ≡ some x → (n : ℕ) × (o ≡ some n)
from_not_negative none x h = cc
from_not_negative (some n) x h = (n, refl)

from_negated : (o : Option ℕ) (x : ℤ) → negated o ≡ some x → (n : ℕ) × (o ≡ some n)
from_negated none x h = cc
from_negated (some n) x h = (n, refl)

-- No text that `ParseInt` accepts has a full stop.
pub parse_int-HasNoStop : (s : String) (x : ℤ) → parse_int s ≡ some x → HasNoStop s
unfolding parse_int
parse_int-HasNoStop String.[] x h = tt
parse_int-HasNoStop (String.◌∷◌ c s) x h = elim (Bool-cases (eqb (code c) b'-')) [
  | inl minus ↦
      let k = from_negated (unsigned s) x (rw minus at h) in
      (ground arith, unsigned-HasNoStop s k.0 k.1)
  | inr other ↦ elim (Bool-cases (eqb (code c) b'+')) [
    | inl plus ↦
        let k = from_not_negative (unsigned s) x (rw (other, plus) at h) in
        (ground arith, unsigned-HasNoStop s k.0 k.1)
    | inr plain ↦
        let k = from_not_negative (unsigned (String.◌∷◌ c s)) x (rw (other, plain) at h) in
        unsigned-HasNoStop (String.◌∷◌ c s) k.0 k.1
  ]
]

-- Text up to its first full stop, and what comes behind it.
stop_cons : (a : String) → "" ++ ("." ++ a) ≡ String.◌∷◌ "." a
stop_cons a =
    nil-append ("." ++ a) ∙ cons-append "." "" a ∙ ap (λ s. String.◌∷◌ "." s) (nil-append a)

no_stop : (c : Char) → eqb (code c) b'.' ≡ false → "." ≡ c → ⊥
no_stop c h e = absurd (clash (ap (λ x. eqb (code x) b'.') e ∙ h))
  where
    clash : true ≡ false → ⊥
    clash x = cc

pub parts_of_stop :
    (s t a b : String)
    → HasNoStop s
    → HasNoStop t
    → s ++ ("." ++ a) ≡ t ++ ("." ++ b)
    → (s ≡ t) × (a ≡ b)
parts_of_stop String.[] String.[] a b hs ht e =
    (refl, tail-eq_of_cons-eq (sym (stop_cons a) ∙ e ∙ stop_cons b))
parts_of_stop String.[] (String.◌∷◌ d t) a b hs ht e =
    absurd
      (no_stop d ht.0 (head-eq_of_cons-eq (sym (stop_cons a) ∙ e ∙ cons-append d t ("." ++ b))))
parts_of_stop (String.◌∷◌ c s) String.[] a b hs ht e =
    absurd
      (no_stop c hs.0 (head-eq_of_cons-eq (sym (stop_cons b) ∙ sym e ∙ cons-append c s ("." ++ a))))
parts_of_stop (String.◌∷◌ c s) (String.◌∷◌ d t) a b hs ht e =
    let aligned = sym (cons-append c s ("." ++ a)) ∙ e ∙ cons-append d t ("." ++ b) in
    let rest = parts_of_stop s t a b hs.1 ht.1 (tail-eq_of_cons-eq aligned) in
    (ap2 (head-eq_of_cons-eq aligned) rest.0, rest.1)
  where
    ap2 : c ≡ d → s ≡ t → String.◌∷◌ c s ≡ String.◌∷◌ d t
    ap2 h k = λ i. String.◌∷◌ (h i) (k i)
