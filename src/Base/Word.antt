-- ===== src/Base/Word.antt =====
-- Go's int64: the integers, with every result wrapped to 64 bits.
use btcpay_gate.Base.Integers.{ℤ, pos, negsuc, ◌+ℤ◌, pos_part, neg_part}
use btcpay_gate.Base.Tests.{ltb, if◌then◌else◌}
use Prim.Native.Nat.{ℕ, ◌+◌, ◌-◌, ◌%◌, ◌^◌, ◌≤◌, ◌<◌}
use mathlib.Core.Path.{◌≡◌, ap, sym, ◌∙◌}
use native.Mathlib.Omega.{arith}

-- The bit pattern of an integer in 64 bits.
unfoldable pub residue : ℤ → ℕ
residue (pos n) = n % 2 ^ 64
residue (negsuc n) = 2 ^ 64 - 1 - n % 2 ^ 64

-- The integer that a bit pattern stands for, in two's complement.
unfoldable pub of_residue : ℕ → ℤ
of_residue r = if ltb r (2 ^ 63) then pos r else negsuc (2 ^ 64 - 1 - r)

unfoldable pub wrap64 : ℤ → ℤ
unfolding residue of_residue
wrap64 a = of_residue (residue a)

-- What fits an int64.
abbrev pub IsInt64 : ℤ → Type 0
IsInt64 a = (pos_part a < 2 ^ 63) × (neg_part a ≤ 2 ^ 63)

residue-lt : (a : ℤ) → residue a < 2 ^ 64
unfolding residue
residue-lt (pos n) = omega arith
residue-lt (negsuc n) = omega arith

residue-of_residue : (r : ℕ) → r < 2 ^ 64 → residue (of_residue r) ≡ r
unfolding residue of_residue
residue-of_residue r h = ground arith

pub residue-wrap64 : (a : ℤ) → residue (wrap64 a) ≡ residue a
unfolding wrap64
residue-wrap64 a = residue-of_residue (residue a) (residue-lt a)

-- Wrapping loses nothing of a sum but whole turns.
residue-+ℤ : (a b : ℤ) → residue (a +ℤ b) ≡ (residue a + residue b) % 2 ^ 64
unfolding residue ◌+ℤ◌
residue-+ℤ (pos a) (pos b) = ground arith
residue-+ℤ (pos a) (negsuc b) = ground arith
residue-+ℤ (negsuc a) (pos b) = ground arith
residue-+ℤ (negsuc a) (negsuc b) = ground arith

-- Equal bit patterns wrap to one integer.
pub wrap64_eq : (a b : ℤ) → residue a ≡ residue b → wrap64 a ≡ wrap64 b
unfolding wrap64
wrap64_eq a b e = ap of_residue e

-- Wrapping a summand first changes nothing.
pub wrap64-+ℤ-left : (a b : ℤ) → wrap64 (wrap64 a +ℤ b) ≡ wrap64 (a +ℤ b)
wrap64-+ℤ-left a b = wrap64_eq _ _ (
    residue-+ℤ (wrap64 a) b
    ∙ (ap (λ r. (r + residue b) % 2 ^ 64) (residue-wrap64 a) ∙ sym (residue-+ℤ a b)))

-- An int64 is its own wrapped value.
pub wrap64_id : (a : ℤ) → IsInt64 a → wrap64 a ≡ a
unfolding wrap64
wrap64_id (pos n) h = ground arith
wrap64_id (negsuc n) h = ground arith
