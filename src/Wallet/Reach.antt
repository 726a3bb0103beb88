-- ===== src/Wallet/Reach.antt =====
-- The loop that picks how far to watch: it ends, past the index and less than one step too far.
use btcpay_gate.Base.{
  ℕ, zero, suc, ◌^◌, ℤ, pos, negsuc, ◌+ℤ◌, ◌≤ℤ◌, ◌<ℤ◌, leb_ℤ, ◌≡◌, true, false, inl, inr,
  Bool-cases, int_laws, arith,
}
use btcpay_gate.Base.Word.{wrap64, wrap64_id, IsInt64}
use btcpay_gate.Wallet.{reach}

fits : (x : ℤ) → pos 0 ≤ℤ x → x <ℤ pos (2 ^ 63) → IsInt64 x
fits (pos n) l h = ground arith
fits (negsuc n) l h = absurd (omega arith)

pub exact :
    (a b m : ℤ)
    → pos 0 ≤ℤ a
    → pos 0 ≤ℤ b
    → a +ℤ b ≤ℤ m
    → m <ℤ pos (2 ^ 63)
    → wrap64 (a +ℤ b) ≡ a +ℤ b
exact a b m ha hb h l = wrap64_id (a +ℤ b) (fits (a +ℤ b) (omega int_laws) (omega int_laws))

test_le : (a b : ℤ) → ((leb_ℤ a b ≡ true) → a ≤ℤ b) × ((leb_ℤ a b ≡ false) → b <ℤ a)
test_le a b = ground arith

-- Enough rounds take the loop past the index, by at most one step.
pub reach-above :
    (rounds : ℕ) (index step next : ℤ)
    → pos 0 <ℤ step
    → pos 0 ≤ℤ next
    → index +ℤ step <ℤ pos (2 ^ 63)
    → next ≤ℤ index +ℤ step
    → index <ℤ next +ℤ pos rounds
    → (index <ℤ reach rounds index step next) × (reach rounds index step next ≤ℤ index +ℤ step)
unfolding reach
reach-above zero index step next hs hn hb hi hr = (omega int_laws, hi)
reach-above (suc rounds) index step next hs hn hb hi hr = elim (Bool-cases (leb_ℤ next index)) [
  | inl more ↦
      (let small = (test_le next index).0 more in
        rw (more, exact next step (index +ℤ step) hn (omega int_laws) (omega int_laws) hb)
          (reach-above rounds index step (next +ℤ step) hs (omega int_laws) hb (omega int_laws)
            (omega int_laws)))
  | inr past ↦ rw past (omega (int_laws, (test_le next index).1 past), hi)
]
