-- ===== src/Payments/State/Exact.antt =====
-- The legal steps are those that `Decide` takes, and no more.
use btcpay_gate.Base.{
  ℤ, pos, ◌≡◌, refl, sym, subst, ◌↔◌, Bool, true, false, List, [], ◌∷◌, arith, ◌+ℤ◌,
}
use btcpay_gate.Base.Word.{wrap64}
use btcpay_gate.Payments.State.{
  Status, pending, seen, confirming, confirmed, underpaid, expired, reorged, Invoice, Observation,
  eqb_status, terminal, decide, decide_from, decide_empty, decide_live, collect, tally,
}
use btcpay_gate.Payments.State.Order.{is_empty}
use btcpay_gate.Payments.State.Transitions.{legal, is_touched, legal-decide}

-- Some open invoice with the first status moves to the second one, where observations are kept of
-- one that was paid.
abbrev pub IsTaken : Status → Status → Type 0
IsTaken s t =
    (inv : Invoice) × (obs : List Observation) × (now : ℤ) × (inv.status ≡ s)
    × (is_touched s ≡ true → is_empty obs ≡ false)
    × (terminal s ≡ false)
    × (eqb_status t s ≡ false)
    × (decide inv obs now ≡ t)

-- One satoshi under two confirmations.
abbrev sample : Status → Invoice
sample s = record {
  id = "inv";
  address = "bc1q";
  deriv_index = pos 0;
  amount_sat = pos 1;
  required_conf = pos 2;
  status = s;
  created_at = pos 0;
  expires_at = pos 10;
}

abbrev paying : ℤ → ℤ → Bool → Observation
paying amount confirmations removed = record {
  txid = "t";
  vout = pos 0;
  amount_sat = amount;
  confirmations = confirmations;
  removed = removed;
}

-- Observations that bring the sample to a status at the hour of its expiry.
abbrev leading : Status → List Observation
leading pending = []
leading expired = []
leading seen = paying (pos 1) (pos 0) false ∷ []
leading confirming = paying (pos 1) (pos 1) false ∷ []
leading underpaid = paying (pos 0) (pos 2) false ∷ []
leading confirmed = paying (pos 1) (pos 2) false ∷ []
leading reorged = paying (pos 1) (pos 1) true ∷ []

leading-decide : (s t : Status) → legal s t ≡ true → decide (sample s) (leading t) (pos 10) ≡ t
unfolding decide decide_from decide_empty decide_live collect tally terminal wrap64 ◌+ℤ◌
leading-decide s t h = ground arith

leading_kept :
    (s t : Status) → legal s t ≡ true → is_touched s ≡ true → is_empty (leading t) ≡ false
leading_kept s t h k = ground arith

legal-open : (s t : Status) → legal s t ≡ true → terminal s ≡ false
unfolding terminal
legal-open s t h = ground arith

legal-differs : (s t : Status) → legal s t ≡ true → eqb_status t s ≡ false
legal-differs s t h = ground arith

taken-legal :
    (s t : Status) (inv : Invoice) (obs : List Observation) (now : ℤ)
    → inv.status ≡ s
    → (is_touched s ≡ true → is_empty obs ≡ false)
    → terminal s ≡ false
    → eqb_status t s ≡ false
    → decide inv obs now ≡ t
    → legal s t ≡ true
taken-legal s t inv obs now status kept live apart moves =
    subst (λ y. legal s y ≡ true) moves
      (subst (λ x. legal x (decide inv obs now) ≡ true) status
        (legal-decide inv obs now
          (subst (λ x. is_touched x ≡ true → is_empty obs ≡ false) (sym status) kept)
          (subst (λ x. terminal x ≡ false) (sym status) live)
          (subst (λ x. eqb_status (decide inv obs now) x ≡ false) (sym status)
            (subst (λ y. eqb_status y s ≡ false) (sym moves) apart))))

-- A step from one status to another is legal exactly when some open invoice takes it, at some time
-- and on some observations, where observations are kept of an invoice that was paid: the diagram
-- that the lives of the invoices follow has every edge of the code and no other.
pub legal_iff : (s t : Status) → (legal s t ≡ true) ↔ IsTaken s t
legal_iff s t = (
  λ h. (
    sample s,
    leading t,
    pos 10,
    refl,
    leading_kept s t h,
    legal-open s t h,
    legal-differs s t h,
    leading-decide s t h,
  ),
  λ k. taken-legal s t k.0 k.1 k.2 k.3 k.4 k.5 k.6 k.7,
)
