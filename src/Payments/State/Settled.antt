-- ===== src/Payments/State/Settled.antt =====
-- What a settled invoice guarantees, and that deciding again from the same facts changes nothing.
use btcpay_gate.Base.{ℤ, pos, ◌≤ℤ◌, ◌≡◌, ◌≢◌, false, List, [], ◌∷◌, arith, Bool-cases, inl, inr}
use btcpay_gate.Payments.State.{
  confirmed, expired, pending, reorged, Invoice, Observation, terminal, decide, decide_empty,
  decide_live, sentinel, paid, min_confirmations,
}
use btcpay_gate.Payments.State.Totals.{
  live_of, tally-received, paid-received, min_confirmations-above,
}
use btcpay_gate.Payments.State.Verdict.{SomeLive}
use btcpay_gate.Payments.State.Order.{decide-eq, is_empty}

some_or_none : (obs : List Observation) → (is_empty (live_of obs) ≡ false → SomeLive obs)
some_or_none [] h = cc
some_or_none (o ∷ obs) h = elim (Bool-cases o.removed) [
  | inl gone ↦ inr (some_or_none obs (ground arith))
  | inr stays ↦ inl stays
]

-- An open invoice that `Decide` confirms has received its amount and reached its threshold, by
-- the very numbers that `Paid` and `MinConfirmations` report with the event, and at least one
-- confirmation.
pub confirmed_covers :
    (inv : Invoice) (obs : List Observation) (now : ℤ)
    → terminal inv.status ≡ false
    → decide inv obs now ≡ confirmed
    → (inv.amount_sat ≤ℤ paid obs)
      × (inv.required_conf ≤ℤ min_confirmations obs)
      × (pos 1 ≤ℤ min_confirmations obs)
unfolding decide_live decide_empty
confirmed_covers inv obs now t e = ground (
  arith,
  decide-eq inv obs now,
  tally-received obs sentinel,
  paid-received obs,
  min_confirmations-above obs (pos 0),
  some_or_none obs,
)

some_not_empty : (obs : List Observation) → SomeLive obs → is_empty (live_of obs) ≡ false
some_not_empty [] h = absurd h
some_not_empty (o ∷ obs) h = ground (arith, some_not_empty obs)

-- With a live payment in view `Decide` answers expired only for an invoice that was expired
-- already, whatever the clock says, and never pending or reorged.
pub in_flight :
    (inv : Invoice) (obs : List Observation) (now : ℤ)
    → SomeLive obs
    → (decide inv obs now ≡ expired → inv.status ≡ expired)
      × (decide inv obs now ≢ pending)
      × (decide inv obs now ≢ reorged)
unfolding decide_live decide_empty terminal
in_flight inv obs now some_live = (
  λ e. ground (arith, decide-eq inv obs now, some_not_empty obs),
  λ e. ground (arith, decide-eq inv obs now, some_not_empty obs),
  λ e. ground (arith, decide-eq inv obs now, some_not_empty obs),
)

-- Deciding again from the same observations at the same time gives the same status.
pub decide_idem :
    (inv : Invoice) (obs : List Observation) (now : ℤ)
    → decide (record inv { status = decide inv obs now }) obs now ≡ decide inv obs now
unfolding decide_live decide_empty terminal
decide_idem inv obs now =
    ground
      (arith, decide-eq inv obs now, decide-eq (record inv { status = decide inv obs now }) obs now)
