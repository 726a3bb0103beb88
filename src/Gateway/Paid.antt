-- ===== src/Gateway/Paid.antt =====
-- A customer pays once: from the node's answer to what the merchant's endpoint has accepted.
use btcpay_gate.Base.{
  ℤ, pos, ltb_ℤ, leb_ℤ, ◌≤ℤ◌, ◌≡◌, true, List, [], ◌∷◌, ◌++◌, All, Any, if◌then◌else◌,
}
use btcpay_gate.Rpc.Amounts.{Float64}
use btcpay_gate.Rpc.SinceBlock.{Transaction, SinceBlock, is_receive}
use btcpay_gate.Payments.State.{Status, seen, confirming, confirmed, underpaid, Observation}
use btcpay_gate.Payments.State.Verdict.{Verdict}
use btcpay_gate.Payments.Store.Tables.{InvoiceRow, Tables}
use btcpay_gate.Payments.Store.Ops.{scan_observation, observation_row}
use btcpay_gate.Monitor.Single.{IsElsewhere, payment}
use btcpay_gate.Gateway.Sound.{IsSound}

-- What one payment means to an invoice of an amount and a threshold: in the mempool, mined, deep enough but too little, or paid.
abbrev pub paid_status : ℤ → ℤ → ℤ → ℤ → Status
paid_status asked required amount_sat confirmations =
    if ltb_ℤ confirmations (pos 1)
    then seen
    else if ltb_ℤ confirmations required
    then confirming
    else if leb_ℤ asked amount_sat
    then confirmed
    else underpaid

module _ (f : Float64) (t : Tables) (sound : IsSound t) (r : InvoiceRow)
    (stored : Any (λ x. x ≡ r) t.invoices) (tx : Transaction f) where
  -- The payment as it is read back.
  abbrev paid_once : Observation
  paid_once = scan_observation (observation_row (payment f t sound.valid r stored tx))

  -- What the node answers: the payment to the address of the invoice, which no conflict touches, and
  -- no other transaction of its output or to its address.
  pub record PaysOnce (since : SinceBlock f) : Type 0 where
    pub before : List (Transaction f)
    pub after : List (Transaction f)
    pub listed : since.transactions ≡ before ++ tx ∷ after
    pub receives : is_receive f tx ≡ true
    pub pays : tx.address ≡ r.address
    pub stands : tx.wallet_conflicts ≡ []
    pub counted : pos 0 ≤ℤ tx.confirmations
    pub apart_before : All (IsElsewhere f t sound.valid r stored tx) before
    pub apart_after : All (IsElsewhere f t sound.valid r stored tx) after
    pub apart_removed : All (IsElsewhere f t sound.valid r stored tx) since.removed
