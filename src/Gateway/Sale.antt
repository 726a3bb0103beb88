-- ===== src/Gateway/Sale.antt =====
-- A sale, from the request for an invoice to the merchant's endpoint.
use btcpay_gate.Base.{
  ◌+◌, ◌*◌, ◌≤◌, ℤ, pos, eqb_ℤ, ◌≤ℤ◌, ◌≡◌, ◌≢◌, true, false, ◌&&◌, List, [], ◌∷◌, ◌++◌, length,
  String, ◌==◌, All, Any,
}
use btcpay_gate.Base.Word.{IsInt64}
use btcpay_gate.Time.{unix}
use btcpay_gate.Errors.{Result, ok}
use btcpay_gate.Rpc.Amounts.{Float64}
use btcpay_gate.Rpc.SinceBlock.{Transaction, SinceBlock, amount, is_receive}
use btcpay_gate.Payments.State.{sentinel}
use btcpay_gate.Payments.Store.Tables.{Tables}
use btcpay_gate.Payments.Store.Ops.{or_empty}
use btcpay_gate.Payments.Store.Outputs.{is_output}
use btcpay_gate.Monitor.{poll}
use btcpay_gate.Webhook.{Host, Sender, sender_run}
use btcpay_gate.Webhook.Accepted.{Accepts}
use btcpay_gate.Webhook.Drain.{undelivered}
use btcpay_gate.Api.{InvoiceResponse}
use btcpay_gate.Gateway.{meeting}
use btcpay_gate.Gateway.Sound.{IsSound}
use btcpay_gate.Gateway.Told.{IsTold}
use btcpay_gate.Gateway.Paid.{paid_status}

module _ {f : Float64} (tx : Transaction f) where
  -- Another transaction, of another output, that pays another address.
  abbrev pub IsApart : String → Transaction f → Type 0
  IsApart address y = (y.address ≢ address) × ((y.txid == tx.txid && eqb_ℤ y.vout tx.vout) ≡ false)

  -- The node lists the payment of the invoice in the response, which no conflict touches, and no
  -- other transaction of its output or to its address.
  pub record IsListed (v : InvoiceResponse) (since : SinceBlock f) : Type 0 where
    pub before : List (Transaction f)
    pub after : List (Transaction f)
    pub listed : since.transactions ≡ before ++ tx ∷ after
    pub receives : is_receive f tx ≡ true
    pub pays : tx.address ≡ v.address
    pub stands : tx.wallet_conflicts ≡ []
    pub counted : pos 0 ≤ℤ tx.confirmations
    pub apart_before : All (IsApart v.address) before
    pub apart_after : All (IsApart v.address) after
    pub apart_removed : All (IsApart v.address) since.removed

module _ (h : Host) (s : Sender) (accepts : Accepts h s) (some_url : (s.url == "") ≡ false)
    {f : Float64} (tx : Transaction f) (node : String → ℤ → Result (SinceBlock f)) (window now : ℤ)
    (since : SinceBlock f) (ticks : List ℤ) (late : All (λ tick. unix now ≤ℤ unix tick) ticks) where
  -- After a poll of these tables and the ticks, the endpoint has been told, by a new event, what the
  -- payment means to the invoice in the response.
  abbrev pub IsServed : InvoiceResponse → Tables → Type 0
  IsServed v t =
      Any
        (IsTold h s t.last_event_id v.id
          (paid_status v.amount_sat v.required_conf (amount f tx) tx.confirmations))
        (sender_run h s ticks
          (meeting (poll f node window now (meeting t [])).1.tables [])).tables.events

  module _ (t : Tables) (sound : IsSound t)
      (unseen : All (λ o. is_output tx.txid tx.vout o ≡ false) t.observations)
      (room : undelivered t.events + length t.invoices + 1 ≤ 50 * length ticks)
      (fits : IsInt64 (amount f tx)) (rfc3339 : ℤ → String) where
    Sold : InvoiceResponse → Tables → Type 0
    Sold v t' =
        IsSound t'
        → node (or_empty t'.cursor) window ≡ ok since
        → IsListed tx v since
        → v.required_conf ≤ℤ sentinel
        → IsServed v t'
