-- ===== src/Gateway/Told.antt =====
-- From the chain to the merchant: what a poll finds out reaches an endpoint that accepts.
use btcpay_gate.Base.{ℕ, ◌<◌, ℤ, pos, ◌≡◌, true, List, [], String}
use btcpay_gate.Time.{unix}
use btcpay_gate.Errors.{Result, ok, err}
use btcpay_gate.Rpc.Amounts.{Float64}
use btcpay_gate.Rpc.SinceBlock.{SinceBlock}
use btcpay_gate.Payments.State.{Status}
use btcpay_gate.Payments.State.Verdict.{Verdict}
use btcpay_gate.Payments.Store.Tables.{InvoiceRow, ObservationRow, EventRow, Tables}
use btcpay_gate.Payments.Store.Ops.{or_empty}
use btcpay_gate.Payments.Store.Spec.{next_status}
use btcpay_gate.Monitor.{poll}
use btcpay_gate.Webhook.{Host, Sender, Request, is_due, event_of_row, sender_run}
use btcpay_gate.Webhook.Accepted.{Accepts, IsSent}
use btcpay_gate.Gateway.{meeting}
use btcpay_gate.Gateway.Sound.{IsSound}

module _ (obs : List ObservationRow) (now : ℤ) where
  -- The event is later than `k` and tells of the invoice, and it is due at once.
  abbrev Tells : ℕ → InvoiceRow → EventRow → Type 0
  Tells k r e =
      (k < e.id)
      × (e.invoice_id ≡ r.id)
      × (e.status ≡ next_status obs now r)
      × (is_due (unix now) e ≡ true)

abbrev answer_or : {A : Type 0} → Result A → A → A
answer_or (ok a) b = a
answer_or (err e) b = b

module _ (h : Host) (s : Sender) where
  -- An event later than `k` of the invoice that tells the status and is marked as delivered, and
  -- whose post hands the HTTP client a request with it that the endpoint accepts.
  abbrev pub IsTold : ℕ → String → Status → EventRow → Type 0
  IsTold k id st e =
      (k < e.id)
      × (e.invoice_id ≡ id)
      × (e.status ≡ st)
      × (e.delivered ≡ pos 1)
      × ((q : Request) × IsSent h s (event_of_row e) q)

  module _ (accepts : Accepts h s) where
    module _ (f : Float64) (node : String → ℤ → Result (SinceBlock f)) (window now : ℤ) (t : Tables)
        (sound : IsSound t) (since : SinceBlock f)
        (answer : node (or_empty t.cursor) window ≡ ok since) (ticks : List ℤ) where
      -- The tables after the poll, and after the sender.
      abbrev polled : Tables
      polled = (poll f node window now (meeting t [])).1.tables

      abbrev posted : Tables
      posted = (sender_run h s ticks (meeting polled [])).tables
