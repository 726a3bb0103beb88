-- ===== src/Gateway/Tests/Depth.antt =====
-- A bill of two confirmations, and a payment that is reported two blocks deep.
use btcpay_gate.Base.{pos, ◌≤ℤ◌, ◌≡◌, refl, inl, arith, [], All}
use btcpay_gate.Payments.State.{confirmed}
use btcpay_gate.Payments.Store.Tables.{Tables, empty_tables, insert_invoice}
use btcpay_gate.Payments.Store.Sql.{statement}
use btcpay_gate.Payments.Store.Ops.{create_invoice, invoice_row, apply}
use btcpay_gate.Payments.Tests.StoreRuns.{noon, paid_up}
use btcpay_gate.Gateway.{meeting, IsKnown, applies, Reach, next}
use btcpay_gate.Gateway.Depth.{threshold_in_reach}
use btcpay_gate.Gateway.Tests.{first_bill, bill_stored}

abbrev paid_bill : Tables
paid_bill = (apply paid_up noon (meeting first_bill [])).1.tables

bill-IsKnown : IsKnown first_bill "inv_a"
unfolding create_invoice statement insert_invoice invoice_row
bill-IsKnown = inl refl

abbrev bill_paid : Reach empty_tables paid_bill
bill_paid = next bill_stored (applies paid_up noon [] (bill-IsKnown, tt) refl)

threshold_in_reach_example :
    All (λ x. x.status ≡ confirmed → x.required_conf ≤ℤ pos 2) paid_bill.invoices
threshold_in_reach_example =
    threshold_in_reach (pos 2) (omega arith) paid_bill bill_paid ((tt, tt), (omega arith, tt))
