-- ===== src/Payments/Tests/StoreRuns.antt =====
-- The store on concrete data, and its theorems at inputs that meet their hypotheses.
use btcpay_gate.Base.{ℤ, pos, ◌+ℤ◌, ◌≡◌, refl, none, some, [], ◌∷◌}
use btcpay_gate.Errors.{ok}
use btcpay_gate.Payments.State.{
  pending, confirmed, Invoice, decide, decide_from, decide_live, collect, tally, terminal,
}
use btcpay_gate.Payments.Store.Tables.{
  empty_tables, insert_invoice, insert_event, open_rows, rows_of, set_status, upsert,
  max_deriv_index,
}
use btcpay_gate.Payments.Store.Sql.{Conn, statement, query, exec, attempt, transaction, ◌>>=◌}
use btcpay_gate.Payments.Store.Ops.{
  Update, StatusChange, apply, upsert_all, open_invoices, recompute, recompute_one, record_change,
  save_cursor, observations_tx, invoice_row, scan_invoice, scan_observation, observation_row,
  create_invoice, next_deriv_index, invoice, invoice_by_address,
}
use btcpay_gate.Payments.Store.Apply.{Committed, apply_all_or_nothing}
use btcpay_gate.Payments.Store.Replay.{Unchanged, replay_harmless}
use btcpay_gate.Payments.Store.Outbox.{Queued, outbox_complete}
use btcpay_gate.Payments.Store.Invariant.{IsValid}
use btcpay_gate.Payments.Store.Create.{
  Created, create_invoice_outcome, stored, calm, create_invoice_roundtrip,
}
use btcpay_gate.Time.{second}
use btcpay_gate.Base.Word.{wrap64}
use Prim.Native.Nat.{◌*◌}
use btcpay_gate.Payments.Tests.{bill, payment}

-- One stored invoice, and an engine that fails nothing.
abbrev pub shop : Conn
shop = record { tables = record empty_tables { invoices = invoice_row bill ∷ [] }; faults = [] }

abbrev pub paid_up : Update
paid_up = record {
  observations = record { invoice_id = "inv_a"; observation = payment (pos 2) } ∷ [];
  cursor = "00ff";
}

abbrev pub noon : ℤ
noon = pos (1200 * second)

abbrev settled_change : StatusChange
settled_change = record { invoice_id = "inv_a"; from_status = pending; to_status = confirmed }

abbrev after : Conn
after = (apply paid_up noon shop).1

apply_confirms : apply paid_up noon shop ≡ (ok (settled_change ∷ []), after)
unfolding apply upsert_all open_invoices recompute recompute_one record_change save_cursor
    observations_tx invoice_row scan_invoice scan_observation observation_row transaction attempt
    query exec ◌>>=◌ open_rows rows_of set_status upsert insert_event decide decide_from decide_live
    collect tally terminal wrap64 ◌+ℤ◌
apply_confirms = refl

pub shop-IsValid : IsValid shop.tables
shop-IsValid = record {
  ids = (tt, tt);
  addresses = (tt, tt);
  keys = tt;
  numbered = tt;
  counted = tt;
}

apply_all_or_nothing_example : Committed paid_up noon shop (apply paid_up noon shop)
apply_all_or_nothing_example = apply_all_or_nothing paid_up noon shop (tt, tt)

replay_harmless_example :
    Unchanged
      (record after { faults = none ∷ some "disk I/O error" ∷ [] })
      (apply paid_up noon (record after { faults = none ∷ some "disk I/O error" ∷ [] }))
replay_harmless_example =
    replay_harmless paid_up noon shop after (settled_change ∷ []) (tt, tt) tt apply_confirms
      (none ∷ some "disk I/O error" ∷ [])

outbox_complete_example : Queued noon shop.tables (settled_change ∷ []) after.tables
outbox_complete_example =
    outbox_complete paid_up noon shop after (settled_change ∷ []) (tt, tt) apply_confirms

abbrev second_bill : Invoice
second_bill = record bill { id = "inv_b"; address = "bc1qb"; deriv_index = pos 1 }

abbrev two_bills : Conn
two_bills = (create_invoice second_bill shop).1

create_second : create_invoice second_bill shop ≡ (ok tt, two_bills)
unfolding create_invoice statement insert_invoice invoice_row
create_second = refl

create_invoice_outcome_example : Created second_bill shop (create_invoice second_bill shop)
create_invoice_outcome_example = create_invoice_outcome second_bill shop

create_invoice_roundtrip_example :
    (invoice "inv_b" (calm two_bills) ≡ (ok (stored second_bill), calm two_bills))
    × (invoice_by_address "bc1qb" (calm two_bills) ≡ (ok (stored second_bill), calm two_bills))
create_invoice_roundtrip_example = create_invoice_roundtrip second_bill shop two_bills create_second

next_is_one : (next_deriv_index shop).0 ≡ ok (pos 1)
unfolding next_deriv_index query max_deriv_index wrap64 ◌+ℤ◌ invoice_row
next_is_one = refl
