-- ===== src/Gateway/Tests/Keys.antt =====
-- The keys of the outbox after a day on which an invoice was paid, and after the same day again.
use btcpay_gate.Base.{◌+ℤ◌, ◌≡◌, refl, arith}
use btcpay_gate.Base.Word.{wrap64}
use btcpay_gate.Time.{of_unix, unix}
use btcpay_gate.Rpc.Amounts.{btc_to_sat}
use btcpay_gate.Rpc.SinceBlock.{amount, is_receive}
use btcpay_gate.Payments.State.{decide, decide_from, decide_live, collect, tally, terminal}
use btcpay_gate.Payments.Store.Tables.{
  empty_tables, insert_invoice, insert_event, open_rows, rows_of, set_status, upsert, same_key,
  excluded, max_deriv_index,
}
use btcpay_gate.Payments.Store.Sql.{query, exec, attempt, transaction, statement, ◌>>=◌}
use btcpay_gate.Payments.Store.Ops.{
  apply, upsert_all, open_invoices, recompute, recompute_one, record_change, save_cursor, cursor,
  observations_tx, invoice_row, scan_invoice, scan_observation, observation_row, invoice_by_address,
  create_invoice, next_deriv_index,
}
use btcpay_gate.Monitor.{observed, observation, observations, poll}
use btcpay_gate.Webhook.{
  deliver_due, deliver_all, deliver_one, due_batch, update_event, post, mark_delivered,
}
use btcpay_gate.Webhook.Tests.{kind_host, sender}
use btcpay_gate.Api.{create_handler, checked}
use btcpay_gate.Gateway.History.{GoesOn}
use btcpay_gate.Gateway.Runs.{run}
use btcpay_gate.Gateway.Keys.{HasSameKey, HaveOtherKeys, Pairwise, key_names_event}
use btcpay_gate.Gateway.Tests.Lives.{paid_day}

one_event : (run paid_day (run paid_day empty_tables)).last_event_id ≡ 1
unfolding poll observations observation observed apply upsert_all open_invoices recompute
    recompute_one record_change save_cursor cursor observations_tx invoice_row scan_invoice
    scan_observation observation_row invoice_by_address transaction attempt query exec ◌>>=◌
    open_rows rows_of set_status upsert same_key excluded insert_event decide decide_from
    decide_live collect tally terminal wrap64 ◌+ℤ◌ is_receive amount btc_to_sat of_unix unix
    create_handler create_invoice statement insert_invoice next_deriv_index max_deriv_index
    deliver_due deliver_all deliver_one due_batch update_event post mark_delivered checked
one_event = refl

key_names_event_example :
    let t = run paid_day empty_tables in
    GoesOn (HasSameKey kind_host sender) t.events (run paid_day t).events
    × Pairwise (HaveOtherKeys kind_host sender) (run paid_day t).events
key_names_event_example =
    key_names_event kind_host sender paid_day paid_day (omega (arith, one_event))
