-- ===== src/Gateway/Tests/Lives.antt =====
-- A payment on its way from the node to the merchant, and what the outbox tells after a day.
use btcpay_gate.Base.{pos, ◌≡◌, List, [], ◌∷◌, All, Option, String}
use btcpay_gate.Errors.{ok}
use btcpay_gate.Rpc.SinceBlock.{SinceBlock}
use btcpay_gate.Payments.State.{confirmed}
use btcpay_gate.Payments.State.Totals.{received}
use btcpay_gate.Payments.Store.Tables.{empty_tables}
use btcpay_gate.Payments.Store.Covered.{AreCovering}
use btcpay_gate.Payments.Tests.StoreRuns.{noon}
use btcpay_gate.Monitor.{default_window}
use btcpay_gate.Monitor.Tests.{exact}
use btcpay_gate.Monitor.Tests
use btcpay_gate.Webhook.Tests.{kind_host, sender}
use btcpay_gate.Gateway.Mirror.{IsMirrored}
use btcpay_gate.Gateway.Lifecycle.{IsLived}
use btcpay_gate.Gateway.Lawful.{WasPaid, run-IsLived, run-WasPaid}
use btcpay_gate.Gateway.Runs.{run}
use btcpay_gate.Gateway.Paths.{Operation, polls, sends}
use btcpay_gate.Gateway.Tests.{request}

-- A request, a poll that finds it paid one block deep, and a pass of the sender.
abbrev pub paid_day : List (Operation × List (Option String))
paid_day =
    (request, [])
    ∷ (
      polls exact
          (λ hash window. ok (record {
            transactions =
                record (Tests.received (pos 1)) { address = "bc1qnew"; amount_btc = pos 2500 } ∷ [];
            removed = [];
            last_block = "00ff";
          }))
          default_window noon,
      [],
    )
    ∷ (sends kind_host sender noon, [])
    ∷ []

run-IsLived_example :
    let t = run paid_day empty_tables in
    All (λ r. IsLived t.events r × IsMirrored t.events r) t.invoices
run-IsLived_example = run-IsLived paid_day

run-WasPaid_example :
    let t = run paid_day empty_tables in
    All (λ r. AreCovering t.events r × (r.status ≡ confirmed → WasPaid t.events r)) t.invoices
run-WasPaid_example = run-WasPaid paid_day

-- The payment of the bill, two blocks deep.
abbrev pub paid : SinceBlock exact
paid = record { transactions = Tests.received (pos 2) ∷ []; removed = []; last_block = "00ff" }
