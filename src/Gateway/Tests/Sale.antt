-- ===== src/Gateway/Tests/Sale.antt =====
-- An invoice is requested, paid in one transaction and told to the merchant.
use btcpay_gate.Base.{pos, some, [], ◌∷◌}
use btcpay_gate.Rpc.SinceBlock.{SinceBlock, Transaction}
use btcpay_gate.Payments.Store.Sql.{Conn}
use btcpay_gate.Payments.Tests.StoreRuns.{noon}
use btcpay_gate.Monitor.Tests.{exact, received}
use btcpay_gate.Api.{Response, InvoiceResponse, create_handler}
use btcpay_gate.Api.Tests.{server, order, address_at, clock_text}
use btcpay_gate.Gateway.{meeting}
use btcpay_gate.Gateway.Tests.{first_bill}

abbrev answered : Response × Conn
answered =
    create_handler clock_text server address_at "inv_new" noon (some order) (meeting first_bill [])

abbrev ordered : InvoiceResponse
ordered = record {
  id = "inv_new";
  address = "bc1qnew";
  amount_sat = pos 2500;
  paid_sat = pos 0;
  required_conf = pos 1;
  confirmations = pos 0;
  status = "pending";
  created_at = "2026-01-01T00:00:00Z";
  expires_at = "2026-01-01T00:00:00Z";
}

abbrev customer : Transaction exact
customer = record (received (pos 1)) { address = "bc1qnew"; amount_btc = pos 2500 }

abbrev customer_paid : SinceBlock exact
customer_paid = record { transactions = customer ∷ []; removed = []; last_block = "00ff" }
