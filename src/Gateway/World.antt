-- ===== src/Gateway/World.antt =====
-- Database, wallet and node together: what `createInvoice` of internal/api, `Poll` of
-- internal/monitor and `DeliverDue` of internal/webhook make of them, one after the other.
use btcpay_gate.Base.{ℤ, List, [], ◌∷◌, Option, none, some, String}
use btcpay_gate.Errors.{Result, ok, err}
use btcpay_gate.Payments.Store.Tables.{EventRow, Tables}
use btcpay_gate.Payments.Store.Sql.{Conn}
use btcpay_gate.Payments.Store.Ops.{next_deriv_index}
use btcpay_gate.Wallet.{Node, Wallet, address_at}
use btcpay_gate.Webhook.{Host, Sender, deliver_one}
use btcpay_gate.Api.{Server, CreateRequest, Checked, refused, terms, checked, create_handler}
use btcpay_gate.Rpc.Amounts.{Float64}
use btcpay_gate.Rpc.SinceBlock.{SinceBlock}
use btcpay_gate.Monitor.{poll}
use btcpay_gate.Gateway.{meeting}

-- What the process does next: it answers a request for an invoice, polls, or records a post.
pub data Task : Type 1 where
  issues : Server → String → ℤ → Option CreateRequest → Task
  looks : (f : Float64) → (String → ℤ → Result (SinceBlock f)) → ℤ → ℤ → Task
  records : Host → Sender → EventRow → Task

-- The database, the wallet and the node.
pub record World (N : Type 0) : Type 0 where
  pub tables : Tables
  pub wallet : Wallet
  pub node : N

module _ {N : Type 0} (node : Node N) where
  -- The call of `AddressAt` that `createInvoice` comes to, if it does.
  abbrev pub derivation : Result ℤ × Conn → Wallet → N → Wallet × N
  derivation (ok index, c) w n = let (r, w', n') = address_at node index w n in (w', n')
  derivation (err e, c) w n = (w, n)

  abbrev pub wallet_after : Checked → Conn → Wallet → N → Wallet × N
  wallet_after (refused text) c w n = (w, n)
  wallet_after (terms conf ttl) c w n = derivation (next_deriv_index c) w n

  abbrev pub asked : Server → Option CreateRequest → Conn → Wallet → N → Wallet × N
  asked s none c w n = (w, n)
  asked s (some req) c w n = wallet_after (checked s req) c w n

module _ {N : Type 0} (node : Node N) (rfc3339 : ℤ → String) where
  -- One task, with the faults of the engine that it meets.
  abbrev pub serve : Task → List (Option String) → World N → World N
  serve (issues s id now body) fs x =
      let c = meeting x.tables fs in
      let (w, n) = asked node s body c x.wallet x.node in
      record {
        tables =
            (create_handler rfc3339 s (λ i. (address_at node i x.wallet x.node).0) id now body
              c).1.tables;
        wallet = w;
        node = n;
      }
  serve (looks f answer window now) fs x = record x {
    tables = (poll f answer window now (meeting x.tables fs)).1.tables;
  }
  serve (records h s p) fs x = record x {
    tables = (deliver_one h s p (meeting x.tables fs)).1.tables;
  }

  abbrev pub serve_all : List (Task × List (Option String)) → World N → World N
  serve_all [] x = x
  serve_all ((task, fs) ∷ tasks) x = serve_all tasks (serve task fs x)

-- The world of a process that has just opened its wallet.
abbrev pub opening : {N : Type 0} → Tables → Wallet → N → World N
opening t w n = record { tables = t; wallet = w; node = n }
