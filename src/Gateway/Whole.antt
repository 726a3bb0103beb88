-- ===== src/Gateway/Whole.antt =====
-- The whole process of cmd/paygate: from the environment to the invoices.
use btcpay_gate.Base.{
  ℕ, ◌+◌, ◌^◌, ℤ, pos, ◌+ℤ◌, ◌<ℤ◌, ◌≡◌, subst, Bool, List, Option, String, length,
}
use btcpay_gate.Payments.Store.Tables.{Tables}
use btcpay_gate.Errors.{ok}
use btcpay_gate.Rpc.Amounts.{Float64}
use btcpay_gate.Rpc.Calls.{HttpClient, Json}
use btcpay_gate.Wallet.{Node}
use btcpay_gate.Command.Core.{IsCore, behind}
use btcpay_gate.Command.Keeping.{node_of-KeepsWord}
use btcpay_gate.Wallet.Watched.{KeepsWord}
use btcpay_gate.Command.{read_config}
use btcpay_gate.Command.Startup.{Process, client_of, node_of, start}
use btcpay_gate.Command.Ready.{Started, start-Started}
use btcpay_gate.Gateway.World.{Task}
use btcpay_gate.Gateway.Issued.{IsIndexed, AllWatched, opening-AllWatched}

module _ (getenv : String → String) (atoi parse_duration : String → Option ℤ) {f : Float64}
    {N : Type 0} (http_client : ℤ → HttpClient f N) (json : Json f)
    (contains contains_lower : String → String → Bool) (quote : String → String) (d : String)
    (watched : N → ℤ) (address : ℤ → String)
    (core : IsCore json
      (behind (client_of http_client (read_config getenv atoi parse_duration)))
      (read_config getenv atoi parse_duration).descriptor
      d
      watched
      address) where
  -- The client that the environment configures, as the node of the wallet.
  abbrev pub shop_node : Node N
  shop_node =
      node_of json contains contains_lower quote
        (client_of http_client (read_config getenv atoi parse_duration))

  abbrev pub shop_word : KeepsWord shop_node d watched address
  shop_word =
      node_of-KeepsWord json (client_of http_client (read_config getenv atoi parse_duration))
        (read_config getenv atoi parse_duration).descriptor d watched address core contains
        contains_lower quote

  -- Bitcoin-core, behind the HTTP client, answers as it documents, for a wallet whose only active
  -- receiving descriptor is the configured one, completed. Then once `run` came to its goroutines
  -- over a sound database with indexes below some number, each of which has its address and lies in
  -- the range that bitcoin-core watches, after any requests, polls and posts, whatever the engine and
  -- the node fail, the database is sound and each invoice has the address of the descriptor at its
  -- index, which lies in the range that bitcoin-core watches, as long as that number, the number of
  -- tasks and the wallet's step fit an int together.
  pub process_watches :
      (rfc3339 : ℤ → String) (open_db create_schema : String → Option String) (n n' : N)
      (p : Process f N)
      → start json contains contains_lower quote http_client open_db create_schema getenv atoi
          parse_duration n
        ≡ (ok p, n')
      → (k : ℕ) (t : Tables) → IsIndexed shop_node rfc3339 d watched address shop_word k t n'
      → (tasks : List (Task × List (Option String)))
      → pos (k + length tasks) +ℤ p.wallet.step <ℤ pos (2 ^ 63)
      → AllWatched shop_node rfc3339 d watched address shop_word t p.wallet n' tasks
  process_watches rfc3339 open_db create_schema n n' p starts k t h tasks room =
      let ready =
        subst
          (Started getenv atoi parse_duration http_client json contains contains_lower quote d
            watched address core)
          starts
          (start-Started getenv atoi parse_duration http_client json contains contains_lower quote d
            watched address core open_db create_schema n) in
      opening-AllWatched shop_node rfc3339 d watched address shop_word k t p.wallet n' tasks h
        ready.step ready.covered ready.its ready.watches room
