-- ===== src/Command/Startup.antt =====
-- cmd/paygate/main.go: `main` and `run`, from the configuration to the end of the process.
use btcpay_gate.Base.{ℤ, pos, Bool, Option, none, some, [], ◌∷◌, String, ◌==◌, if◌then◌else◌}
use btcpay_gate.Errors.{message, wrapped, Result, ok, err}
use btcpay_gate.Health
use btcpay_gate.Rpc.Amounts.{Float64}
use btcpay_gate.Rpc.Calls.{
  Client, with_wallet, HttpClient, Json, BlockchainInfo, DescriptorInfo, get_blockchain_info,
  create_watch_only_wallet, get_descriptor_info, import_ranged_descriptor, derive_addresses,
  active_range_end,
}
use btcpay_gate.Rpc.Calls
use btcpay_gate.Wallet.{Node, Wallet, open_wallet}
use btcpay_gate.Monitor.{Monitor, health_reporter, with_health}
use btcpay_gate.Monitor
use btcpay_gate.Webhook.{Sender}
use btcpay_gate.Webhook
use btcpay_gate.Api.{Server}
use btcpay_gate.Api
use btcpay_gate.Command.{Config, load_config}

-- What `run` starts its goroutines with; the metrics have a listener only if they are asked for.
pub record Process (f : Float64) (N : Type 0) : Type 0 where
  pub config : Config
  pub client : Client f N
  pub wallet : Wallet
  pub health : Health.State
  pub monitor : Monitor Health.State
  pub sender : Sender
  pub api : Server
  pub listen : String
  pub metrics_listen : Option String

-- `newSender`.
abbrev pub new_sender : Config → Sender
new_sender cfg = Webhook.new (record {
  url = cfg.webhook_url;
  secret = cfg.webhook_secret;
  interval = pos 0;
  max_tries = pos 0;
})

module _ {f : Float64} {N : Type 0} (http_client : ℤ → HttpClient f N) where
  -- `rpc.New`, as `run` calls it.
  abbrev pub client_of : Config → Client f N
  client_of cfg =
      Calls.new http_client cfg.rpc_url cfg.rpc_user cfg.rpc_password
        (with_wallet cfg.wallet_name ∷ [])

  -- The parts that `run` makes once wallet and store are open.
  abbrev pub wired : Config → Wallet → Process f N
  wired cfg w = record {
    config = cfg;
    client = client_of cfg;
    wallet = w;
    health = Health.new cfg.max_poll_age;
    monitor = with_health (some health_reporter) (Monitor.new cfg.poll_interval);
    sender = new_sender cfg;
    api = Api.new (record { default_conf = cfg.required_conf; default_ttl = cfg.invoice_ttl });
    listen = cfg.listen;
    metrics_listen = if cfg.metrics_listen == "" then none else some cfg.metrics_listen;
  }

-- `payments.Open`, on the errors of the driver when it opens a path and creates the schema.
abbrev pub open_store :
    (String → Option String) → (String → Option String) → String → Result (Unit {0})
open_store open_db create_schema dsn = elim (open_db dsn) [
  | some text ↦ err (message text)
  | none ↦ elim (create_schema dsn) [
    | some text ↦ err (wrapped "schema" (message text))
    | none ↦ ok tt
  ]
]

module _ {f : Float64} {N : Type 0} (json : Json f)
    -- `strings.Contains`, the same on the first text in lower case, and the verb %q.
    (contains contains_lower : String → String → Bool) (quote : String → String) where
  abbrev pub checksummed : Result DescriptorInfo × N → Result String × N
  checksummed (ok info, n) = (ok info.descriptor, n)
  checksummed (err e, n) = (err e, n)

  -- The client as the node of the wallet.
  abbrev pub node_of : Client f N → Node N
  node_of c = record {
    create_watch_only_wallet = create_watch_only_wallet json c contains_lower;
    get_descriptor_info = λ d n. checksummed (get_descriptor_info json c d n);
    import_ranged_descriptor = import_ranged_descriptor json c;
    derive_addresses = derive_addresses json c;
    active_range_end = active_range_end json c;
  }

  module _ (http_client : ℤ → HttpClient f N) (open_db create_schema : String → Option String) where
    abbrev pub store_opened : Config → Wallet → Result (Unit {0}) → Result (Process f N)
    store_opened cfg w (ok a) = ok (wired http_client cfg w)
    store_opened cfg w (err e) = err e

    abbrev pub wallet_opened : Config → Result Wallet × N → Result (Process f N) × N
    wallet_opened cfg (ok w, n) =
        (store_opened cfg w (open_store open_db create_schema cfg.db_path), n)
    wallet_opened cfg (err e, n) = (err e, n)

    abbrev pub connected : Config → Result BlockchainInfo × N → Result (Process f N) × N
    connected cfg (ok info, n) = wallet_opened cfg (
        open_wallet (node_of (client_of http_client cfg)) contains quote
          (record {
            descriptor = cfg.descriptor;
            wallet_name = cfg.wallet_name;
            initial_range = cfg.address_gap;
          })
          n)
    connected cfg (err e, n) = (err e, n)

    abbrev pub configured : Result Config → N → Result (Process f N) × N
    configured (ok cfg) n = connected cfg (get_blockchain_info json (client_of http_client cfg) n)
    configured (err e) n = (err e, n)

    -- `run` up to its goroutines.
    unfoldable pub start :
        (String → String) → (String → Option ℤ) → (String → Option ℤ) → N → Result (Process f N) × N
    start getenv atoi parse_duration n = configured (load_config getenv atoi parse_duration) n
