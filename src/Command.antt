-- ===== src/Command.antt =====
-- cmd/paygate/main.go: the configuration that the process accepts.
pub mod Startup
pub mod Core
pub mod Keeping
pub mod Ready
pub mod Ending
pub mod Tests
use btcpay_gate.Base.{
  ◌*◌, ℤ, pos, ◌≡◌, refl, sym, ◌≢◌, ◌↔◌, ◌⊎◌, inl, inr, Bool, true, false, not, ◌&&◌, ◌||◌, Option,
  none, some, String, ◌==◌, arith, Bool-cases, eq_iff, if◌then◌else◌,
}
use btcpay_gate.Time.{second}
use btcpay_gate.Errors.{message, Result, ok, err}
use btcpay_gate.Health.{default_max_poll_age}

pub record Config : Type 0 where
  pub rpc_url : String
  pub rpc_user : String
  pub rpc_password : String
  pub wallet_name : String
  pub descriptor : String
  pub db_path : String
  pub listen : String
  pub metrics_listen : String
  pub webhook_url : String
  pub webhook_secret : String
  pub poll_interval : ℤ
  pub max_poll_age : ℤ
  pub invoice_ttl : ℤ
  pub required_conf : ℤ
  pub address_gap : ℤ

-- `os.Getenv`, `strconv.Atoi` and `time.ParseDuration` are parameters.
module _ (getenv : String → String) (atoi parse_duration : String → Option ℤ) where
  -- `env`.
  unfoldable pub env : String → String → String
  env key default = if getenv key == "" then default else getenv key

  abbrev or_default : ℤ → Option ℤ → ℤ
  or_default default none = default
  or_default default (some n) = n

  -- `number` and `duration`: what does not parse reads as the default.
  unfoldable pub number : String → ℤ → ℤ
  number key default = if getenv key == "" then default else or_default default (atoi (getenv key))

  unfoldable pub duration : String → ℤ → ℤ
  duration key default =
      if getenv key == "" then default else or_default default (parse_duration (getenv key))

  -- The literal of `loadConfig`.
  abbrev pub read_config : Config
  read_config = record {
    rpc_url = env "BITCOIND_RPC_URL" "http://127.0.0.1:18443";
    rpc_user = env "BITCOIND_RPC_USER" "";
    rpc_password = env "BITCOIND_RPC_PASSWORD" "";
    wallet_name = env "WALLET_NAME" "payments";
    descriptor = env "WALLET_DESCRIPTOR" "";
    db_path = env "DB_PATH" "paygate.db";
    listen = env "LISTEN_ADDR" ":8080";
    metrics_listen = env "METRICS_LISTEN_ADDR" "";
    webhook_url = env "WEBHOOK_URL" "";
    webhook_secret = env "WEBHOOK_SECRET" "";
    poll_interval = duration "POLL_INTERVAL" (pos (10 * second));
    max_poll_age = duration "HEALTH_MAX_POLL_AGE" default_max_poll_age;
    invoice_ttl = duration "INVOICE_TTL" (pos (1800 * second));
    required_conf = number "REQUIRED_CONFIRMATIONS" (pos 2);
    address_gap = number "ADDRESS_GAP" (pos 1000);
  }

  -- The checks of `loadConfig`, in their order.
  unfoldable pub checked_config : Config → Result Config
  checked_config c =
      if c.descriptor == ""
      then err (
          message
            "WALLET_DESCRIPTOR is required: a ranged public descriptor, e.g. wpkh([fp/84h/1h/0h]tpub.../0/*)")
      else if c.rpc_user == "" || c.rpc_password == ""
      then err (message "BITCOIND_RPC_USER and BITCOIND_RPC_PASSWORD are required")
      else if not (c.webhook_url == "") && c.webhook_secret == ""
      then err (message "WEBHOOK_SECRET is required when WEBHOOK_URL is set")
      else ok c

  -- `loadConfig`.
  unfoldable pub load_config : Result Config
  load_config = checked_config read_config

  -- A configuration is accepted as it was read.
  abbrev pub Accepts : Config → Result Config → Type 0
  Accepts c (ok d) = d ≡ c
  Accepts c (err e) = ⊥

  env_blank : (key : String) → env key "" ≡ getenv key
  unfolding env
  env_blank key = elim (Bool-cases (getenv key == "")) [
    | inl blank ↦ rw blank (sym ((eq_iff (getenv key) "").0 blank))
    | inr filled ↦ rw filled refl
  ]

  checked_config_iff :
      (c : Config)
      → Accepts c (checked_config c) ↔ (
          (c.descriptor ≢ "")
          × (c.rpc_user ≢ "")
          × (c.rpc_password ≢ "")
          × ((c.webhook_url ≡ "") ⊎ (c.webhook_secret ≢ "")))
  unfolding checked_config
  checked_config_iff c = ground (
    arith,
    eq_iff c.descriptor "",
    eq_iff c.rpc_user "",
    eq_iff c.rpc_password "",
    eq_iff c.webhook_url "",
    eq_iff c.webhook_secret "",
  )

  -- `loadConfig` accepts the environment, as it was read, exactly when the descriptor, the user
  -- and the password are set, and the secret too if there is a webhook: callbacks are never left
  -- unsigned.
  pub load_config_iff : Accepts read_config load_config ↔ (
      (getenv "WALLET_DESCRIPTOR" ≢ "")
      × (getenv "BITCOIND_RPC_USER" ≢ "")
      × (getenv "BITCOIND_RPC_PASSWORD" ≢ "")
      × ((getenv "WEBHOOK_URL" ≡ "") ⊎ (getenv "WEBHOOK_SECRET" ≢ "")))
  load_config_iff =
      rw
        (
          ← env_blank "WALLET_DESCRIPTOR",
          ← env_blank "BITCOIND_RPC_USER",
          ← env_blank "BITCOIND_RPC_PASSWORD",
          ← env_blank "WEBHOOK_URL",
          ← env_blank "WEBHOOK_SECRET",
        )
        (unfold load_config in checked_config_iff read_config)
