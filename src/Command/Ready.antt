-- ===== src/Command/Ready.antt =====
-- What holds of a process that came to its goroutines: cmd/paygate/main.go with internal/rpc,
-- internal/wallet and internal/health.
use btcpay_gate.Base.{
  ℤ, pos, ◌≤ℤ◌, ◌<ℤ◌, ◌≡◌, refl, sym, subst, ap, ◌∙◌, ◌≢◌, ◌⊎◌, Bool, false, Option, String, arith,
}
use btcpay_gate.Errors.{Result, ok, err}
use btcpay_gate.Health
use btcpay_gate.Health.{State, report}
use btcpay_gate.Rpc.Amounts.{Float64}
use btcpay_gate.Rpc.Calls.{HttpClient, Client, Json, BlockchainInfo, get_blockchain_info}
use btcpay_gate.Monitor.{default_window}
use btcpay_gate.Monitor.Run.{reported}
use btcpay_gate.Wallet.{Wallet}
use btcpay_gate.Wallet.Watched.{KeepsWord, Sane}
use btcpay_gate.Command.Core.{IsCore, behind}
use btcpay_gate.Command.Keeping.{node_of-KeepsWord, node_of-canonical}
use btcpay_gate.Wallet.Opening.{IsPublic, Opened, open_wallet-Opened}
use btcpay_gate.Command.{Config, read_config, checked_config, load_config, Accepts, load_config_iff}
use btcpay_gate.Command.Startup.{
  Process, client_of, open_store, node_of, store_opened, wallet_opened, connected, configured,
  start,
}

-- A configuration that was accepted is the one that was read.
abbrev IsOwn : Config → Result Config → Type 0
IsOwn c (ok d) = d ≡ c
IsOwn c (err e) = Unit

unpolled : (m now : ℤ) → (report now (Health.new m)).is_ok ≡ false
unfolding Health.new report
unpolled m now = refl

module _ (getenv : String → String) (atoi parse_duration : String → Option ℤ) where
  checked_config-IsOwn : (c : Config) → IsOwn c (checked_config getenv atoi parse_duration c)
  unfolding checked_config
  checked_config-IsOwn c = ground arith

  -- Everything that is needed is set.
  pub record IsFurnished : Type 0 where
    pub descriptor : getenv "WALLET_DESCRIPTOR" ≢ ""
    pub user : getenv "BITCOIND_RPC_USER" ≢ ""
    pub password : getenv "BITCOIND_RPC_PASSWORD" ≢ ""
    pub signs : (getenv "WEBHOOK_URL" ≡ "") ⊎ (getenv "WEBHOOK_SECRET" ≢ "")

  load_config-IsFurnished :
      load_config getenv atoi parse_duration ≡ ok (read_config getenv atoi parse_duration)
      → IsFurnished
  load_config-IsFurnished h =
      let k = (load_config_iff getenv atoi parse_duration).0 (
        subst (Accepts getenv atoi parse_duration (read_config getenv atoi parse_duration)) (sym h)
          refl) in
      record { descriptor = k.0; user = k.1; password = k.2; signs = k.3 }

  module _ {f : Float64} {N : Type 0} (http_client : ℤ → HttpClient f N) (json : Json f)
      (contains contains_lower : String → String → Bool) (quote : String → String) (d : String)
      (watched : N → ℤ) (address : ℤ → String)
      (core : IsCore json
        (behind (client_of http_client (read_config getenv atoi parse_duration)))
        (read_config getenv atoi parse_duration).descriptor
        d
        watched
        address) where
    abbrev client : Client f N
    client = client_of http_client (read_config getenv atoi parse_duration)

    abbrev word : KeepsWord (node_of json contains contains_lower quote client) d watched address
    word =
        node_of-KeepsWord json client (read_config getenv atoi parse_duration).descriptor d watched
          address core contains contains_lower quote

    -- The process runs on what the environment says; its wallet is ranged, holds no private key
    -- XXs monitor reports to the health state, and
    -- it is not healthy before a poll.
    pub record IsReady (p : Process f N) (n : N) : Type 0 where
      pub config : p.config ≡ read_config getenv atoi parse_duration
      pub set : IsFurnished
      pub is_public : IsPublic contains p.config.descriptor
      pub step : pos 0 <ℤ p.wallet.step
      pub covered : p.wallet.step ≤ℤ p.wallet.gap_end
      pub its : p.wallet.descriptor ≡ d
      pub watches : p.wallet.gap_end ≤ℤ watched n
      pub monitors : p.monitor ≡ reported p.config.poll_interval default_window
      pub unhealthy : (now : ℤ) → (report now p.health).is_ok ≡ false

    abbrev pub Started : Result (Process f N) × N → Type 0
    Started (ok p, n) = IsReady p n
    Started (err e, n) = Unit

    module _ (open_db create_schema : String → Option String) (set : IsFurnished) where
      abbrev cfg : Config
      cfg = read_config getenv atoi parse_duration

      store-Started :
          (w : Wallet) (n : N) (r : Result (Unit {0}))
          → IsPublic contains cfg.descriptor
            × (pos 0 <ℤ w.step)
            × (w.step ≤ℤ w.gap_end)
            × Sane (node_of json contains contains_lower quote client) d watched address word w n
          → Started (
            store_opened json contains contains_lower quote http_client open_db create_schema cfg w
                r,
            n,
          )
      store-Started w n (ok a) h = record {
        config = refl;
        set = set;
        is_public = h.0;
        step = h.1;
        covered = h.2;
        its = h.3.0;
        watches = h.3.1;
        monitors = refl;
        unhealthy = unpolled cfg.max_poll_age;
      }
      store-Started w n (err e) h = tt

      wallet-Started :
          (r : Result Wallet × N)
          → Opened
              (node_of json contains contains_lower quote (client_of http_client cfg))
              d
              watched
              address
              word
              contains
              cfg.descriptor
              r
          → Started (
              wallet_opened json contains contains_lower quote http_client open_db create_schema cfg
                r)
      wallet-Started (ok w, n) h =
          store-Started w n (open_store open_db create_schema cfg.db_path) h
      wallet-Started (err e, n) h = tt

      connected-Started :
          (r : Result BlockchainInfo × N)
          → Started
              (connected json contains contains_lower quote http_client open_db create_schema cfg r)
      connected-Started (ok info, n) = wallet-Started _ (
          open_wallet-Opened
            (node_of json contains contains_lower quote (client_of http_client cfg)) d watched
            address word contains quote
            (record {
              descriptor = cfg.descriptor;
              wallet_name = cfg.wallet_name;
              initial_range = cfg.address_gap;
            })
            core.never_negative
            (node_of-canonical json client cfg.descriptor d watched address core contains
              contains_lower quote)
            n)
      connected-Started (err e, n) = tt

    configured-Started :
        (open_db create_schema : String → Option String) (n : N) (r : Result Config)
        → load_config getenv atoi parse_duration ≡ r
        → IsOwn (read_config getenv atoi parse_duration) r
        → Started
            (configured json contains contains_lower quote http_client open_db create_schema r n)
    configured-Started open_db create_schema n (ok d) h own =
        subst
          (λ c. Started (
            configured json contains contains_lower quote http_client open_db create_schema (ok c)
              n))
          (sym own)
          (connected-Started open_db create_schema (load_config-IsFurnished (h ∙ ap ok own)) (
            get_blockchain_info json
              (client_of http_client (read_config getenv atoi parse_duration)) n))
    configured-Started open_db create_schema n (err e) h own = tt

    -- Bitcoin-core, behind the HTTP client, answers as it documents, for a wallet whose only active
    -- receiving descriptor is the configured one, completed. Then a process that comes to its
    -- goroutines has what it needs: it runs on the environment as read, in which the descriptor, the
    -- user and the password are set, and the secret too if there is a webhook; its wallet comes from
    -- a ranged descriptor without a private key, is of that descriptor completed, and covers a first
    -- range of its addresses, which bitcoin-core watches; its monitor polls at the interval read,
    -- under the default window, and reports to the health state; and at no time does it report to be
    -- healthy before a poll.
    pub start-Started :
        (open_db create_schema : String → Option String) (n : N)
        → Started (
            start json contains contains_lower quote http_client open_db create_schema getenv atoi
              parse_duration n)
    unfolding start
    start-Started open_db create_schema n =
        configured-Started open_db create_schema n (load_config getenv atoi parse_duration) refl
          (unfold load_config in checked_config-IsOwn (read_config getenv atoi parse_duration))
