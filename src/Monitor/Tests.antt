-- ===== src/Monitor/Tests.antt =====
-- A poll on concrete data: a payment arrives, and then leaves the chain.
use btcpay_gate.Base.{
  ◌≢◌, ap, ◌∙◌, ℕ, suc, none, some, inl, ℤ, pos, negsuc, ◌≡◌, refl, [], ◌∷◌, String, true, false,
  All, ◌≤ℤ◌, ◌<ℤ◌, ◌↔◌, ◌⊎◌, ◌+ℤ◌,
}
use btcpay_gate.Base.Word.{wrap64}
use btcpay_gate.Time.{of_unix, unix}
use btcpay_gate.Errors.{Result, ok}
use btcpay_gate.Rpc.Calls.{Client, new, with_wallet, HttpClient, Carriage, Json}
use btcpay_gate.Health.{State, report, no_wallet}
use btcpay_gate.Monitor.Run.{
  Look, logged, ticking, monitor_run, reported, history, monitor_run_healthy_iff,
}
use btcpay_gate.Monitor.Outage.{outage_costs_nothing}
use btcpay_gate.Payments.Store.Spec.{settled}
use btcpay_gate.Monitor.Mapping.{update_of}
use btcpay_gate.Health.History.{LastGood}
use btcpay_gate.Time.{sub_time, zero_time}
use btcpay_gate.Errors.{err, message}
use btcpay_gate.Health
use btcpay_gate.Monitor.Unloaded.{node_at, listing, IsUnloaded, no_wallet_iff}
use btcpay_gate.Rpc.Amounts.{Float64, btc_to_sat}
use btcpay_gate.Rpc.SinceBlock.{Transaction, SinceBlock, amount, is_receive}
use btcpay_gate.Payments.State.{
  decide, decide_empty, decide_from, decide_live, collect, tally, terminal,
}
use btcpay_gate.Payments.Store.Tables.{
  insert_event, open_rows, rows_of, set_status, upsert, same_key, excluded,
}
use btcpay_gate.Payments.Store.Sql.{Conn, query, exec, attempt, transaction, ◌>>=◌}
use btcpay_gate.Payments.Store.Ops.{
  apply, upsert_all, open_invoices, recompute, recompute_one, record_change, save_cursor, cursor,
  observations_tx, invoice_row, scan_invoice, scan_observation, observation_row, invoice_by_address,
  or_empty,
}
use btcpay_gate.Payments.Tests.{bill}
use btcpay_gate.Payments.Tests.StoreRuns.{shop, noon, shop-IsValid}
use btcpay_gate.Monitor.{default_window, observed, observation, observations, poll, poll_and_report}
use btcpay_gate.Monitor.Mapping.{batch}
use btcpay_gate.Monitor.Poll.{Polled, poll_all_or_nothing}
use btcpay_gate.Monitor.Gone.{IsContested, observed_removed_iff}
use btcpay_gate.Monitor.Known.{Learns, poll-Learns}
use btcpay_gate.Monitor.Removed.{IsMarked, removed_has_last_word}

-- Amounts that are whole numbers of satoshi to begin with.
abbrev pub exact : Float64
exact = record {
  Value = ℤ;
  mul = λ x y. x;
  e8 = pos 100_000_000;
  round = λ x. x;
  to_int64 = λ x. x;
}

abbrev pub received : ℤ → Transaction exact
received confirmations = record {
  address = bill.address;
  category = "receive";
  amount_btc = bill.amount_sat;
  confirmations = confirmations;
  txid = "f00d";
  block_hash = "00ff";
  block_height = pos 100;
  vout = pos 0;
  time = pos 1100;
  wallet_conflicts = [];
}

-- The transaction is in both lists.
abbrev pub reorganised : SinceBlock exact
reorganised = record {
  transactions = received (pos 2) ∷ [];
  removed = received (negsuc 0) ∷ [];
  last_block = "00ff";
}

abbrev pub node : String → ℤ → Result (SinceBlock exact)
node hash window = ok reorganised

abbrev polled : Conn
polled = (poll exact node default_window noon shop).1

poll_succeeds : poll exact node default_window noon shop ≡ (ok tt, polled)
unfolding poll observations observation observed apply upsert_all open_invoices recompute
    recompute_one record_change save_cursor cursor observations_tx invoice_row scan_invoice
    scan_observation observation_row invoice_by_address transaction attempt query exec ◌>>=◌
    open_rows rows_of set_status upsert same_key excluded insert_event decide decide_from
    decide_live collect tally terminal wrap64 ◌+ℤ◌ is_receive amount btc_to_sat decide_empty of_unix
    unix
poll_succeeds = refl

poll_all_or_nothing_example :
    Polled exact node default_window noon shop (poll exact node default_window noon shop)
poll_all_or_nothing_example = poll_all_or_nothing exact node default_window noon shop (tt, tt)

removed_has_last_word_example :
    (since : SinceBlock exact) × (node (or_empty shop.tables.cursor) default_window ≡ ok since)
    × All
        (λ u. All (IsMarked (observation_row u)) polled.tables.observations)
        (batch exact shop.tables since.removed true)
removed_has_last_word_example =
    removed_has_last_word exact node default_window noon shop polled shop-IsValid poll_succeeds

poll-Learns_example :
    (since : SinceBlock exact) × (node (or_empty shop.tables.cursor) default_window ≡ ok since)
    × Learns exact shop.tables since polled.tables
poll-Learns_example = poll-Learns exact node default_window noon shop polled (tt, tt) poll_succeeds

-- Seven blocks deep, and the wallet still knows the transaction that it replaced.
abbrev replacement : Transaction exact
replacement = record (received (pos 7)) { wallet_conflicts = "beef" ∷ [] }

observed_removed_iff_example :
    let u = observed exact replacement false bill in
    (u.invoice_id ≡ bill.id)
    × (pos 0 ≤ℤ u.observation.confirmations)
    × ((u.observation.removed ≡ true)
        ↔ ((false ≡ true) ⊎ (pos 7 <ℤ pos 0) ⊎ IsContested replacement.wallet_conflicts))
observed_removed_iff_example = observed_removed_iff exact replacement false bill

-- The node restarted without its wallet.
abbrev pub walletless : Carriage
walletless = record {
  marshalled = none;
  built = none;
  sent = none;
  read = none;
  status = pos 500;
  raw = [];
}

abbrev pub restarted : ℤ → HttpClient exact ℕ
restarted timeout = record { post = λ url user password req n. (walletless, suc n) }

abbrev unread : {A : Type 0} → String → String ⊎ A
unread raw = inl "unexpected end of JSON input"

abbrev pub unread_json : Json exact
unread_json = record {
  text = λ b. "";
  response = λ b. some (some (negsuc 17, "Requested wallet does not exist"), "null");
  info = unread;
  string = unread;
  strings = unread;
  descriptor_info = unread;
  descriptors = unread;
  import_results = unread;
  since_block = unread;
}

abbrev pub client : Client exact ℕ
client = new restarted "http://127.0.0.1:8332" "gate" "secret" (with_wallet "payments" ∷ [])

abbrev fresh : State
fresh = record { max_age = pos 300; last_success = pos 7; wallet_loaded = true }

no_wallet_iff_example :
    ((report noon
        (poll_and_report exact
          (reported (pos 10) default_window)
          (node_at unread_json client 3)
          noon
          noon
          (shop, fresh)).2).reason
      ≡ no_wallet)
    ↔ IsUnloaded unread_json client 3 (listing unread_json client 3 shop default_window)
no_wallet_iff_example =
    no_wallet_iff unread_json client 3 (pos 10) default_window noon noon noon shop fresh (tt, tt)
      (λ h. h) refl

-- A new health state, with the default limit.
abbrev fresh_state : State
fresh_state = Health.new (pos 0)

abbrev down : Look exact
down = record {
  answer = λ hash window. err (message "connection refused");
  now = noon;
  clock = noon;
}

abbrev up : Look exact
up = record { answer = node; now = noon; clock = noon }

monitor_run_healthy_iff_example :
    ((report noon
        (monitor_run exact
          (reported (pos 10) default_window)
          down
          (up ∷ [])
          (shop, fresh_state)).1).is_ok
      ≡ true)
    ↔ ((t : ℤ) × LastGood t (history exact default_window (down ∷ up ∷ []) shop [])
        × (sub_time noon t ≤ℤ fresh_state.max_age))
monitor_run_healthy_iff_example =
    monitor_run_healthy_iff exact default_window (pos 10) (pos 0) noon down (up ∷ []) shop
      (real, (real, tt))
  where
    real : noon ≢ zero_time
    real h = cc

shop_down :
    poll exact down.answer default_window noon shop ≡ (err (message "connection refused"), shop)
unfolding poll cursor query ◌>>=◌
shop_down = refl

outage_costs_nothing_example :
    (since : SinceBlock exact) × (node (or_empty shop.tables.cursor) default_window ≡ ok since)
    × ((logged exact
          (reported (pos 10) default_window)
          up
          (ticking exact (reported (pos 10) default_window) (down ∷ []) (shop, fresh))).0.tables
        ≡ settled (update_of exact shop.tables since) noon shop.tables)
unfolding poll_and_report
outage_costs_nothing_example =
    outage_costs_nothing exact (reported (pos 10) default_window) (down ∷ []) up shop fresh (tt, tt)
      ((message "connection refused", ap (λ r. r.0) shop_down), tt)
      (ap (λ r. (poll exact node default_window noon r.1).0) shop_down
        ∙ ap (λ r. r.0) poll_succeeds)
