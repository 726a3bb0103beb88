-- ===== src/Monitor/Unloaded.antt =====
-- From the node's answer to the health report: internal/rpc, internal/monitor and internal/health.
use btcpay_gate.Base.{
  ℤ, negsuc, eqb_ℤ_iff, ◌≡◌, refl, sym, ap, ◌∙◌, ◌↔◌, inl, inr, Bool-cases, true, false, Option,
  none, some, [], ◌∷◌, String, arith,
}
use btcpay_gate.Errors.{as_rpc_error, Result, ok, err}
use btcpay_gate.Rpc.Amounts.{Float64}
use btcpay_gate.Rpc.SinceBlock.{SinceBlock}
use btcpay_gate.Rpc.Codes.{has_code, is_wallet_not_loaded}
use btcpay_gate.Rpc.Client.{Exchange, carried, IsDelivered, IsRefused, call_code_iff}
use btcpay_gate.Rpc.Calls.{Client, Json, str, int, flag, carriage, exchange_of, list_since_block}
use btcpay_gate.Payments.Store.Sql.{Conn}
use btcpay_gate.Payments.Store.Runs.{IsFaulty}
use btcpay_gate.Payments.Store.Ops.{or_empty}
use btcpay_gate.Payments.Store.Loop.{UniqueIds}
use btcpay_gate.Health.{State, no_wallet, report, poll_succeeded, poll_failed}
use btcpay_gate.Monitor.{health_reporter, poll, reporting, poll_and_report}
use btcpay_gate.Monitor.Run.{reported}
use btcpay_gate.Monitor.Poll.{Polled, poll_all_or_nothing}

-- A chain of errors with the code -18 in it.
abbrev IsMissing : Option (ℤ × String) → Type 0
IsMissing o = (text : String) × (o ≡ some (negsuc 17, text))

abbrev code_of : Option (ℤ × String) → ℤ
code_of none = negsuc 0
code_of (some e) = e.0

has_code_iff : (o : Option (ℤ × String)) → (has_code (negsuc 17) o ≡ true) ↔ IsMissing o
has_code_iff none = (λ h. cc, λ h. cc)
has_code_iff (some (code, text)) = (
  λ h. (text, ap (λ (x : ℤ). some (x, text)) ((eqb_ℤ_iff code (negsuc 17)).0 h)),
  λ h. (eqb_ℤ_iff code (negsuc 17)).1 (ap code_of h.1),
)

reason_iff : (now : ℤ) (s : State) → ((report now s).reason ≡ no_wallet) ↔ (s.wallet_loaded ≡ false)
unfolding report
reason_iff now s = ground (arith)

module _ (f : Float64) where
  reporting_iff :
      (clock : ℤ) (r : Result (Unit {0})) (s : State)
      → s.wallet_loaded ≡ true
      → ((reporting f health_reporter clock r s).wallet_loaded ≡ false) ↔ IsMissing (carried r)
  unfolding poll_succeeded poll_failed is_wallet_not_loaded
  reporting_iff clock (ok a) s loaded = (λ h. cc, λ h. cc)
  reporting_iff clock (err e) s loaded =
      let k = has_code_iff (as_rpc_error e) in
      elim (Bool-cases (has_code (negsuc 17) (as_rpc_error e))) [
        | inl missing ↦ rw missing (λ h. k.0 missing, λ h. refl)
        | inr other ↦ rw other (λ h. cc, λ h. absurd (clash (sym (k.1 h) ∙ other)))
      ]
    where
      clash : true ≡ false → ⊥
      clash x = cc

  -- Where the engine fails nothing, a poll carries the error that the node's answer carries.
  Polled-carried :
      (node : String → ℤ → Result (SinceBlock f)) (window now : ℤ) (c : Conn)
      (r : Result (Unit {0}) × Conn)
      → (IsFaulty c.faults → ⊥)
      → Polled f node window now c r
      → carried r.0 ≡ carried (node (or_empty c.tables.cursor) window)
  Polled-carried node window now c (ok a, c') calm h = sym (ap carried h.1)
  Polled-carried node window now c (err e, c') calm (same, inl fault) = absurd (calm fault)
  Polled-carried node window now c (err e, c') calm (same, inr answer) = sym (ap carried answer)

module _ {f : Float64} {N : Type 0} (json : Json f) (client : Client f N) (n : N) where
  -- The client as the node of a monitor, in one state of bitcoin-core.
  abbrev pub node_at : String → ℤ → Result (SinceBlock f)
  node_at hash window = (list_since_block json client hash window n).0

  -- What becomes of the listsinceblock that a poll posts.
  abbrev pub listing : Conn → ℤ → Exchange (SinceBlock f)
  listing c window =
      exchange_of json json.since_block
        (carriage json client "listsinceblock"
          (str (or_empty c.tables.cursor) ∷ int window ∷ flag true ∷ flag true ∷ []) n).0

  -- bitcoin-core was reached and answered that it has no such wallet open.
  abbrev pub IsUnloaded : Exchange (SinceBlock f) → Type 0
  IsUnloaded x = (text : String) × IsDelivered x × IsRefused (negsuc 17, text) x.response

  -- Where the engine fails nothing and the wallet was thought to be loaded: after a poll through
  -- the client the report says that the wallet is gone exactly when bitcoin-core was reached and
  -- answered the poll's listsinceblock with the code -18.
  pub no_wallet_iff :
      (interval window now clock later : ℤ) (c : Conn) (h : State)
      → UniqueIds c.tables.invoices
      → (IsFaulty c.faults → ⊥)
      → h.wallet_loaded ≡ true
      → ((report later
            (poll_and_report f (reported interval window) node_at now clock (c, h)).2).reason
          ≡ no_wallet)
        ↔ IsUnloaded (listing c window)
  unfolding poll_and_report
  no_wallet_iff interval window now clock later c h unique calm loaded =
      let r = poll f node_at window now c in
      let same =
        Polled-carried f node_at window now c r calm
          (poll_all_or_nothing f node_at window now c unique) in
      let code_iff = call_code_iff "listsinceblock" (listing c window) in
      let a = reason_iff later (reporting f health_reporter clock r.0 h) in
      let b = reporting_iff f clock r.0 h loaded in
      (
        λ x.
            (let m = b.0 (a.0 x) in
              let d = (code_iff (negsuc 17, m.0)).0 (sym same ∙ m.1) in (m.0, d.0, d.1)),
        λ y. a.1 (b.1 (y.0, same ∙ (code_iff (negsuc 17, y.0)).1 (y.1, y.2))),
      )
