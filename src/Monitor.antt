-- ===== src/Monitor.antt =====
-- internal/monitor/monitor.go: one poll of the chain, from the stored cursor to the store.
pub mod Mapping
pub mod Poll
pub mod Removed
pub mod Answered
pub mod Known
pub mod Single
pub mod Gone
pub mod Unloaded
pub mod Run
pub mod Outage
pub mod Unwatched
pub mod Tests
use btcpay_gate.Base.{
  ℤ, pos, ltb_ℤ, Bool, true, false, Option, none, some, List, [], ◌∷◌, ◌++◌, String, if◌then◌else◌,
}
use btcpay_gate.Errors.{Error, not_found, rpc_error, message, wrapped, Result, ok, err}
use btcpay_gate.Rpc.Amounts.{Float64}
use btcpay_gate.Rpc.SinceBlock.{Transaction, SinceBlock, amount, is_receive}
use btcpay_gate.Health
use btcpay_gate.Payments.State.{Invoice, Observation}
use btcpay_gate.Payments.Store.Sql.{Conn, Sql, pure, fail, ◌>>=◌, ◌>>◌}
use btcpay_gate.Payments.Store.Ops.{
  ObservationUpdate, Update, StatusChange, apply, cursor, invoice_by_address,
}

-- `DefaultWindow`.
abbrev pub default_window : ℤ
default_window = pos 12

-- `Reporter`, on a state of its own.
pub record Reporter (S : Type 0) : Type 0 where
  pub poll_succeeded : ℤ → S → S
  pub poll_failed : Error → S → S

-- `nopReporter`.
abbrev pub nop_reporter : {S : Type 0} → Reporter S
nop_reporter = record { poll_succeeded = λ clock s. s; poll_failed = λ e s. s }

-- The health state as a reporter.
abbrev pub health_reporter : Reporter Health.State
health_reporter = record {
  poll_succeeded = Health.poll_succeeded;
  poll_failed = Health.poll_failed;
}

-- `Monitor`. Its node, store and clock are arguments of its methods, and its log is left out.
pub record Monitor (S : Type 0) : Type 0 where
  pub interval : ℤ
  pub window : ℤ
  pub health : Reporter S

module _ {S : Type 0} where
  -- `New`.
  abbrev pub new : ℤ → Monitor S
  new interval = record { interval = interval; window = default_window; health = nop_reporter }

  -- `WithHealth`; nil is `none`.
  abbrev pub with_health : Option (Reporter S) → Monitor S → Monitor S
  with_health none m = m
  with_health (some r) m = record m { health = r }

  -- `WithWindow`.
  abbrev pub with_window : ℤ → Monitor S → Monitor S
  with_window blocks m = if ltb_ℤ (pos 0) blocks then record m { window = blocks } else m

-- `err == payments.ErrNotFound` after `InvoiceByAddress`, and the other errors.
abbrev pub or_unknown : Result Invoice × Conn → Result (Option Invoice) × Conn
or_unknown (ok inv, c) = (ok (some inv), c)
or_unknown (err not_found, c) = (ok none, c)
or_unknown (err (rpc_error code text), c) = (err (rpc_error code text), c)
or_unknown (err (message text), c) = (err (message text), c)
or_unknown (err (wrapped context e), c) = (err (wrapped context e), c)

-- An error of the node ends the poll.
abbrev pub lift : {A : Type 0} → Result A → Sql A
lift r c = (r, c)

module _ (f : Float64) where
  -- The end of `observation`, for an invoice that is known.
  unfoldable pub observed : Transaction f → Bool → Invoice → ObservationUpdate
  observed tx removed inv =
      let conflicted : Bool = elim tx.wallet_conflicts [ [] ↦ removed | other ↦ true ] in
      let negative = ltb_ℤ tx.confirmations (pos 0) in
      record {
        invoice_id = inv.id;
        observation = record {
          txid = tx.txid;
          vout = tx.vout;
          amount_sat = amount f tx;
          confirmations = if negative then pos 0 else tx.confirmations;
          removed = if negative then true else conflicted;
        };
      }

  abbrev pub for_invoice : Transaction f → Bool → Option Invoice → Sql (Option ObservationUpdate)
  for_invoice tx removed none = pure none
  for_invoice tx removed (some inv) = pure (some (observed tx removed inv))

  -- `observation`.
  unfoldable pub observation : Transaction f → Bool → Sql (Option ObservationUpdate)
  observation tx removed =
      if is_receive f tx
      then (do inv ← λ c. or_unknown (invoice_by_address tx.address c); for_invoice tx removed inv)
      else pure none

  abbrev pub add_observation :
      Option ObservationUpdate → List ObservationUpdate → List ObservationUpdate
  add_observation none us = us
  add_observation (some u) us = u ∷ us

  -- A loop of `poll` over transactions[] or removed[].
  unfoldable pub observations : List (Transaction f) → Bool → Sql (List ObservationUpdate)
  observations [] removed = pure []
  observations (tx ∷ txs) removed = do
    u ← observation tx removed
    us ← observations txs removed
    pure (add_observation u us)

  -- `poll`, with the node's answer to listsinceblock from a cursor under a window.
  unfoldable pub poll : (String → ℤ → Result (SinceBlock f)) → ℤ → ℤ → Sql (Unit {0})
  poll node window now = do
    hash ← cursor
    since ← lift (node hash window)
    seen ← observations since.transactions false
    gone ← observations since.removed true
    apply (record { observations = seen ++ gone; cursor = since.last_block }) now
    pure tt

  -- What `Poll` tells the reporter.
  abbrev pub reporting : {S : Type 0} → Reporter S → ℤ → Result (Unit {0}) → S → S
  reporting rep clock (ok a) s = rep.poll_succeeded clock s
  reporting rep clock (err e) s = rep.poll_failed e s

  -- `Poll`; `clock` is the time at which the reporter looks at its clock.
  unfoldable pub poll_and_report :
      {S : Type 0}
      → Monitor S
      → (String → ℤ → Result (SinceBlock f))
      → ℤ
      → ℤ
      → Conn × S
      → Result (Unit {0}) × Conn × S
  poll_and_report m node now clock (c, s) =
      let (r, c') = poll node m.window now c in (r, c', reporting m.health clock r s)
