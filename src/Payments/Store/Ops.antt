-- ===== src/Payments/Store/Ops.antt =====
-- The methods of `Store` in internal/payments/store.go, as actions on the connection.
use btcpay_gate.Base.{
  ℤ, pos, ◌+ℤ◌, eqb_ℤ, not, Option, none, some, List, [], ◌∷◌, map, String, ◌==◌, if◌then◌else◌,
}
use Prim.Native.String.{◌++◌ as str_append}
use btcpay_gate.Base.Word.{wrap64}
use btcpay_gate.Base.Decimal.{format_int}
use btcpay_gate.Time.{unix, of_unix}
use btcpay_gate.Errors.{not_found, wrapped, Result, ok, err}
use btcpay_gate.Payments.State.{
  Status, Invoice, Observation, decide, eqb_status, paid, min_confirmations,
}
use btcpay_gate.Payments.Store.Tables.{
  InvoiceRow, ObservationRow, Tables, insert_invoice, first_row, open_rows, rows_of, set_status,
  upsert, insert_event, max_deriv_index,
}
use btcpay_gate.Payments.Store.Sql.{
  Conn, Sql, pure, fail, ◌>>=◌, ◌>>◌, statement, query, exec, transaction,
}

-- The values that `CreateInvoice` binds.
unfoldable pub invoice_row : Invoice → InvoiceRow
invoice_row inv = record {
  id = inv.id;
  address = inv.address;
  deriv_index = inv.deriv_index;
  amount_sat = inv.amount_sat;
  required_conf = inv.required_conf;
  status = inv.status;
  created_at = unix inv.created_at;
  expires_at = unix inv.expires_at;
}

-- `scanInvoice`.
unfoldable pub scan_invoice : InvoiceRow → Invoice
scan_invoice r = record {
  id = r.id;
  address = r.address;
  deriv_index = r.deriv_index;
  amount_sat = r.amount_sat;
  required_conf = r.required_conf;
  status = r.status;
  created_at = of_unix r.created_at;
  expires_at = of_unix r.expires_at;
}

-- The `Scan` of an observation; `o.Removed = removed != 0`.
unfoldable pub scan_observation : ObservationRow → Observation
scan_observation r = record {
  txid = r.txid;
  vout = r.vout;
  amount_sat = r.amount_sat;
  confirmations = r.confirmations;
  removed = not (eqb_ℤ r.removed (pos 0));
}

abbrev pub inserted : Result Tables → Result (Unit {0} × Tables)
inserted (ok t) = ok (tt, t)
inserted (err e) = err e

-- `CreateInvoice`.
unfoldable pub create_invoice : Invoice → Sql (Unit {0})
create_invoice inv = statement (λ t. inserted (insert_invoice (invoice_row inv) t))

-- `sql.ErrNoRows` becomes `ErrNotFound`.
abbrev pub found : Option InvoiceRow → Sql Invoice
found none = fail not_found
found (some r) = pure (scan_invoice r)

-- `Invoice`.
unfoldable pub invoice : String → Sql Invoice
invoice id = do r ← query (λ t. first_row (λ r. r.id == id) t.invoices); found r

-- `InvoiceByAddress`.
unfoldable pub invoice_by_address : String → Sql Invoice
invoice_by_address address = do
  r ← query (λ t. first_row (λ r. r.address == address) t.invoices)
  found r

-- `OpenInvoices`, and the same query inside `Apply`.
unfoldable pub open_invoices : Sql (List Invoice)
open_invoices = query (λ t. map scan_invoice (open_rows t.invoices))

-- `observationsTx`, and the query of `Observations`.
unfoldable pub observations_tx : String → Sql (List Observation)
observations_tx id = query (λ t. map scan_observation (rows_of id t.observations))

abbrev pub or_empty : Option String → String
or_empty none = ""
or_empty (some hash) = hash

-- `Cursor`: no row reads as the empty hash.
unfoldable pub cursor : Sql String
cursor = query (λ t. or_empty t.cursor)

-- `ObservationUpdate`.
pub record ObservationUpdate : Type 0 where
  pub invoice_id : String
  pub observation : Observation

pub record Update : Type 0 where
  pub observations : List ObservationUpdate
  pub cursor : String

pub record StatusChange : Type 0 where
  pub invoice_id : String
  pub from_status : Status
  pub to_status : Status

-- The values that the upsert binds.
unfoldable pub observation_row : ObservationUpdate → ObservationRow
observation_row u = record {
  invoice_id = u.invoice_id;
  txid = u.observation.txid;
  vout = u.observation.vout;
  amount_sat = u.observation.amount_sat;
  confirmations = u.observation.confirmations;
  removed = if u.observation.removed then pos 1 else pos 0;
}

abbrev pub or_context : String → Result (Unit {0}) × Conn → Result (Unit {0}) × Conn
or_context context (ok a, c) = (ok a, c)
or_context context (err e, c) = (err (wrapped context e), c)

-- The first loop of `Apply`.
unfoldable pub upsert_all : List ObservationUpdate → Sql (Unit {0})
upsert_all [] = pure tt
upsert_all (u ∷ us) = do
  λ c.
      or_context
        (str_append "upsert observation "
          (str_append u.observation.txid (str_append ":" (format_int u.observation.vout))))
        (exec (λ t. record t { observations = upsert (observation_row u) t.observations }) c)
  upsert_all us

abbrev pub add_change : Option StatusChange → List StatusChange → List StatusChange
add_change none changes = changes
add_change (some c) changes = c ∷ changes

-- UPDATE, INSERT INTO events and the entry of `changes`, for an invoice whose status moves.
unfoldable pub record_change : ℤ → Invoice → List Observation → Status → Sql (Option StatusChange)
record_change now inv obs next = do
  exec (λ t. record t { invoices = set_status next inv.id t.invoices })
  exec (insert_event inv.id next (paid obs) (min_confirmations obs) (unix now))
  pure (some (record { invoice_id = inv.id; from_status = inv.status; to_status = next }))

-- One round of the recompute loop of `Apply`.
unfoldable pub recompute_one : ℤ → Invoice → Sql (Option StatusChange)
recompute_one now inv = do
  obs ← observations_tx inv.id
  let next = decide inv obs now
  if eqb_status next inv.status then pure none else record_change now inv obs next

-- The recompute loop of `Apply`.
unfoldable pub recompute : ℤ → List Invoice → Sql (List StatusChange)
recompute now [] = pure []
recompute now (inv ∷ invs) = do
  change ← recompute_one now inv
  rest ← recompute now invs
  pure (add_change change rest)

-- The cursor moves only to a hash that is not empty.
unfoldable pub save_cursor : String → Sql (Unit {0})
save_cursor hash = if hash == "" then pure tt else exec (λ t. record t { cursor = some hash })

-- `Apply`. (Where the commit fails, the changes that Go returns beside the error are dropped, as
-- every caller drops them.)
unfoldable pub apply : Update → ℤ → Sql (List StatusChange)
apply u now = transaction (do
  upsert_all u.observations
  invs ← open_invoices
  changes ← recompute now invs
  save_cursor u.cursor
  pure changes)

abbrev pub next_of : Option ℤ → ℤ
next_of none = pos 0
next_of (some idx) = wrap64 (idx +ℤ pos 1)

-- `NextDerivIndex`.
unfoldable pub next_deriv_index : Sql ℤ
next_deriv_index = query (λ t. next_of (max_deriv_index t.invoices))
