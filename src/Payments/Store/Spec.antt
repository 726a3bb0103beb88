-- ===== src/Payments/Store/Spec.antt =====
-- What one call of `Apply` amounts to, with no statements, transactions or loops: every invoice
-- takes the status that its observations give it, and each one that moves leaves one event.
use btcpay_gate.Base.{
  ℕ, suc, ◌+◌, ℤ, pos, Bool, not, Option, some, List, [], ◌∷◌, ◌++◌, map, keep, length, String,
  ◌==◌, if◌then◌else◌,
}
use btcpay_gate.Time.{unix}
use btcpay_gate.Payments.State.{Status, Observation, decide, eqb_status, paid, min_confirmations}
use btcpay_gate.Payments.Store.Tables.{
  InvoiceRow, ObservationRow, EventRow, Tables, rows_of, upsert,
}
use btcpay_gate.Payments.Store.Ops.{
  ObservationUpdate, Update, StatusChange, scan_invoice, scan_observation, observation_row,
}

-- The observations after an update, one upsert after the other.
abbrev pub upserted : List ObservationUpdate → List ObservationRow → List ObservationRow
upserted [] rows = rows
upserted (u ∷ us) rows = upserted us (upsert (observation_row u) rows)

module _ (rows : List ObservationRow) (now : ℤ) where
  -- What is known of an invoice.
  abbrev pub known : InvoiceRow → List Observation
  known r = map scan_observation (rows_of r.id rows)

  -- The status that an invoice takes.
  abbrev pub next_status : InvoiceRow → Status
  next_status r = decide (scan_invoice r) (known r) now

  abbrev pub settle : InvoiceRow → InvoiceRow
  settle r = record r { status = next_status r }

  abbrev pub moves : InvoiceRow → Bool
  moves r = not (eqb_status (next_status r) r.status)

  -- The entry that `Apply` returns for an invoice that moves.
  abbrev pub change_of : InvoiceRow → StatusChange
  change_of r = record { invoice_id = r.id; from_status = r.status; to_status = next_status r }

  -- The row that it leaves in the outbox.
  abbrev pub event_of : ℕ → InvoiceRow → EventRow
  event_of n r = record {
    id = n;
    invoice_id = r.id;
    status = next_status r;
    paid_sat = paid (known r);
    confirmations = min_confirmations (known r);
    created_at = unix now;
    delivered = pos 0;
    attempts = pos 0;
    next_try_at = unix now;
    last_error = "";
  }

  -- The outbox rows of the invoices that move, numbered from the last id.
  abbrev pub events_from : ℕ → List InvoiceRow → List EventRow
  events_from n [] = []
  events_from n (r ∷ rs) = event_of (suc n) r ∷ events_from (suc n) rs

abbrev pub moved_cursor : String → Option String → Option String
moved_cursor hash old = if hash == "" then old else some hash

-- The tables after `Apply`.
abbrev pub settled : Update → ℤ → Tables → Tables
settled u now t =
    let rows = upserted u.observations t.observations in
    let moving = keep (moves rows now) t.invoices in
    record {
      invoices = map (settle rows now) t.invoices;
      observations = rows;
      cursor = moved_cursor u.cursor t.cursor;
      events = t.events ++ events_from rows now t.last_event_id moving;
      last_event_id = t.last_event_id + length moving;
    }

-- The changes that `Apply` returns.
abbrev pub changes_of : Update → ℤ → Tables → List StatusChange
changes_of u now t =
    let rows = upserted u.observations t.observations in
    map (change_of rows now) (keep (moves rows now) t.invoices)
