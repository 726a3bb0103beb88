-- ===== src/Payments/Store/Tables.antt =====
-- The schema of internal/payments/store.go: the rows of the four tables, and what each SQL
-- statement of the program does to them.
use btcpay_gate.Base.{
  ℕ, suc, ℤ, pos, ltb_ℤ, eqb_ℤ, Bool, false, not, ◌&&◌, ◌||◌, Option, none, some, List, [], ◌∷◌,
  ◌++◌, keep, String, ◌==◌, if◌then◌else◌,
}
use btcpay_gate.Errors.{message, Result, ok, err}
use btcpay_gate.Payments.State.{Status, terminal}

-- Times are Unix seconds. The status column holds the text of one of the seven statuses.
pub record InvoiceRow : Type 0 where
  pub id : String
  pub address : String
  pub deriv_index : ℤ
  pub amount_sat : ℤ
  pub required_conf : ℤ
  pub status : Status
  pub created_at : ℤ
  pub expires_at : ℤ

pub record ObservationRow : Type 0 where
  pub invoice_id : String
  pub txid : String
  pub vout : ℤ
  pub amount_sat : ℤ
  pub confirmations : ℤ
  pub removed : ℤ

pub record EventRow : Type 0 where
  pub id : ℕ
  pub invoice_id : String
  pub status : Status
  pub paid_sat : ℤ
  pub confirmations : ℤ
  pub created_at : ℤ
  pub delivered : ℤ
  pub attempts : ℤ
  pub next_try_at : ℤ
  pub last_error : String

-- `last_event_id` is the counter of AUTOINCREMENT; `cursor` is the table with at most one row.
pub record Tables : Type 0 where
  pub invoices : List InvoiceRow
  pub observations : List ObservationRow
  pub cursor : Option String
  pub events : List EventRow
  pub last_event_id : ℕ

-- The tables that `schema` creates.
abbrev pub empty_tables : Tables
empty_tables = record {
  invoices = [];
  observations = [];
  cursor = none;
  events = [];
  last_event_id = 0;
}

abbrev pub taken : InvoiceRow → List InvoiceRow → Bool
taken row [] = false
taken row (r ∷ rows) = r.id == row.id || r.address == row.address || taken row rows

-- INSERT INTO invoices: the primary key and the UNIQUE address are checked.
unfoldable pub insert_invoice : InvoiceRow → Tables → Result Tables
insert_invoice row t =
    if taken row t.invoices
    then err (message "UNIQUE constraint failed: invoices")
    else ok (record t { invoices = t.invoices ++ row ∷ [] })

abbrev pub first_row : (InvoiceRow → Bool) → List InvoiceRow → Option InvoiceRow
first_row p [] = none
first_row p (r ∷ rows) = if p r then some r else first_row p rows

-- SELECT … WHERE status NOT IN ('confirmed', 'expired').
unfoldable pub open_rows : List InvoiceRow → List InvoiceRow
open_rows = keep (λ r. not (terminal r.status))

-- SELECT … FROM observations WHERE invoice_id = ?.
unfoldable pub rows_of : String → List ObservationRow → List ObservationRow
rows_of id = keep (λ r. r.invoice_id == id)

-- UPDATE invoices SET status = ? WHERE id = ?.
unfoldable pub set_status : Status → String → List InvoiceRow → List InvoiceRow
set_status s id [] = []
set_status s id (r ∷ rows) =
    (if r.id == id then record r { status = s } else r) ∷ set_status s id rows

-- The key (txid, vout) of an observation.
unfoldable pub same_key : ObservationRow → ObservationRow → Bool
same_key r s = r.txid == s.txid && eqb_ℤ r.vout s.vout

-- What ON CONFLICT … DO UPDATE does to the row that has the key: the invoice stays.
unfoldable pub excluded : ObservationRow → ObservationRow → ObservationRow
excluded new r = record r {
  confirmations = new.confirmations;
  removed = new.removed;
  amount_sat = new.amount_sat;
}

-- INSERT INTO observations … ON CONFLICT(txid, vout) DO UPDATE.
unfoldable pub upsert : ObservationRow → List ObservationRow → List ObservationRow
upsert new [] = new ∷ []
upsert new (r ∷ rows) = if same_key r new then excluded new r ∷ rows else r ∷ upsert new rows

-- INSERT INTO events: the next id, and the defaults of the columns that are not named.
unfoldable pub insert_event : String → Status → ℤ → ℤ → ℤ → Tables → Tables
insert_event invoice_id s paid_sat confirmations now t = record t {
  last_event_id = suc t.last_event_id;
  events =
      t.events
      ++ record {
        id = suc t.last_event_id;
        invoice_id = invoice_id;
        status = s;
        paid_sat = paid_sat;
        confirmations = confirmations;
        created_at = now;
        delivered = pos 0;
        attempts = pos 0;
        next_try_at = now;
        last_error = "";
      }
        ∷ [];
}

abbrev pub max_from : ℤ → List InvoiceRow → ℤ
max_from m [] = m
max_from m (r ∷ rows) = max_from (if ltb_ℤ m r.deriv_index then r.deriv_index else m) rows

-- SELECT MAX(deriv_index): NULL for no rows.
unfoldable pub max_deriv_index : List InvoiceRow → Option ℤ
max_deriv_index [] = none
max_deriv_index (r ∷ rows) = some (max_from r.deriv_index rows)
