-- ===== src/Api/Lookup.antt =====
-- What a merchant is told of an invoice: the stored one, whatever order the observations come in.
use mathlib.Core.List.{Perm}
use btcpay_gate.Base.{
  ℤ, pos, ◌≡◌, refl, sym, subst, Option, none, some, List, [], ◌∷◌, map, String, ◌==◌,
}
use btcpay_gate.Errors.{is_not_found}
use btcpay_gate.Payments.State.{Invoice, Observation}
use btcpay_gate.Base.Word.{wrap64}
use btcpay_gate.Payments.State.{min_confirmations}
use btcpay_gate.Payments.State.Order.{report_perm}
use btcpay_gate.Payments.State.Totals.{received, paid-received}
use btcpay_gate.Payments.State.Weakest.{IsWeakest, min_confirmations-IsWeakest}
use btcpay_gate.Api.Views.{Shows, status_text-word_of}
use btcpay_gate.Payments.Store.Tables.{InvoiceRow, Tables, first_row, rows_of}
use btcpay_gate.Payments.Store.Sql.{Conn, query, ◌>>=◌}
use btcpay_gate.Payments.Store.Runs.{IsFaulty}
use btcpay_gate.Payments.Store.Ops.{invoice, observations_tx, scan_invoice, scan_observation}
use btcpay_gate.Api.{
  InvoiceResponse, Response, bad_request, internal_error, no_such_invoice, created, found,
  found_view, observations, observed_answer, loaded_answer, get_handler,
}

-- What the tables hold of an invoice: its row and its observations, as they are read.
abbrev pub stored_row : String → Tables → Option InvoiceRow
stored_row id t = first_row (λ r. r.id == id) t.invoices

abbrev pub stored_observations : String → Tables → List Observation
stored_observations id t = map scan_observation (rows_of id t.observations)

module _ (rfc3339 : ℤ → String) (sort : List Observation → List Observation) where
  -- The view shows the row, the sum of the observations in the chain and their least count.
  abbrev pub ShowsRow : InvoiceRow → List Observation → InvoiceResponse → Type 0
  ShowsRow row os view =
      (least : ℤ) × IsWeakest least os
      × Shows rfc3339 (scan_invoice row) (wrap64 (received os)) least view

  found_view-ShowsRow :
      (row : InvoiceRow) (os : List Observation)
      → ShowsRow row os (found_view rfc3339 (scan_invoice row) os)
  unfolding found_view
  found_view-ShowsRow row os = (
    min_confirmations os,
    min_confirmations-IsWeakest os,
    record {
      its_id = refl;
      its_address = refl;
      its_amount = refl;
      its_paid = paid-received os;
      its_required = refl;
      its_count = refl;
      its_status = status_text-word_of (scan_invoice row).status;
      its_creation = refl;
      its_expiry = refl;
    },
  )

  -- How the handler may answer.
  abbrev pub Shown : String → Conn → Response × Conn → Type 0
  Shown id c (bad_request text, c') = ⊥
  Shown id c (internal_error text, c') = (c'.tables ≡ c.tables) × IsFaulty c.faults
  Shown id c (no_such_invoice, c') = (c'.tables ≡ c.tables) × (stored_row id c.tables ≡ none)
  Shown id c (created view, c') = ⊥
  Shown id c (found view, c') =
      (c'.tables ≡ c.tables)
      × ((row : InvoiceRow) × (stored_row id c.tables ≡ some row)
          × ShowsRow row (stored_observations row.id c.tables) view)

  module _ (perm : (os : List Observation) → Perm (sort os) os) where
    found_view-sort :
        (inv : Invoice) (os : List Observation)
        → found_view rfc3339 inv (sort os) ≡ found_view rfc3339 inv os
    unfolding found_view
    found_view-sort inv os =
        let same = report_perm inv (pos 0) (sort os) os (perm os) in rw (same.1, same.2) refl

    sorted-ShowsRow :
        (row : InvoiceRow) (os : List Observation)
        → ShowsRow row os (found_view rfc3339 (scan_invoice row) (sort os))
    sorted-ShowsRow row os =
        subst (ShowsRow row os) (sym (found_view-sort (scan_invoice row) os))
          (found_view-ShowsRow row os)

    -- The second query, under faults of its own.
    observed-Shown :
        (id : String) (c : Conn) (row : InvoiceRow) (fs : List (Option String))
        → stored_row id c.tables ≡ some row
        → (IsFaulty fs → IsFaulty c.faults)
        → Shown id c (
            observed_answer rfc3339
              (scan_invoice row)
              (observations rfc3339 sort row.id (record { tables = c.tables; faults = fs })))
    unfolding observations observations_tx query ◌>>=◌
    observed-Shown id c row [] e w =
        (refl, (row, e, sorted-ShowsRow row (stored_observations row.id c.tables)))
    observed-Shown id c row (none ∷ fs) e w =
        (refl, (row, e, sorted-ShowsRow row (stored_observations row.id c.tables)))
    observed-Shown id c row (some x ∷ fs) e w = (refl, w tt)

    -- After the first query was carried out.
    row-Shown :
        (id : String) (c : Conn) (fs : List (Option String)) (r : Option InvoiceRow)
        → stored_row id c.tables ≡ r
        → (IsFaulty fs → IsFaulty c.faults)
        → Shown id c (
            loaded_answer rfc3339 sort
              (btcpay_gate.Payments.Store.Ops.found r (record { tables = c.tables; faults = fs })))
    unfolding scan_invoice is_not_found
    row-Shown id c fs none e w = (refl, e)
    row-Shown id c fs (some row) e w = observed-Shown id c row fs e w

    get-Shown :
        (id : String) (fs : List (Option String)) (t : Tables)
        → Shown id
            (record { tables = t; faults = fs })
            (get_handler rfc3339 sort id (record { tables = t; faults = fs }))
    unfolding get_handler invoice query ◌>>=◌ is_not_found
    get-Shown id [] t =
        row-Shown id (record { tables = t; faults = [] }) [] (stored_row id t) refl (λ h. h)
    get-Shown id (none ∷ fs) t =
        row-Shown id (record { tables = t; faults = none ∷ fs }) fs (stored_row id t) refl (λ h. h)
    get-Shown id (some e ∷ fs) t = (refl, tt)

    -- If the sort only reorders, the lookup of an invoice changes no table, fails only by a fault
    -- of the engine, answers that there is none exactly where no row has the id, and otherwise
    -- shows that row field by field, with the sum of its stored observations that are in the
    -- chain, wrapped to an int64, and the least of their counts, or 0 without one.
    pub get_handler-Shown : (id : String) (c : Conn) → Shown id c (get_handler rfc3339 sort id c)
    get_handler-Shown id c = get-Shown id c.faults c.tables
