-- ===== src/Payments/Store/Create.antt =====
-- `CreateInvoice`, `Invoice`, `InvoiceByAddress` and `NextDerivIndex`.
use btcpay_gate.Base.{
  ◌≡◌, refl, sym, ap, ◌∙◌, ◌≢◌, subst, true, false, Option, none, some, List, [], ◌∷◌, ◌++◌, String,
  ◌==◌, eq_iff, arith, All, All-imp, All-append, Bool-cases, inl, inr,
}
use btcpay_gate.Errors.{Result, ok, err}
use btcpay_gate.Payments.State.{Invoice}
use btcpay_gate.Payments.Store.Tables.{InvoiceRow, Tables, taken, insert_invoice}
use btcpay_gate.Payments.Store.Sql.{Conn, statement, answer}
use btcpay_gate.Payments.Store.Ops.{create_invoice, invoice_row, inserted}
use btcpay_gate.Payments.Store.Loop.{UniqueIds}
use btcpay_gate.Base.{◌⊎◌, eq_refl, ne→eq-false}
use btcpay_gate.Time.{unix, of_unix}
use btcpay_gate.Payments.Store.Tables.{first_row}
use btcpay_gate.Payments.Store.Ops.{invoice, invoice_by_address, scan_invoice, found}
use btcpay_gate.Payments.Store.Sql.{query, ◌>>=◌}
use btcpay_gate.Payments.Store.Runs.{IsFaulty}
use btcpay_gate.Payments.Store.Invariant.{UniqueAddresses, IsValid}

taken-false :
    (row : InvoiceRow) (rs : List InvoiceRow)
    → taken row rs ≡ false
    → All (λ r. (r.id ≢ row.id) × (r.address ≢ row.address)) rs
taken-false row [] h = tt
taken-false row (r ∷ rs) h =
    ground (arith, eq_iff r.id row.id, eq_iff r.address row.address, taken-false row rs)

append-UniqueIds :
    (row : InvoiceRow) (rs : List InvoiceRow)
    → All (λ r. r.id ≢ row.id) rs
    → UniqueIds rs
    → UniqueIds (rs ++ row ∷ [])
append-UniqueIds row [] h u = (tt, tt)
append-UniqueIds row (r ∷ rs) h u =
    (All-append _ rs (row ∷ []) u.0 (λ e. h.0 (sym e), tt), append-UniqueIds row rs h.1 u.1)

append-UniqueAddresses :
    (row : InvoiceRow) (rs : List InvoiceRow)
    → All (λ r. r.address ≢ row.address) rs
    → UniqueAddresses rs
    → UniqueAddresses (rs ++ row ∷ [])
append-UniqueAddresses row [] h u = (tt, tt)
append-UniqueAddresses row (r ∷ rs) h u =
    (All-append _ rs (row ∷ []) u.0 (λ e. h.0 (sym e), tt), append-UniqueAddresses row rs h.1 u.1)

abbrev pub with_invoice : Invoice → Tables → Tables
with_invoice inv t = record t { invoices = t.invoices ++ invoice_row inv ∷ [] }

-- How `CreateInvoice` may end.
abbrev pub Created : Invoice → Conn → Result (Unit {0}) × Conn → Type 0
Created inv c (ok a, c') =
    (c'.tables ≡ with_invoice inv c.tables)
    × All (λ r. (r.id ≢ inv.id) × (r.address ≢ inv.address)) c.tables.invoices
Created inv c (err e, c') =
    (c'.tables ≡ c.tables)
    × ((taken (invoice_row inv) c.tables.invoices ≡ true) ⊎ IsFaulty c.faults)

create-meet :
    (inv : Invoice) (fs gs : List (Option String)) (t : Tables)
    → (IsFaulty fs → IsFaulty gs)
    → Created inv
        (record { tables = t; faults = gs })
        (answer
          (inserted (insert_invoice (invoice_row inv) t))
          (record { tables = t; faults = fs }))
unfolding insert_invoice invoice_row
create-meet inv fs gs t w = elim (Bool-cases (taken (invoice_row inv) t.invoices)) [
  | inl dup ↦ rw dup (refl, inl dup)
  | inr fresh ↦ rw fresh (refl, taken-false (invoice_row inv) t.invoices fresh)
]

-- `CreateInvoice` adds the invoice as the last row, where no invoice has its id or its address;
-- or it fails and changes nothing, where some invoice has one of them or by a fault.
pub create_invoice_outcome : (inv : Invoice) (c : Conn) → Created inv c (create_invoice inv c)
unfolding create_invoice statement
create_invoice_outcome inv c = from c.faults c.tables
  where
    from :
        (fs : List (Option String)) (t : Tables)
        → Created inv
            (record { tables = t; faults = fs })
            (create_invoice inv (record { tables = t; faults = fs }))
    from [] t = create-meet inv [] [] t (λ h. h)
    from (none ∷ fs) t = create-meet inv fs (none ∷ fs) t (λ h. h)
    from (some e ∷ fs) t = (refl, inr tt)

All-ids :
    (id address : String) (rs : List InvoiceRow)
    → All (λ r. (r.id ≢ id) × (r.address ≢ address)) rs
    → All (λ r. r.id ≢ id) rs × All (λ r. r.address ≢ address) rs
All-ids id address rs h = (All-imp _ _ (λ r k. k.0) rs h, All-imp _ _ (λ r k. k.1) rs h)

Created-IsValid :
    (inv : Invoice) (c : Conn) (r : Result (Unit {0}) × Conn)
    → IsValid c.tables
    → Created inv c r
    → IsValid r.1.tables
unfolding invoice_row
Created-IsValid inv c (ok a, c') v h =
    let fresh = All-ids inv.id inv.address c.tables.invoices h.1 in
    subst IsValid (sym h.0) (record {
      ids = append-UniqueIds (invoice_row inv) c.tables.invoices fresh.0 v.ids;
      addresses = append-UniqueAddresses (invoice_row inv) c.tables.invoices fresh.1 v.addresses;
      keys = v.keys;
      numbered = v.numbered;
      counted = v.counted;
    })
Created-IsValid inv c (err e, c') v h = subst IsValid (sym h.0) v

-- `CreateInvoice` keeps the constraints of the schema, whether it succeeds or fails.
pub create_invoice-IsValid :
    (inv : Invoice) (c : Conn) → IsValid c.tables → IsValid (create_invoice inv c).1.tables
create_invoice-IsValid inv c v =
    Created-IsValid inv c (create_invoice inv c) v (create_invoice_outcome inv c)

first_row-append_id :
    (row : InvoiceRow) (rs : List InvoiceRow)
    → All (λ r. r.id ≢ row.id) rs
    → first_row (λ r. r.id == row.id) (rs ++ row ∷ []) ≡ some row
first_row-append_id row [] h = rw (eq_refl row.id)
first_row-append_id row (r ∷ rs) h =
    rw (ne→eq-false r.id row.id h.0) (first_row-append_id row rs h.1)

first_row-append_address :
    (row : InvoiceRow) (rs : List InvoiceRow)
    → All (λ r. r.address ≢ row.address) rs
    → first_row (λ r. r.address == row.address) (rs ++ row ∷ []) ≡ some row
first_row-append_address row [] h = rw (eq_refl row.address)
first_row-append_address row (r ∷ rs) h =
    rw (ne→eq-false r.address row.address h.0) (first_row-append_address row rs h.1)

-- What the store keeps of an invoice: its times are cut to whole seconds.
abbrev pub stored : Invoice → Invoice
stored inv = record inv {
  created_at = of_unix (unix inv.created_at);
  expires_at = of_unix (unix inv.expires_at);
}

-- The connection with the same tables, when the engine fails nothing.
abbrev pub calm : Conn → Conn
calm c = record c { faults = [] }

Created-read :
    (inv : Invoice) (c c' : Conn) (a : Unit {0})
    → Created inv c (ok a, c')
    → (invoice inv.id (calm c') ≡ (ok (stored inv), calm c'))
      × (invoice_by_address inv.address (calm c') ≡ (ok (stored inv), calm c'))
unfolding invoice invoice_by_address query ◌>>=◌ scan_invoice invoice_row
Created-read inv c c' a h =
    let fresh = All-ids inv.id inv.address c.tables.invoices h.1 in
    (
      ap (λ o. found o (calm c'))
          (ap (λ (t : Tables). first_row (λ r. r.id == inv.id) t.invoices) h.0
            ∙ first_row-append_id (invoice_row inv) c.tables.invoices fresh.0),
      ap (λ o. found o (calm c'))
          (ap (λ (t : Tables). first_row (λ r. r.address == inv.address) t.invoices) h.0
            ∙ first_row-append_address (invoice_row inv) c.tables.invoices fresh.1),
    )

-- An invoice that `CreateInvoice` has stored is read back by its id and by its address as it was,
-- but for its times, which are cut to whole seconds, when the engine fails nothing.
pub create_invoice_roundtrip :
    (inv : Invoice) (c c' : Conn)
    → create_invoice inv c ≡ (ok tt, c')
    → (invoice inv.id (calm c') ≡ (ok (stored inv), calm c'))
      × (invoice_by_address inv.address (calm c') ≡ (ok (stored inv), calm c'))
create_invoice_roundtrip inv c c' e =
    Created-read inv c c' tt (subst (Created inv c) e (create_invoice_outcome inv c))
