-- ===== src/Monitor/Mapping.antt =====
-- What the loops of `poll` make of the node's transactions, as a function of the invoices.
use btcpay_gate.Base.{
  ◌≡◌, refl, Bool, true, false, Option, none, some, List, [], ◌∷◌, ◌++◌, String, ◌==◌, Bool-cases,
  inl, inr, if◌then◌else◌,
}
use btcpay_gate.Rpc.Amounts.{Float64}
use btcpay_gate.Rpc.SinceBlock.{Transaction, SinceBlock, is_receive}
use btcpay_gate.Payments.State.{Invoice}
use btcpay_gate.Payments.Store.Tables.{InvoiceRow, Tables, first_row}
use btcpay_gate.Payments.Store.Sql.{Conn, ◌>>=◌, query}
use btcpay_gate.Payments.Store.Runs.{IsFaulty, Runs, Ended, Runs-pure, Runs-bind}
use btcpay_gate.Payments.Store.Reads.{Reads, Reads-pure, Reads-bind}
use btcpay_gate.Payments.Store.Ops.{
  ObservationUpdate, Update, invoice_by_address, scan_invoice, found,
}
use btcpay_gate.Monitor.{
  or_unknown, observed, for_invoice, observation, add_observation, observations,
}

abbrev pub scanned : Option InvoiceRow → Option Invoice
scanned none = none
scanned (some r) = some (scan_invoice r)

-- The invoice at an address.
abbrev pub by_address : String → Tables → Option Invoice
by_address address t = scanned (first_row (λ r. r.address == address) t.invoices)

module _ (f : Float64) where
  abbrev pub mapped_to : Transaction f → Bool → Option Invoice → Option ObservationUpdate
  mapped_to tx removed none = none
  mapped_to tx removed (some inv) = some (observed f tx removed inv)

  -- One transaction: ignored unless it is received at the address of an invoice.
  abbrev pub mapped : Tables → Transaction f → Bool → Option ObservationUpdate
  mapped t tx removed =
      if is_receive f tx then mapped_to tx removed (by_address tx.address t) else none

  abbrev pub batch : Tables → List (Transaction f) → Bool → List ObservationUpdate
  batch t [] removed = []
  batch t (tx ∷ txs) removed = add_observation f (mapped t tx removed) (batch t txs removed)

  -- The update that a poll applies: the live transactions first, then the removed ones.
  abbrev pub update_of : Tables → SinceBlock f → Update
  update_of t since = record {
    observations = batch t since.transactions false ++ batch t since.removed true;
    cursor = since.last_block;
  }

or_unknown-found :
    (fs gs : List (Option String)) (t : Tables) (r : Option InvoiceRow)
    → (IsFaulty fs → IsFaulty gs)
    → Ended gs (or_unknown (found r (record { tables = t; faults = fs }))) (scanned r, t)
or_unknown-found fs gs t none w = (refl, refl, w)
or_unknown-found fs gs t (some r) w = (refl, refl, w)

or_unknown-Runs :
    (address : String)
    → Runs (λ c. or_unknown (invoice_by_address address c)) (λ t. (by_address address t, t))
unfolding invoice_by_address query ◌>>=◌
or_unknown-Runs address = record { at = λ c. from c.faults c.tables }
  where
    from :
        (fs : List (Option String)) (t : Tables)
        → Ended fs
            (or_unknown (invoice_by_address address (record { tables = t; faults = fs })))
            (by_address address t, t)
    from [] t = or_unknown-found [] [] t (first_row (λ r. r.address == address) t.invoices) (λ h. h)
    from (none ∷ fs) t =
        or_unknown-found fs (none ∷ fs) t (first_row (λ r. r.address == address) t.invoices)
          (λ h. h)
    from (some e ∷ fs) t = tt

or_unknown-found_tables :
    (c : Conn) (r : Option InvoiceRow) → (or_unknown (found r c)).1.tables ≡ c.tables
or_unknown-found_tables c none = refl
or_unknown-found_tables c (some r) = refl

or_unknown-Reads : (address : String) → Reads (λ c. or_unknown (invoice_by_address address c))
unfolding invoice_by_address query ◌>>=◌
or_unknown-Reads address = record { at = λ c. from c.faults c.tables }
  where
    from :
        (fs : List (Option String)) (t : Tables)
        → (or_unknown (invoice_by_address address (record { tables = t; faults = fs }))).1.tables
          ≡ t
    from [] t = or_unknown-found_tables _ (first_row (λ r. r.address == address) t.invoices)
    from (none ∷ fs) t =
        or_unknown-found_tables _ (first_row (λ r. r.address == address) t.invoices)
    from (some e ∷ fs) t = refl

module _ (f : Float64) where
  for_invoice-Runs :
      (tx : Transaction f) (removed : Bool) (o : Option Invoice)
      → Runs (for_invoice f tx removed o) (λ t. (mapped_to f tx removed o, t))
  for_invoice-Runs tx removed none = Runs-pure none
  for_invoice-Runs tx removed (some inv) = Runs-pure _

  for_invoice-Reads :
      (tx : Transaction f) (removed : Bool) (o : Option Invoice)
      → Reads (for_invoice f tx removed o)
  for_invoice-Reads tx removed none = Reads-pure none
  for_invoice-Reads tx removed (some inv) = Reads-pure _

  observation-Runs :
      (tx : Transaction f) (removed : Bool)
      → Runs (observation f tx removed) (λ t. (mapped f t tx removed, t))
  unfolding observation
  observation-Runs tx removed = elim (Bool-cases (is_receive f tx)) [
    | inl yes_receive ↦
        rw yes_receive
          (Runs-bind _ _ _ _ (or_unknown-Runs tx.address) (λ o. for_invoice-Runs tx removed o))
    | inr other ↦ rw other (Runs-pure none)
  ]

  observation-Reads : (tx : Transaction f) (removed : Bool) → Reads (observation f tx removed)
  unfolding observation
  observation-Reads tx removed = elim (Bool-cases (is_receive f tx)) [
    | inl yes_receive ↦
        rw yes_receive
          (Reads-bind _ _ (or_unknown-Reads tx.address) (λ o. for_invoice-Reads tx removed o))
    | inr other ↦ rw other (Reads-pure none)
  ]

  -- A loop of `poll` gathers the batch and leaves the tables alone.
  pub observations-Runs :
      (txs : List (Transaction f)) (removed : Bool)
      → Runs (observations f txs removed) (λ t. (batch f t txs removed, t))
  unfolding observations
  observations-Runs [] removed = Runs-pure []
  observations-Runs (tx ∷ txs) removed = Runs-bind _ _ _ _ (observation-Runs tx removed) (λ u.
      Runs-bind _ _ _ _ (observations-Runs txs removed) (λ us. Runs-pure (add_observation f u us)))

  pub observations-Reads :
      (txs : List (Transaction f)) (removed : Bool) → Reads (observations f txs removed)
  unfolding observations
  observations-Reads [] removed = Reads-pure []
  observations-Reads (tx ∷ txs) removed = Reads-bind _ _ (observation-Reads tx removed) (λ u.
      Reads-bind _ _ (observations-Reads txs removed) (λ us. Reads-pure (add_observation f u us)))
