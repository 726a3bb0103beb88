-- ===== src/Gateway/Lifecycle.antt =====
-- The life of every invoice, as the outbox tells it to the merchant: README.md, "The lifecycle".
use btcpay_gate.Base.{
  ℤ, ◌≡◌, sym, subst, ap, ◌∙◌, inl, inr, true, false, List, [], ◌∷◌, ◌++◌, map, String, All,
  Bool-cases, arith,
}
use btcpay_gate.Payments.State.{pending}
use btcpay_gate.Payments.State.Order.{is_empty}
use btcpay_gate.Payments.State.Transitions.{
  IsLife, IsLife-append, is_touched, legal-decide, touched-decide,
}
use btcpay_gate.Payments.Store.Tables.{
  InvoiceRow, ObservationRow, EventRow, Tables, empty_tables, rows_of, excluded, upsert,
}
use btcpay_gate.Payments.Store.Ops.{
  ObservationUpdate, scan_observation, scan_invoice, observation_row,
}
use btcpay_gate.Payments.Store.Spec.{upserted, known, settle, moves}
use btcpay_gate.Payments.Store.Loop.{not-eq-true}
use btcpay_gate.Payments.Store.Outbox.{moves-open}
use btcpay_gate.Payments.Store.Covered.{AreCovering}
use btcpay_gate.Gateway.Mirror.{story, story-append, IsMirrored, own, own-moves, own-stays, Tells}

-- Observations are kept of an invoice that a payment was seen for.
abbrev pub IsKept : List ObservationRow → InvoiceRow → Type 0
IsKept rows r =
    is_touched r.status ≡ true → is_empty (map scan_observation (rows_of r.id rows)) ≡ false

-- Announced one after the other, from pending on, its statuses are a legal life.
abbrev pub IsLived : List EventRow → InvoiceRow → Type 0
IsLived es r = IsLife pending (story es r.id)

upsert-keeps_some :
    (id : String) (new : ObservationRow) (rows : List ObservationRow)
    → is_empty (map scan_observation (rows_of id rows)) ≡ false
    → is_empty (map scan_observation (rows_of id (upsert new rows))) ≡ false
unfolding rows_of upsert excluded
upsert-keeps_some id new [] h = cc
upsert-keeps_some id new (r ∷ rows) h = ground (arith, upsert-keeps_some id new rows)

pub upserted-keeps_some :
    (id : String) (us : List ObservationUpdate) (rows : List ObservationRow)
    → is_empty (map scan_observation (rows_of id rows)) ≡ false
    → is_empty (map scan_observation (rows_of id (upserted us rows))) ≡ false
upserted-keeps_some id [] rows h = h
upserted-keeps_some id (u ∷ us) rows h =
    upserted-keeps_some id us _ (upsert-keeps_some id (observation_row u) rows h)

-- Every invoice lives a legal life, its observations are kept, and its confirmation is covered.
pub record IsLawful (t : Tables) : Type 0 where
  pub lives : All (IsLived t.events) t.invoices
  pub kept : All (IsKept t.observations) t.invoices
  pub covers : All (AreCovering t.events) t.invoices

pub empty-IsLawful : IsLawful empty_tables
empty-IsLawful = record { lives = tt; kept = tt; covers = tt }

module _ (obs : List ObservationRow) (now : ℤ) where
  pub settle-IsKept : (r : InvoiceRow) → IsKept obs r → IsKept obs (settle obs now r)
  unfolding scan_invoice
  settle-IsKept r h = touched-decide (scan_invoice r) (known obs now r) now h

  own-IsLife : (r : InvoiceRow) → IsKept obs r → IsLife r.status (own obs now r)
  unfolding scan_invoice
  own-IsLife r h = elim (Bool-cases (moves obs now r)) [
    | inl m ↦ subst (IsLife r.status) (sym (own-moves obs now r m)) (
      legal-decide (scan_invoice r) (known obs now r) now h (moves-open obs now r m)
          (not-eq-true _ m),
      tt,
    )
    | inr s ↦ subst (IsLife r.status) (sym (own-stays obs now r s)) tt
  ]

  pub settle-IsLived :
      (es new : List EventRow) (r : InvoiceRow)
      → IsMirrored es r
      → Tells obs now new r
      → IsKept obs r
      → IsLived es r
      → IsLived (es ++ new) (settle obs now r)
  settle-IsLived es new r mirror tell h lived =
      subst (IsLife pending) (sym (story-append es new r.id ∙ ap (λ l. story es r.id ++ l) tell)) (
        IsLife-append pending (story es r.id) (own obs now r) lived
          (subst (λ s. IsLife s (own obs now r)) (sym mirror) (own-IsLife r h)))
