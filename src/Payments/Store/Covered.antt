-- ===== src/Payments/Store/Covered.antt =====
-- What a confirmation that was announced to the merchant guarantees.
use btcpay_gate.Base.{
  ℕ, suc, ℤ, pos, ◌≤ℤ◌, ◌≡◌, refl, ap, subst, true, List, [], ◌∷◌, ◌++◌, keep, String, Bool-cases,
  inl, inr, All, All-imp, All-and, All-keep, Any, ◌≢◌, sym, keep-hit, keep-miss,
}
use btcpay_gate.Errors.{ok}
use btcpay_gate.Payments.State.{confirmed}
use btcpay_gate.Payments.State.Settled.{confirmed_covers}
use btcpay_gate.Payments.Store.Tables.{InvoiceRow, ObservationRow, EventRow, Tables}
use btcpay_gate.Payments.Store.Sql.{Conn}
use btcpay_gate.Payments.Store.Ops.{Update, StatusChange, scan_invoice, apply}
use btcpay_gate.Payments.Store.Spec.{upserted, next_status, moves, event_of, events_from, known}
use btcpay_gate.Payments.Store.Loop.{UniqueIds}
use btcpay_gate.Payments.Store.Apply.{Committed, apply_all_or_nothing}
use btcpay_gate.Payments.Store.Outbox.{moves-open}

-- The event reports a sum that covers the amount of the invoice, and a count that reaches its
-- threshold and is at least one.
abbrev pub Covers : InvoiceRow → EventRow → Type 0
Covers r e =
    (r.amount_sat ≤ℤ e.paid_sat) × (r.required_conf ≤ℤ e.confirmations) × (pos 1 ≤ℤ e.confirmations)

-- Confirmed events of the invoice cover it.
abbrev pub AreCovering : List EventRow → InvoiceRow → Type 0
AreCovering es r = All (λ e. e.invoice_id ≡ r.id → e.status ≡ confirmed → Covers r e) es

-- Some invoice of the table has the event's id, an amount that the event's sum covers, and a
-- threshold that the event's count reaches.
abbrev pub IsCovered : List InvoiceRow → EventRow → Type 0
IsCovered rows e = Any (λ r. (r.id ≡ e.invoice_id) × Covers r e) rows

module _ (obs : List ObservationRow) (now : ℤ) where
  Covers-one :
      (r : InvoiceRow)
      → moves obs now r ≡ true
      → next_status obs now r ≡ confirmed
      → Covers r (event_of obs now 0 r)
  unfolding scan_invoice
  Covers-one r m e =
      confirmed_covers (scan_invoice r) (known obs now r) now (moves-open obs now r m) e

  -- The confirmed events of the invoices that move are covered.
  pub covers-All :
      (n : ℕ) (rs : List InvoiceRow)
      → All
          (λ e. e.status ≡ confirmed → IsCovered rs e)
          (events_from obs now n (keep (moves obs now) rs))
  covers-All n [] = tt
  covers-All n (r ∷ rs) = elim (Bool-cases (moves obs now r)) [
    | inl m ↦ rw m (
      λ e. (let h = Covers-one r m e in inl (refl, h)),
      All-imp _ _ (λ e k c. inr (k c)) _ (covers-All (suc n) rs),
    )
    | inr s ↦ rw s (All-imp _ _ (λ e k c. inr (k c)) _ (covers-All n rs))
  ]

  events_from-apart :
      (id : String) (n : ℕ) (rs : List InvoiceRow)
      → All (λ x. x.id ≢ id) rs
      → All (λ e. e.invoice_id ≢ id) (events_from obs now n rs)
  events_from-apart id n [] h = tt
  events_from-apart id n (r ∷ rs) h = (h.0, events_from-apart id (suc n) rs h.1)

  apart-AreCovering :
      (r : InvoiceRow) (n : ℕ) (rs : List InvoiceRow)
      → All (λ x. x.id ≢ r.id) rs
      → AreCovering (events_from obs now n (keep (moves obs now) rs)) r
  apart-AreCovering r n rs h =
      All-imp _ _ (λ e other same _. absurd (other same)) _
        (events_from-apart r.id n _ (All-keep _ (moves obs now) rs h))

  -- The new events cover each invoice that they confirm.
  pub told-AreCovering :
      (n : ℕ) (rs : List InvoiceRow)
      → UniqueIds rs
      → All (AreCovering (events_from obs now n (keep (moves obs now) rs))) rs
  told-AreCovering n [] u = tt
  told-AreCovering n (r ∷ rs) u = elim (Bool-cases (moves obs now r)) [
    | inl m ↦
        subst (λ l. All (AreCovering (events_from obs now n l)) (r ∷ rs))
          (sym (keep-hit (moves obs now) r rs m))
          (
            ((λ _ e. Covers-one r m e), apart-AreCovering r (suc n) rs u.0),
            All-imp _ _ (λ x k. ((λ same _. absurd (k.0 (sym same))), k.1)) rs
                (All-and _ _ rs u.0 (told-AreCovering (suc n) rs u.1)),
          )
    | inr s ↦
        subst (λ l. All (AreCovering (events_from obs now n l)) (r ∷ rs))
          (sym (keep-miss (moves obs now) r rs s))
          (apart-AreCovering r n rs u.0, told-AreCovering n rs u.1)
  ]

-- When `Apply` succeeds over unique ids, every event that it appends with the status confirmed
-- reports a sum that covers the amount of the invoice and a count that reaches its threshold and is
-- at least one.
pub confirmed_events-IsCovered :
    (u : Update) (now : ℤ) (c c' : Conn) (changes : List StatusChange)
    → UniqueIds c.tables.invoices
    → apply u now c ≡ (ok changes, c')
    → (new : List EventRow) × (c'.tables.events ≡ c.tables.events ++ new)
      × All (λ e. e.status ≡ confirmed → IsCovered c.tables.invoices e) new
confirmed_events-IsCovered u now c c' changes ids e =
    let done = subst (Committed u now c) e (apply_all_or_nothing u now c ids) in
    let rows = upserted u.observations c.tables.observations in
    (
      events_from rows now c.tables.last_event_id (keep (moves rows now) c.tables.invoices),
      ap (λ (t : Tables). t.events) done.1,
      covers-All rows now c.tables.last_event_id c.tables.invoices,
    )
