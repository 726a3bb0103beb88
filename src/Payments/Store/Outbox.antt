-- ===== src/Payments/Store/Outbox.antt =====
-- The outbox: each status change that `Apply` reports has one event row, written with it.
use btcpay_gate.Base.{
  ℕ, suc, ◌≤◌, ◌<◌, ℤ, pos, ◌≡◌, refl, ap, subst, true, false, List, [], ◌∷◌, ◌++◌, map, keep,
  String, arith, Bool-cases, inl, inr, All,
}
use btcpay_gate.Time.{unix}
use btcpay_gate.Errors.{ok}
use btcpay_gate.Payments.State.{Status, terminal, eqb_status_self, decide-terminal}
use btcpay_gate.Payments.Store.Tables.{InvoiceRow, ObservationRow, EventRow, Tables}
use btcpay_gate.Payments.Store.Sql.{Conn}
use btcpay_gate.Payments.Store.Ops.{Update, StatusChange, scan_invoice, apply}
use btcpay_gate.Payments.Store.Spec.{
  upserted, next_status, moves, settled, changes_of, change_of, events_from, known,
}
use btcpay_gate.Payments.Store.Loop.{UniqueIds}
use btcpay_gate.Payments.Store.Apply.{Committed, apply_all_or_nothing}

-- What a status change, and an event, say of which invoice.
abbrev pub reported : StatusChange → String × Status
reported c = (c.invoice_id, c.to_status)

abbrev pub announced : EventRow → String × Status
announced e = (e.invoice_id, e.status)

-- A row that waits for its first delivery, with an id above `n`.
abbrev pub IsQueued : ℕ → ℤ → EventRow → Type 0
IsQueued n now e =
    (n < e.id) × (e.delivered ≡ pos 0) × (e.attempts ≡ pos 0) × (e.next_try_at ≡ unix now)

module _ (obs : List ObservationRow) (now : ℤ) where
  events_from-announced :
      (n : ℕ) (rs : List InvoiceRow)
      → map announced (events_from obs now n rs) ≡ map reported (map (change_of obs now) rs)
  events_from-announced n [] = refl
  events_from-announced n (r ∷ rs) =
      ap (λ xs. (r.id, next_status obs now r) ∷ xs) (events_from-announced (suc n) rs)

  events_from-IsQueued :
      (m n : ℕ) (rs : List InvoiceRow) → m ≤ n → All (IsQueued m now) (events_from obs now n rs)
  events_from-IsQueued m n [] h = tt
  events_from-IsQueued m n (r ∷ rs) h =
      ((omega arith, refl, refl, refl), events_from-IsQueued m (suc n) rs (omega arith))

  -- Only an invoice that is not final moves.
  pub moves-open : (r : InvoiceRow) → moves obs now r ≡ true → terminal r.status ≡ false
  unfolding scan_invoice
  moves-open r m = elim (Bool-cases (terminal r.status)) [
    | inl final ↦
        cc (decide-terminal (scan_invoice r) (known obs now r) now final, eqb_status_self r.status)
    | inr live ↦ live
  ]

-- The outbox after a run of `Apply`, given the one before.
abbrev pub Queued : ℤ → Tables → List StatusChange → Tables → Type 0
Queued now t changes t' =
    (new : List EventRow) × (t'.events ≡ t.events ++ new)
    × (map announced new ≡ map reported changes)
    × All (IsQueued t.last_event_id now) new

settled-Queued :
    (u : Update) (now : ℤ) (t : Tables) → Queued now t (changes_of u now t) (settled u now t)
settled-Queued u now t =
    let rows = upserted u.observations t.observations in
    let moving = keep (moves rows now) t.invoices in
    (
      events_from rows now t.last_event_id moving,
      refl,
      events_from-announced rows now t.last_event_id moving,
      events_from-IsQueued rows now t.last_event_id t.last_event_id moving (omega arith),
    )

-- When `Apply` succeeds over unique ids, it appends to the outbox exactly one row for each change
-- that it returns, in the same order, with the same invoice and status, undelivered and due at
-- once, under ids that were never used.
pub outbox_complete :
    (u : Update) (now : ℤ) (c c' : Conn) (changes : List StatusChange)
    → UniqueIds c.tables.invoices
    → apply u now c ≡ (ok changes, c')
    → Queued now c.tables changes c'.tables
outbox_complete u now c c' changes ids e =
    let done = subst (Committed u now c) e (apply_all_or_nothing u now c ids) in
    rw (done.0, done.1) (settled-Queued u now c.tables)
