-- ===== src/Payments/Store/Loop.antt =====
-- The recompute loop, which updates one row after the other, settles every row at once.
use native.Mathlib.Nat.{add-zero}
use btcpay_gate.Base.{
  suc, ◌+◌, ℤ, ◌≡◌, refl, sym, ap, ◌∙◌, ◌≢◌, Bool, true, false, not, List, [], ◌∷◌, ◌++◌, map, keep,
  length, String, eq_iff, eq_refl, ne→eq-false, arith, All, All-keep, Bool-cases, inl, inr,
}
use btcpay_gate.Payments.State.{
  Status, eqb_status, terminal, eqb_status_self, eqb_status_eq, decide-terminal,
}
use btcpay_gate.Payments.Store.Tables.{
  InvoiceRow, ObservationRow, Tables, open_rows, set_status, insert_event,
}
use btcpay_gate.Payments.Store.Ops.{StatusChange, Update, scan_invoice}
use btcpay_gate.Payments.Store.Spec.{
  upserted, known, next_status, settle, moves, change_of, event_of, events_from, settled,
  changes_of, moved_cursor,
}
use btcpay_gate.Payments.Store.Steps.{recomputed, recorded, applied}
use mathlib.Core.List.{append_assoc, append-nil}

-- No two invoices share an id: the primary key.
abbrev pub UniqueIds : List InvoiceRow → Type 0
UniqueIds [] = Unit
UniqueIds (r ∷ rs) = All (λ x. x.id ≢ r.id) rs × UniqueIds rs

module _ (obs : List ObservationRow) (now : ℤ) where
  abbrev set_all : List InvoiceRow → List InvoiceRow → List InvoiceRow
  set_all [] invs = invs
  set_all (m ∷ ms) invs = set_all ms (set_status (next_status obs now m) m.id invs)

  -- The tables after the loop has gone over the rows that move.
  abbrev swept : List InvoiceRow → Tables → Tables
  swept ms t = record t {
    invoices = set_all ms t.invoices;
    events = t.events ++ events_from obs now t.last_event_id ms;
    last_event_id = t.last_event_id + length ms;
  }

  -- A final invoice does not move.
  terminal-moves : (r : InvoiceRow) → terminal r.status ≡ true → moves obs now r ≡ false
  unfolding scan_invoice
  terminal-moves r h =
      ap (λ s. not (eqb_status s r.status))
        (decide-terminal (scan_invoice r) (known obs now r) now h)
      ∙ ap not (eqb_status_self r.status)

  sweep-step :
      (m : InvoiceRow) (ms : List InvoiceRow) (t : Tables)
      → swept ms (recorded now (scan_invoice m) (known obs now m) (next_status obs now m) t).1
        ≡ swept (m ∷ ms) t
  unfolding insert_event scan_invoice
  sweep-step m ms t = λ i. record {
    invoices = set_all (m ∷ ms) t.invoices;
    observations = t.observations;
    cursor = t.cursor;
    events =
        append_assoc t.events (event_of obs now (suc t.last_event_id) m ∷ [])
          (events_from obs now (suc t.last_event_id) ms) i;
    last_event_id = last i;
  }
    where
      last : suc t.last_event_id + length ms ≡ t.last_event_id + suc (length ms)
      last = omega arith

  sweep-nil : (t : Tables) → swept [] t ≡ t
  sweep-nil t = λ i. record {
    invoices = t.invoices;
    observations = t.observations;
    cursor = t.cursor;
    events = append-nil t.events i;
    last_event_id = add-zero t.last_event_id i;
  }

pub not-eq-false : (b : Bool) → not b ≡ false → b ≡ true
not-eq-false true h = refl
not-eq-false false h = cc

pub not-eq-true : (b : Bool) → not b ≡ true → b ≡ false
not-eq-true true h = cc
not-eq-true false h = refl

module _ (now : ℤ) where
  -- What the loop does to the rows `rs` that it has read, when the tables are at `t`.
  abbrev Swept : List InvoiceRow → Tables → Type 0
  Swept rs t = recomputed now (map scan_invoice (open_rows rs)) t ≡ (
    map (change_of t.observations now) (keep (moves t.observations now) rs),
    swept t.observations now (keep (moves t.observations now) rs) t,
  )

  Swept-skip :
      (r : InvoiceRow) (rs : List InvoiceRow) (t : Tables)
      → terminal r.status ≡ true
      → Swept rs t
      → Swept (r ∷ rs) t
  unfolding open_rows
  Swept-skip r rs t h ih = rw (h, terminal-moves t.observations now r h) ih

  Swept-stay :
      (r : InvoiceRow) (rs : List InvoiceRow) (t : Tables)
      → terminal r.status ≡ false
      → moves t.observations now r ≡ false
      → Swept rs t
      → Swept (r ∷ rs) t
  unfolding open_rows scan_invoice
  Swept-stay r rs t h m ih =
      rw (h, not-eq-false (eqb_status (next_status t.observations now r) r.status) m) ih

  Swept-move :
      (r : InvoiceRow) (rs : List InvoiceRow) (t : Tables)
      → terminal r.status ≡ false
      → moves t.observations now r ≡ true
      → Swept rs
          (recorded now
            (scan_invoice r)
            (known t.observations now r)
            (next_status t.observations now r)
            t).1
      → Swept (r ∷ rs) t
  unfolding open_rows scan_invoice insert_event
  Swept-move r rs t h m ih =
      rw (h, not-eq-true (eqb_status (next_status t.observations now r) r.status) m)
        (ap (λ (p : List StatusChange × Tables). (change_of t.observations now r ∷ p.0, p.1)) ih
          ∙ ap
              (λ (t' : Tables).
                (map (change_of t.observations now) (r ∷ keep (moves t.observations now) rs), t'))
              (sweep-step t.observations now r (keep (moves t.observations now) rs) t))

  sweep : (rs : List InvoiceRow) (t : Tables) → Swept rs t
  unfolding open_rows insert_event
  sweep [] t = ap (λ t'. ([], t')) (sym (sweep-nil t.observations now t))
  sweep (r ∷ rs) t = elim (Bool-cases (terminal r.status)) [
    | inl final ↦ Swept-skip r rs t final (sweep rs t)
    | inr live ↦ elim (Bool-cases (moves t.observations now r)) [
      | inl m ↦ Swept-move r rs t live m (sweep rs _)
      | inr s ↦ Swept-stay r rs t live s (sweep rs t)
    ]
  ]

module _ (obs : List ObservationRow) (now : ℤ) where
  -- Updating by id leaves a row with another id alone.
  set_all-cons :
      (ms : List InvoiceRow) (r : InvoiceRow) (rs : List InvoiceRow)
      → All (λ m. m.id ≢ r.id) ms
      → set_all obs now ms (r ∷ rs) ≡ r ∷ set_all obs now ms rs
  unfolding set_status
  set_all-cons [] r rs h = refl
  set_all-cons (m ∷ ms) r rs h =
      rw (ne→eq-false r.id m.id (λ e. h.0 (sym e)))
        (set_all-cons ms r (set_status (next_status obs now m) m.id rs) h.1)

  set_status-miss :
      (s : Status) (id : String) (rs : List InvoiceRow)
      → All (λ x. x.id ≢ id) rs
      → set_status s id rs ≡ rs
  unfolding set_status
  set_status-miss s id [] h = refl
  set_status-miss s id (r ∷ rs) h = ground (arith, eq_iff r.id id, set_status-miss s id rs h.1)

  set_status-hit :
      (s : Status) (r : InvoiceRow) (rs : List InvoiceRow)
      → All (λ x. x.id ≢ r.id) rs
      → set_status s r.id (r ∷ rs) ≡ record r { status = s } ∷ rs
  unfolding set_status
  set_status-hit s r rs h = rw (eq_refl r.id, set_status-miss s r.id rs h)

  -- Over unique ids the updates of the rows that move settle every row.
  set_all-settles :
      (rs : List InvoiceRow)
      → UniqueIds rs
      → set_all obs now (keep (moves obs now) rs) rs ≡ map (settle obs now) rs
  unfolding set_status
  set_all-settles [] u = refl
  set_all-settles (r ∷ rs) u = elim (Bool-cases (moves obs now r)) [
    | inl m ↦ rw m (
        ap (set_all obs now (keep (moves obs now) rs))
          (set_status-hit (next_status obs now r) r rs u.0)
        ∙ set_all-cons (keep (moves obs now) rs) (settle obs now r) rs
            (All-keep (λ x. x.id ≢ r.id) (moves obs now) rs u.0)
        ∙ ap (λ xs. settle obs now r ∷ xs) (set_all-settles rs u.1))
    | inr s ↦ rw s (
        set_all-cons (keep (moves obs now) rs) r rs
          (All-keep (λ x. x.id ≢ r.id) (moves obs now) rs u.0)
        ∙ (λ i. stays s i ∷ set_all-settles rs u.1 i))
  ]
    where
      stays : moves obs now r ≡ false → r ≡ settle obs now r
      stays s = λ i. record r {
        status = sym (eqb_status_eq (next_status obs now r) r.status (not-eq-false _ s)) i;
      }

-- Over unique ids, `Apply` carried out statement by statement is the specification.
pub applied-settled :
    (u : Update) (now : ℤ) (t : Tables)
    → UniqueIds t.invoices
    → applied u now t ≡ (changes_of u now t, settled u now t)
applied-settled u now t unique =
    ap
      (λ (p : List StatusChange × Tables).
        (p.0, record p.1 { cursor = moved_cursor u.cursor p.1.cursor }))
      (sweep now t.invoices (record t { observations = upserted u.observations t.observations }))
    ∙ (λ i. (
      changes_of u now t,
      record (settled u now t) {
        invoices = set_all-settles (upserted u.observations t.observations) now t.invoices unique i;
      },
    ))
