-- ===== src/Payments/Store/Replay.antt =====
-- Replaying an update: what makes the cursor safe to replay after a crash.
use native.Mathlib.Nat.{add-zero}
use mathlib.Core.List.{append-nil}
use btcpay_gate.Base.{
  ◌+◌, ℤ, ◌≡◌, refl, sym, ap, ◌∙◌, false, not, Option, List, [], ◌∷◌, ◌++◌, map, keep, length,
  String, ◌==◌, Bool-cases, inl, inr, subst, All, ◌≢◌,
}
use btcpay_gate.Errors.{Result, ok, err}
use btcpay_gate.Payments.State.{eqb_status, eqb_status_self}
use btcpay_gate.Payments.State.Settled.{decide_idem}
use btcpay_gate.Payments.Store.Tables.{InvoiceRow, ObservationRow, Tables}
use btcpay_gate.Payments.Store.Sql.{Conn}
use btcpay_gate.Payments.Store.Runs.{IsFaulty}
use btcpay_gate.Payments.Store.Ops.{
  ObservationUpdate, Update, StatusChange, scan_invoice, observation_row, apply,
}
use btcpay_gate.Payments.Store.Spec.{
  upserted, next_status, settle, moves, settled, changes_of, moved_cursor, events_from, known,
}
use btcpay_gate.Payments.Store.Loop.{UniqueIds}
use btcpay_gate.Payments.Store.Upsert.{UniqueKeys, upsert_rows}
use btcpay_gate.Payments.Store.Batch.{upsert_rows_idem}
use btcpay_gate.Payments.Store.Apply.{Committed, apply_all_or_nothing}

upserted-rows :
    (us : List ObservationUpdate) (rows : List ObservationRow)
    → upserted us rows ≡ upsert_rows (map observation_row us) rows
upserted-rows [] rows = refl
upserted-rows (u ∷ us) rows = upserted-rows us _

upserted_idem :
    (us : List ObservationUpdate) (rows : List ObservationRow)
    → UniqueKeys rows
    → upserted us (upserted us rows) ≡ upserted us rows
upserted_idem us rows h = simp upserted-rows (upsert_rows_idem (map observation_row us) rows h)

module _ (obs : List ObservationRow) (now : ℤ) where
  next_status-settle :
      (r : InvoiceRow) → next_status obs now (settle obs now r) ≡ next_status obs now r
  unfolding scan_invoice
  next_status-settle r = decide_idem (unfold scan_invoice in scan_invoice r) (known obs now r) now

  -- What has been settled does not move.
  settled_still : (rs : List InvoiceRow) → keep (moves obs now) (map (settle obs now) rs) ≡ []
  settled_still [] = refl
  settled_still (r ∷ rs) = rw still (settled_still rs)
    where
      still : moves obs now (settle obs now r) ≡ false
      still =
          ap (λ s. not (eqb_status s (next_status obs now r))) (next_status-settle r)
          ∙ ap not (eqb_status_self (next_status obs now r))

  settle-settle :
      (rs : List InvoiceRow)
      → map (settle obs now) (map (settle obs now) rs) ≡ map (settle obs now) rs
  settle-settle [] = refl
  settle-settle (r ∷ rs) = λ i. record r { status = next_status-settle r i } ∷ settle-settle rs i

  All-settle :
      (id : String) (rs : List InvoiceRow)
      → All (λ x. x.id ≢ id) rs
      → All (λ x. x.id ≢ id) (map (settle obs now) rs)
  All-settle id [] h = tt
  All-settle id (r ∷ rs) h = (h.0, All-settle id rs h.1)

  pub settle-UniqueIds : (rs : List InvoiceRow) → UniqueIds rs → UniqueIds (map (settle obs now) rs)
  settle-UniqueIds [] h = tt
  settle-UniqueIds (r ∷ rs) h = (All-settle r.id rs h.0, settle-UniqueIds rs h.1)

moved_cursor_idem :
    (hash : String) (old : Option String)
    → moved_cursor hash (moved_cursor hash old) ≡ moved_cursor hash old
moved_cursor_idem hash old = elim (Bool-cases (hash == "")) [ inl e ↦ rw e | inr e ↦ rw e ]

module _ (u : Update) (now : ℤ) (t : Tables) (unique : UniqueKeys t.observations) where
  rows_twice :
      upserted u.observations (upserted u.observations t.observations)
      ≡ upserted u.observations t.observations
  rows_twice = upserted_idem u.observations t.observations unique

  still_twice :
      keep
        (moves (upserted u.observations (settled u now t).observations) now)
        (settled u now t).invoices
      ≡ []
  still_twice = rw rows_twice (settled_still _ now t.invoices)

  changes_of-settled : changes_of u now (settled u now t) ≡ []
  changes_of-settled = ap (map _) still_twice

  settled-settled : settled u now (settled u now t) ≡ settled u now t
  settled-settled =
      let rows = upserted u.observations t.observations in
      let again = upserted u.observations rows in
      let done = settled u now t in
      λ i. record {
        invoices =
            (ap (λ o. map (settle o now) done.invoices) rows_twice
                ∙ settle-settle rows now t.invoices)
              i;
        observations = rows_twice i;
        cursor = moved_cursor_idem u.cursor t.cursor i;
        events =
            (ap (λ ms. done.events ++ events_from again now done.last_event_id ms) still_twice
                ∙ append-nil done.events)
              i;
        last_event_id =
            (ap (λ (ms : List InvoiceRow). done.last_event_id + length ms) still_twice
                ∙ add-zero done.last_event_id)
              i;
      }

-- How a run of `Apply` on what it has just applied may end: either way no table changes.
abbrev pub Unchanged : Conn → Result (List StatusChange) × Conn → Type 0
Unchanged c (ok changes, c') = (changes ≡ []) × (c'.tables ≡ c.tables)
Unchanged c (err e, c') = (c'.tables ≡ c.tables) × IsFaulty c.faults

Unchanged-of_Committed :
    (u : Update) (now : ℤ) (t : Tables) (c : Conn) (r : Result (List StatusChange) × Conn)
    → UniqueKeys t.observations
    → c.tables ≡ settled u now t
    → Committed u now c r
    → Unchanged c r
Unchanged-of_Committed u now t c (ok changes, c') unique e h = (
  h.0 ∙ (ap (changes_of u now) e ∙ changes_of-settled u now t unique),
  h.1 ∙ (ap (settled u now) e ∙ (settled-settled u now t unique ∙ sym e)),
)
Unchanged-of_Committed u now t c (err x, c') unique e h = h

Committed-ok :
    (u : Update) (now : ℤ) (c c' : Conn) (changes : List StatusChange)
    → apply u now c ≡ (ok changes, c')
    → Committed u now c (apply u now c)
    → c'.tables ≡ settled u now c.tables
Committed-ok u now c c' changes e h = (subst (Committed u now c) e h).1

-- Over unique invoice ids and unique (txid, vout) keys, once `Apply` has succeeded, running it
-- again with the same update at the same time, whatever the engine then does, changes no table,
-- reports no status change, and fails only by a fault.
pub replay_harmless :
    (u : Update) (now : ℤ) (c c' : Conn) (changes : List StatusChange)
    → UniqueIds c.tables.invoices
    → UniqueKeys c.tables.observations
    → apply u now c ≡ (ok changes, c')
    → (faults : List (Option String))
    → Unchanged (record c' { faults = faults }) (apply u now (record c' { faults = faults }))
replay_harmless u now c c' changes ids keys e faults =
    Unchanged-of_Committed u now c.tables again (apply u now again) keys done (
      apply_all_or_nothing u now again (
        subst (λ (t : Tables). UniqueIds t.invoices) (sym done)
          (settle-UniqueIds (upserted u.observations c.tables.observations) now c.tables.invoices
            ids)))
  where
    again : Conn
    again = record c' { faults = faults }

    done : c'.tables ≡ settled u now c.tables
    done = Committed-ok u now c c' changes e (apply_all_or_nothing u now c ids)
