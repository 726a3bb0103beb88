-- ===== src/Gateway/Depth.antt =====
-- An invoice that asks for more confirmations than are ever reported is never confirmed:
-- internal/monitor/monitor.go, `DefaultWindow`, against the thresholds of internal/api/api.go.
use btcpay_gate.Base.{
  ℕ, suc, ℤ, pos, ◌≤ℤ◌, ◌≡◌, sym, subst, inl, inr, Bool, true, false, List, [], ◌∷◌, map, All,
  All-imp, All-append, All-and, Bool-cases, String, ◌==◌, arith,
}
use btcpay_gate.Errors.{Result, ok, err}
use btcpay_gate.Payments.State.{confirmed, Invoice, Observation, min_confirmations, min_conf_from}
use btcpay_gate.Payments.Store.Tables.{
  InvoiceRow, ObservationRow, EventRow, Tables, empty_tables, rows_of, excluded,
}
use btcpay_gate.Payments.Store.Sql.{Conn}
use btcpay_gate.Payments.Store.Ops.{
  ObservationUpdate, Update, StatusChange, observation_row, scan_observation, create_invoice, apply,
}
use btcpay_gate.Payments.Store.Spec.{upserted, events_from}
use btcpay_gate.Payments.Store.Upsert.{upsert-keeps}
use btcpay_gate.Payments.Store.Apply.{Committed, apply_all_or_nothing}
use btcpay_gate.Payments.Store.Create.{Created, create_invoice_outcome}
use btcpay_gate.Webhook.Rows.{SameEvents-All, Recorded, deliver_one-Recorded}
use btcpay_gate.Gateway.{meeting, Step, creates, applies, delivers, Reach, here, next}
use btcpay_gate.Gateway.Sound.{IsSound, empty-IsSound, Reach-IsSound}
use btcpay_gate.Gateway.Lifecycle.{empty-IsLawful}
use btcpay_gate.Gateway.Lawful.{WasPaid, Reach-IsLawful, confirmed-WasPaid}

module _ (k : ℤ) (low : pos 0 ≤ℤ k) where
  -- No count above `k` is applied in the step.
  abbrev pub IsModest : {t t' : Tables} → Step t t' → Type 0
  IsModest (creates inv fs new e) = Unit
  IsModest (applies u now fs known e) = All (λ o. o.observation.confirmations ≤ℤ k) u.observations
  IsModest (delivers h s p fs e) = Unit

  -- Nor in any step on the way.
  abbrev pub AllModest : {t t' : Tables} → Reach t t' → Type 0
  AllModest here = Unit
  AllModest (next r step) = AllModest r × IsModest step

  -- No stored count is above `k`.
  record IsShallow (t : Tables) : Type 0 where
    observations : All (λ o. o.confirmations ≤ℤ k) t.observations
    events : All (λ e. e.confirmations ≤ℤ k) t.events

  min_conf_from-low :
      (obs : List Observation) (m : ℤ) (first : Bool)
      → m ≤ℤ k
      → All (λ o. o.confirmations ≤ℤ k) obs
      → min_conf_from obs m first ≤ℤ k
  unfolding min_conf_from
  min_conf_from-low [] m first h all = h
  min_conf_from-low (o ∷ obs) m first h all =
      ground (arith, min_conf_from-low obs o.confirmations false, min_conf_from-low obs m first)

  known_low :
      (id : String) (rows : List ObservationRow)
      → All (λ o. o.confirmations ≤ℤ k) rows
      → All (λ o. o.confirmations ≤ℤ k) (map scan_observation (rows_of id rows))
  unfolding rows_of scan_observation
  known_low id [] h = tt
  known_low id (r ∷ rows) h = elim (Bool-cases (r.invoice_id == id)) [
    | inl own ↦ rw own (h.0, known_low id rows h.1)
    | inr other ↦ rw other (known_low id rows h.1)
  ]

  module _ (obs : List ObservationRow) (now : ℤ) (all : All (λ o. o.confirmations ≤ℤ k) obs) where
    events_from_low :
        (n : ℕ) (rs : List InvoiceRow) → All (λ e. e.confirmations ≤ℤ k) (events_from obs now n rs)
    unfolding min_confirmations
    events_from_low n [] = tt
    events_from_low n (r ∷ rs) = (
      min_conf_from-low (map scan_observation (rows_of r.id obs)) (pos 0) true low
          (known_low r.id obs all),
      events_from_low (suc n) rs,
    )

  upserted_low :
      (us : List ObservationUpdate) (rows : List ObservationRow)
      → All (λ o. o.observation.confirmations ≤ℤ k) us
      → All (λ o. o.confirmations ≤ℤ k) rows
      → All (λ o. o.confirmations ≤ℤ k) (upserted us rows)
  unfolding observation_row excluded
  upserted_low [] rows h all = all
  upserted_low (u ∷ us) rows h all =
      upserted_low us _ h.1
        (upsert-keeps (λ o. o.confirmations ≤ℤ k) (observation_row u) rows all h.0 (λ r _ _. h.0))

  Committed-IsShallow :
      (u : Update) (now : ℤ) (c : Conn) (r : Result (List StatusChange) × Conn)
      → Committed u now c r
      → All (λ o. o.observation.confirmations ≤ℤ k) u.observations
      → IsShallow c.tables
      → IsShallow r.1.tables
  Committed-IsShallow u now c (ok changes, c') h modest s =
      let rows = upserted_low u.observations c.tables.observations modest s.observations in
      subst IsShallow (sym h.1) (record {
        observations = rows;
        events =
            All-append _ c.tables.events _ s.events
              (events_from_low _ now rows c.tables.last_event_id _);
      })
  Committed-IsShallow u now c (err e, c') h modest s = subst IsShallow (sym h.0) s

  Created-IsShallow :
      (inv : Invoice) (c : Conn) (r : Result (Unit {0}) × Conn)
      → Created inv c r
      → IsShallow c.tables
      → IsShallow r.1.tables
  Created-IsShallow inv c (ok a, c') h s =
      subst IsShallow (sym h.0) (record { observations = s.observations; events = s.events })
  Created-IsShallow inv c (err e, c') h s = subst IsShallow (sym h.0) s

  Recorded-IsShallow : (t t' : Tables) → Recorded t t' → IsShallow t → IsShallow t'
  Recorded-IsShallow t t' (es, same, e) s = subst IsShallow (sym e) (record {
    observations = s.observations;
    events = SameEvents-All (λ x. x.confirmations ≤ℤ k) t.events es same s.events;
  })

  Step-IsShallow :
      {t t' : Tables} (step : Step t t') → IsModest step → IsSound t → IsShallow t → IsShallow t'
  Step-IsShallow {t} (creates inv fs new e) modest sound s = subst IsShallow (sym e) (
      Created-IsShallow inv (meeting t fs) (create_invoice inv (meeting t fs))
        (create_invoice_outcome inv (meeting t fs)) s)
  Step-IsShallow {t} (applies u now fs known e) modest sound s = subst IsShallow (sym e) (
      Committed-IsShallow u now (meeting t fs) (apply u now (meeting t fs))
        (apply_all_or_nothing u now (meeting t fs) sound.valid.ids) modest s)
  Step-IsShallow {t} (delivers h p_sender p fs e) modest sound s =
      subst IsShallow (sym e) (Recorded-IsShallow t _ (deliver_one-Recorded h p_sender p t fs) s)

  Reach-IsShallow : {t : Tables} (r : Reach empty_tables t) → AllModest r → IsShallow t
  Reach-IsShallow here modest = record { observations = tt; events = tt }
  Reach-IsShallow (next r step) modest =
      Step-IsShallow step modest.1 (Reach-IsSound r empty-IsSound) (Reach-IsShallow r modest.0)

  threshold_low :
      (r : InvoiceRow) (es : List EventRow)
      → All (λ e. e.confirmations ≤ℤ k) es
      → WasPaid es r
      → r.required_conf ≤ℤ k
  threshold_low r [] low_all h = absurd h
  threshold_low r (e ∷ es) low_all (inl h) = omega (arith, h.2.1, low_all.0)
  threshold_low r (e ∷ es) low_all (inr h) = threshold_low r es low_all.1 h

  -- If no step since the empty database applied a count above `k`, which is not negative, then no
  -- invoice with a threshold above `k` is confirmed, whatever was paid for it.
  pub threshold_in_reach :
      (t : Tables) (r : Reach empty_tables t)
      → AllModest r
      → All (λ x. x.status ≡ confirmed → x.required_conf ≤ℤ k) t.invoices
  threshold_in_reach t r modest =
      All-imp _ _
        (λ x h done.
          threshold_low x t.events (Reach-IsShallow r modest).events
            (confirmed-WasPaid t.events x h.0 h.1 done))
        t.invoices
        (All-and _ _ t.invoices (Reach-IsSound r empty-IsSound).mirrors
          (Reach-IsLawful r empty-IsSound empty-IsLawful).covers)
