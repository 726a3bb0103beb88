-- ===== src/Payments/Tests.antt =====
-- Runs of the lifecycle and the store on concrete data, and the theorems at inputs that meet
-- their hypotheses.
pub mod StoreRuns
use mathlib.Core.List.Perm
use text.Mathlib.TextEquality.{IsScalar-prop}
use mathlib.Core.List.{Mem, not-mem-nil, forall_mem-cons}
use btcpay_gate.Base.{
  ap, pos_part, eq_iff, ◌==◌, not, ℤ, pos, ◌+ℤ◌, ◌≤ℤ◌, ◌<ℤ◌, ◌≡◌, refl, ◌≢◌, ◌↔◌, Bool, true, false,
  Option, none, some, List, [], ◌∷◌, ◌++◌, String, All, arith, inl, inr,
}
use btcpay_gate.Errors.{Result, ok, err}
use btcpay_gate.Payments.State.{
  Status, pending, seen, confirming, confirmed, expired, reorged, Invoice, Observation, decide,
  decide_from, decide_empty, decide_live, collect, tally, terminal, paid, min_confirmations,
}
use btcpay_gate.Payments.State.Totals.{received}
use btcpay_gate.Payments.State.Verdict.{Verdict, decide_iff}
use btcpay_gate.Payments.State.Order.{SameReport, report_perm}
use btcpay_gate.Payments.State.Sorting.{
  sooner, IsTotal, KeysDecide, IsSorted, IsSortOf, sort_unique,
}
use btcpay_gate.Payments.State.Transitions.{legal}
use btcpay_gate.Payments.State.Exact.{IsTaken, legal_iff}
use btcpay_gate.Payments.State.Bags.{Factors, report_factors}
use mathlib.Core.Equiv.{IsContr}
use btcpay_gate.Payments.State.Settled.{confirmed_covers, in_flight, decide_idem}
use btcpay_gate.Payments.Store.Tables.{
  Tables, empty_tables, EventRow, insert_invoice, insert_event, open_rows, rows_of, set_status,
  upsert, same_key, excluded, max_deriv_index,
}
use btcpay_gate.Payments.Store.Sql.{Conn, statement, query, exec, attempt, transaction, ◌>>=◌}
use btcpay_gate.Payments.Store.Ops.{
  ObservationUpdate, Update, StatusChange, apply, upsert_all, open_invoices, recompute,
  recompute_one, record_change, save_cursor, observations_tx, invoice_row, scan_invoice,
  scan_observation, observation_row, create_invoice, next_deriv_index, invoice, invoice_by_address,
}
use btcpay_gate.Payments.Store.Apply.{Committed, apply_all_or_nothing}
use btcpay_gate.Payments.Store.Replay.{Unchanged, replay_harmless}
use btcpay_gate.Payments.Store.Outbox.{Queued, outbox_complete}
use btcpay_gate.Payments.Store.Covered.{IsCovered, confirmed_events-IsCovered}
use btcpay_gate.Payments.Store.Invariant.{IsValid, apply-IsValid}
use btcpay_gate.Payments.Store.Create.{
  Created, create_invoice_outcome, create_invoice-IsValid, stored, calm, create_invoice_roundtrip,
}
use btcpay_gate.Payments.Store.Indexes.{next_deriv_index_fresh}
use btcpay_gate.Time.{second, unix, of_unix}
use btcpay_gate.Base.Word.{wrap64, IsInt64}
use Prim.Native.Nat.{◌*◌}

abbrev pub bill : Invoice
bill = record {
  id = "inv_a";
  address = "bc1qa";
  deriv_index = pos 0;
  amount_sat = pos 150_000;
  required_conf = pos 2;
  status = pending;
  created_at = pos (1000 * second);
  expires_at = pos (2800 * second);
}

abbrev payment : ℤ → Observation
payment confirmations = record {
  txid = "t1";
  vout = pos 0;
  amount_sat = pos 150_000;
  confirmations = confirmations;
  removed = false;
}

abbrev lost : Observation
lost = record (payment (pos 1)) { removed = true }

-- The lifecycle of the README: seen, confirming, confirmed; expired; reorged.
lifecycle :
    (decide bill (payment (pos 0) ∷ []) (pos 0) ≡ seen)
    × (decide bill (payment (pos 1) ∷ []) (pos 0) ≡ confirming)
    × (decide bill (payment (pos 2) ∷ []) (pos 0) ≡ confirmed)
    × (decide bill [] (pos (2800 * second)) ≡ expired)
    × (decide (record bill { status = confirming }) (lost ∷ []) (pos 0) ≡ reorged)
unfolding decide decide_from decide_empty decide_live collect tally terminal wrap64 ◌+ℤ◌
lifecycle = (refl, refl, refl, refl, refl)

bill_open : terminal bill.status ≡ false
unfolding terminal
bill_open = refl

received_fits : IsInt64 (received (payment (pos 2) ∷ []))
unfolding received ◌+ℤ◌
received_fits = omega arith

decide_iff_example :
    (decide bill (payment (pos 2) ∷ []) (pos 0) ≡ confirmed)
    ↔ Verdict bill (payment (pos 2) ∷ []) (pos 0) confirmed
decide_iff_example =
    decide_iff bill (payment (pos 2) ∷ []) (pos 0) confirmed bill_open (omega arith) received_fits

-- Two outputs of one transaction, as the engine may return them.
abbrev first_output : Observation
first_output = payment (pos 2)

abbrev second_output : Observation
second_output = record first_output { vout = pos 1 }

abbrev in_order : List Observation
in_order = first_output ∷ second_output ∷ []

abbrev as_returned : List Observation
as_returned = second_output ∷ first_output ∷ []

-- An order on strings for these data: it tells different strings apart.
abbrev differs : String → String → Bool
differs s t = not (s == t)

differs_total : IsTotal differs
differs_total s t h k = ground (arith, eq_iff s t)

of_All :
    (P : Observation → Type 0)
    → ((o : Observation) → IsProp (P o))
    → (os : List Observation) → All P os
    → (o : Observation) → Mem o os
    → P o
of_All P prop [] h o m = absurd (not-mem-nil m)
of_All P prop (p ∷ os) h o m = (forall_mem-cons prop).1 (h.0, of_All P prop os h.1) o m

AgreesWith : Observation → Observation → Type 0
AgreesWith o p = o.txid ≡ p.txid → o.vout ≡ p.vout → o ≡ p

AgreesWith-prop : (o p : Observation) → IsProp (AgreesWith o p)
unfolding AgreesWith
AgreesWith-prop o p = hlevel (IsScalar-prop)

apart : (o p : Observation) → pos_part o.vout ≢ pos_part p.vout → AgreesWith o p
unfolding AgreesWith
apart o p h t v = absurd (h (ap pos_part v))

same : (o : Observation) → AgreesWith o o
unfolding AgreesWith
same o t v = refl

both_decide : KeysDecide differs as_returned
unfolding AgreesWith
both_decide o p mo mp =
    of_All (λ x. AgreesWith x p) (λ x. AgreesWith-prop x p) as_returned
      (
        of_All (AgreesWith second_output) (AgreesWith-prop second_output) as_returned
            (same second_output, (apart second_output first_output (λ h. omega (arith, h)), tt)) p
            mp,
        (
          of_All (AgreesWith first_output) (AgreesWith-prop first_output) as_returned
              (apart first_output second_output (λ h. omega (arith, h)), (same first_output, tt)) p
              mp,
          tt,
        ),
      )
      o mo

in_order-IsSorted : IsSorted differs in_order
in_order-IsSorted = (
  of_All (λ p. sooner differs p first_output ≡ false) (λ p. hlevel) (second_output ∷ []) (refl, tt),
  (λ p m. absurd (not-mem-nil m), tt),
)

sort_unique_example : in_order ≡ in_order
sort_unique_example =
    sort_unique differs differs_total as_returned in_order in_order in_order
      (record { perm = Perm.swap _ _ _; order = in_order-IsSorted })
      (record { perm = Perm.refl _; order = in_order-IsSorted }) (Perm.swap _ _ _) both_decide

-- One function of bags reports a payment and a lost output, in whatever order they come.
report_factors_example : IsContr (Factors bill (pos 0))
report_factors_example = report_factors bill (pos 0)

-- A payment comes back after a reorganisation, and one comes too late.
legal_iff_example : (legal reorged confirming ≡ true) ↔ IsTaken reorged confirming
legal_iff_example = legal_iff reorged confirming

never_legal : (legal expired seen ≡ false) × (legal seen expired ≡ false)
never_legal = (refl, refl)
