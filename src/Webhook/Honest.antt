-- ===== src/Webhook/Honest.antt =====
-- Delivery under faults: wherever a pass stops, a prefix of the sweep is recorded.
use btcpay_gate.Base.{
  ℕ, zero, suc, ◌≤◌, ℤ, ◌≡◌, refl, ap, ◌∙◌, inl, inr, Option, none, some, List, [], ◌∷◌, String,
  ◌==◌, keep, Bool-cases, arith,
}
use btcpay_gate.Time.{unix}
use btcpay_gate.Payments.Store.Tables.{EventRow, Tables}
use btcpay_gate.Payments.Store.Sql.{Conn, ◌>>=◌, query, exec}
use btcpay_gate.Payments.Store.Invariant.{Increasing}
use btcpay_gate.Base.{take}
use btcpay_gate.Webhook.{
  Host, Sender, is_due, due_batch, event_of_row, post, deliver_one, deliver_all, deliver_due,
}
use btcpay_gate.Webhook.Updates.{update_all, sweep, update_all-sweep}
use btcpay_gate.Webhook.Pass.{sent_row, verdict_row-id}

-- A part of the first `n` rows is a part of at most `n` rows.
take-take : (k n : ℕ) (es : List EventRow) → (j : ℕ) × (j ≤ n) × (take k (take n es) ≡ take j es)
take-take zero n es = (0, omega arith, refl)
take-take (suc k) zero es = (0, omega arith, refl)
take-take (suc k) (suc n) [] = (0, omega arith, refl)
take-take (suc k) (suc n) (e ∷ es) =
    let (j, small, same) = take-take k n es in (suc j, omega arith, ap (λ xs. e ∷ xs) same)

module _ (h : Host) (s : Sender) where
  -- The tables with the outbox replaced.
  abbrev with_events : Tables → List EventRow → Tables
  with_events t es = record t { events = es }

  deliver_all_prefix :
      (ps : List EventRow) (fs : List (Option String)) (t : Tables)
      → (k : ℕ) × ((deliver_all h s ps (record { tables = t; faults = fs })).1.tables
          ≡ with_events t (update_all (sent_row h s) (take k ps) t.events))
  unfolding deliver_all deliver_one exec ◌>>=◌
  deliver_all_prefix [] fs t = (0, refl)
  deliver_all_prefix (p ∷ ps) [] t = let (k, same) = deliver_all_prefix ps [] _ in (suc k, same)
  deliver_all_prefix (p ∷ ps) (none ∷ fs) t =
      let (k, same) = deliver_all_prefix ps fs _ in (suc k, same)
  deliver_all_prefix (p ∷ ps) (some e ∷ fs) t = (0, refl)

  abbrev IsPrefix : ℤ → Tables → Tables → Type 0
  IsPrefix now t t' =
      (k : ℕ) × (k ≤ 50)
      × (t' ≡ with_events t (sweep (sent_row h s) (is_due (unix now)) k t.events))

  IsPrefix-of_batch :
      (now : ℤ) (t t' : Tables) (k : ℕ)
      → Increasing t.events
      → t'
        ≡ with_events t
            (update_all (sent_row h s) (take k (due_batch (unix now) t.events)) t.events)
      → IsPrefix now t t'
  unfolding due_batch
  IsPrefix-of_batch now t t' k inc same =
      let (j, small, cut) = take-take k 50 (keep (is_due (unix now)) t.events) in
      (
        j,
        small,
        same
            ∙ ap (λ ps. with_events t (update_all (sent_row h s) ps t.events)) cut
            ∙ ap (with_events t) (
                update_all-sweep (sent_row h s) (is_due (unix now)) j t.events inc
                  (λ p x. verdict_row-id h s p (post h s (event_of_row p)).1 x)),
      )

  batch_prefix :
      (now : ℤ) (fs : List (Option String)) (t : Tables)
      → Increasing t.events
      → IsPrefix now t
          ((query (λ u. due_batch (unix now) u.events) >>= deliver_all h s)
            (record { tables = t; faults = fs })).1.tables
  unfolding query ◌>>=◌
  batch_prefix now [] t inc =
      let (k, same) = deliver_all_prefix (due_batch (unix now) t.events) [] t in
      IsPrefix-of_batch now t _ k inc same
  batch_prefix now (none ∷ fs) t inc =
      let (k, same) = deliver_all_prefix (due_batch (unix now) t.events) fs t in
      IsPrefix-of_batch now t _ k inc same
  batch_prefix now (some e ∷ fs) t inc = (0, omega arith, refl)

  -- Whatever statements the engine fails, `DeliverDue` over an outbox numbered in order leaves
  -- every table but the outbox as it was, and the outbox swept up to some number of due events,
  -- at most fifty: no row is changed for another event's answer, and none out of order.
  pub deliver_due_prefix :
      (now : ℤ) (c : Conn)
      → Increasing c.tables.events
      → (k : ℕ) × (k ≤ 50)
        × ((deliver_due h s now c).1.tables ≡ record c.tables {
          events = sweep (sent_row h s) (is_due (unix now)) k c.tables.events;
        })
  unfolding deliver_due
  deliver_due_prefix now c inc = elim (Bool-cases (s.url == "")) [
    | inl none_set ↦ rw none_set (0, omega arith, refl)
    | inr some_url ↦ rw some_url (batch_prefix now c.faults c.tables inc)
  ]
