-- ===== src/Webhook/Pass.antt =====
-- What a pass of `DeliverDue` amounts to: one sweep over the outbox.
use btcpay_gate.Base.{
  ℤ, ◌≡◌, refl, ap, ◌∙◌, false, Option, none, some, List, [], ◌∷◌, String, ◌==◌, arith,
}
use btcpay_gate.Time.{unix}
use btcpay_gate.Errors.{Result, ok, err}
use btcpay_gate.Payments.Store.Tables.{EventRow}
use btcpay_gate.Payments.Store.Sql.{Conn}
use btcpay_gate.Payments.Store.Runs.{
  IsFaulty, Runs, Ended, Runs-pure, Runs-query, Runs-exec, Runs-bind,
}
use btcpay_gate.Payments.Store.Invariant.{Increasing}
use btcpay_gate.Webhook.{
  Host, Sender, update_event, is_due, due_batch, event_of_row, mark_delivered, mark_failed,
  verdict_row, post, deliver_one, deliver_all, deliver_due,
}
use btcpay_gate.Webhook.Updates.{update_all, sweep, update_all-sweep}

module _ (h : Host) (s : Sender) where
  -- What a pass makes of a row that it sends.
  abbrev pub sent_row : EventRow → EventRow → EventRow
  sent_row p e = verdict_row h s p (post h s (event_of_row p)).1 e

  deliver_all-Runs :
      (ps : List EventRow)
      → Runs (deliver_all h s ps) (λ t. (tt, record t { events = update_all sent_row ps t.events }))
  unfolding deliver_all deliver_one
  deliver_all-Runs [] = Runs-pure tt
  deliver_all-Runs (p ∷ ps) =
      Runs-bind _ _ (λ t. (tt, record t { events = update_event p.id (sent_row p) t.events })) _
        (Runs-exec _) (λ _. deliver_all-Runs ps)

  pub deliver_due-Runs :
      (now : ℤ)
      → (s.url == "") ≡ false
      → Runs (deliver_due h s now) (λ t.
        (tt, record t { events = update_all sent_row (due_batch (unix now) t.events) t.events }))
  unfolding deliver_due
  deliver_due-Runs now some_url =
      rw some_url (Runs-bind _ _ _ _ (Runs-query _) (λ batch. deliver_all-Runs batch))

  pub verdict_row-id :
      (p : EventRow) (o : Option String) (e : EventRow) → (verdict_row h s p o e).id ≡ e.id
  unfolding mark_delivered mark_failed
  verdict_row-id p none e = refl
  verdict_row-id p (some text) e = ground arith

  -- How a pass may end: swept, or stopped by a fault.
  abbrev pub Swept : ℤ → Conn → Result (Unit {0}) × Conn → Type 0
  Swept now c (ok a, c') =
      c'.tables ≡ record c.tables { events = sweep sent_row (is_due (unix now)) 50 c.tables.events }
  Swept now c (err e, c') = IsFaulty c.faults

  Swept-of_Ended :
      (now : ℤ) (c : Conn) (r : Result (Unit {0}) × Conn)
      → Increasing c.tables.events
      → Ended c.faults r (
        tt,
        record c.tables {
          events = update_all sent_row (due_batch (unix now) c.tables.events) c.tables.events;
        },
      )
      → Swept now c r
  unfolding due_batch
  Swept-of_Ended now c (ok a, c') inc e =
      e.1
      ∙ ap (λ es. record c.tables { events = es })
          (update_all-sweep sent_row (is_due (unix now)) 50 c.tables.events inc
            (λ p x. verdict_row-id p (post h s (event_of_row p)).1 x))
  Swept-of_Ended now c (err x, c') inc e = e

  -- With an endpoint, over an outbox numbered in order, `DeliverDue` fails only by a fault of
  -- the engine, and otherwise leaves the outbox swept once: each of the first fifty due events
  -- takes the row that the outcome of its own post calls for, and every other row and table is as
  -- it was.
  pub deliver_due-Swept :
      (now : ℤ) (c : Conn)
      → (s.url == "") ≡ false
      → Increasing c.tables.events
      → Swept now c (deliver_due h s now c)
  deliver_due-Swept now c some_url inc =
      Swept-of_Ended now c (deliver_due h s now c) inc ((deliver_due-Runs now some_url).at c)
