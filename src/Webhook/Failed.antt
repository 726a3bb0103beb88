-- ===== src/Webhook/Failed.antt =====
-- A post that fails: what the pass records of it, and when the event is due again.
use btcpay_gate.Base.{
  ℕ, zero, suc, ◌≤◌, ℤ, pos, leb_ℤ, ◌≡◌, sym, subst, ap, ◌∙◌, inl, inr, Bool, true, false, some,
  List, [], ◌∷◌, keep, length, String, ◌==◌, Any, Bool-cases, arith,
}
use btcpay_gate.Time.{unix}
use btcpay_gate.Errors.{ok}
use btcpay_gate.Payments.Store.Tables.{EventRow, Tables}
use btcpay_gate.Payments.Store.Sql.{Conn}
use btcpay_gate.Payments.Store.Invariant.{Increasing}
use btcpay_gate.Webhook.{Host, Sender, is_due, event_of_row, verdict_row, post, deliver_due}
use btcpay_gate.Webhook.Updates.{sweep}
use btcpay_gate.Webhook.Pass.{sent_row, Swept, deliver_due-Swept}
use btcpay_gate.Webhook.Backoff.{due_again, reason, failed_row}

module _ (due : EventRow → Bool) (p : EventRow) (d : due p ≡ true) where
  head_due : (e : EventRow) → e ≡ p → due e ≡ true
  head_due e same = ap due same ∙ d

  keep-counts : (es : List EventRow) → Any (λ x. x ≡ p) es → 1 ≤ length (keep due es)
  keep-counts [] h = absurd h
  keep-counts (e ∷ es) (inl same) = rw (head_due e same) (omega arith)
  keep-counts (e ∷ es) (inr h) = ground (arith, keep-counts es h)

  -- A sweep with room for every row that passes changes each of them.
  sweep-Any :
      (f : EventRow → EventRow → EventRow) (n : ℕ) (es : List EventRow)
      → Any (λ x. x ≡ p) es
      → length (keep due es) ≤ n
      → Any (λ x. x ≡ f p p) (sweep f due n es)
  sweep-Any f n [] h room = absurd h
  sweep-Any f zero (e ∷ es) h room = absurd (omega (arith, room, keep-counts (e ∷ es) h))
  sweep-Any f (suc n) (e ∷ es) h room = elim (Bool-cases (due e)) [
    | inl hit ↦ rw hit (elim h [
      | inl same ↦ inl (ap (λ x. f x x) same)
      | inr k ↦ inr (sweep-Any f n es k (omega (arith, rw hit at room)))
    ])
    | inr miss ↦ rw miss (elim h [
      | inl same ↦ absurd (clash (sym (head_due e same) ∙ miss))
      | inr k ↦ inr (sweep-Any f (suc n) es k (rw miss at room))
    ])
  ]
    where
      clash : true ≡ false → ⊥
      clash x = cc

module _ (h : Host) (s : Sender) (p : EventRow) (text : String) (n : ℕ) where
  -- The row after a failure that follows `n` others.
  abbrev pub failed : EventRow
  failed = record p {
    attempts = pos (suc n);
    last_error = reason s.max_tries n text;
    next_try_at = due_again s.max_tries (h.failed_at (event_of_row p)) n;
  }

  failed_later :
      (t later : ℤ)
      → is_due t p ≡ true
      → is_due later failed ≡ leb_ℤ (due_again s.max_tries (h.failed_at (event_of_row p)) n) later
  failed_later t later d = ground arith

  -- A pass with a URL set, over an outbox numbered in order in which at most fifty events are due,
  -- ends without an error, and the post of one of the due events failed with this text, after at
  -- most 29 failures before. Then the outbox has the event still undelivered, with one failure
  -- more and the text as the reason. If that was the last try allowed, the reason begins with
  -- "giving up: " and the event is due again from second 2147483647 on; otherwise it is due
  -- again from ten seconds after the failure on, doubled by each failure before and at most an
  -- hour.
  pub failed_post_waits :
      (now : ℤ) (c c' : Conn)
      → (s.url == "") ≡ false
      → Increasing c.tables.events
      → length (keep (is_due (unix now)) c.tables.events) ≤ 50
      → deliver_due h s now c ≡ (ok tt, c')
      → Any (λ x. x ≡ p) c.tables.events
      → is_due (unix now) p ≡ true
      → (post h s (event_of_row p)).1 ≡ some text
      → p.attempts ≡ pos n
      → n ≤ 29
      → Any (λ e. e ≡ failed) c'.tables.events
        × ((later : ℤ)
            → is_due later failed
              ≡ leb_ℤ (due_again s.max_tries (h.failed_at (event_of_row p)) n) later)
  failed_post_waits now c c' some_url inc few ran stored d broken count small = (
    subst (λ (t : Tables). Any (λ e. e ≡ failed) t.events)
        (sym (subst (Swept h s now c) ran (deliver_due-Swept h s now c some_url inc)))
        (subst (λ x. Any (λ e. e ≡ x) (sweep (sent_row h s) (is_due (unix now)) 50 c.tables.events))
          (ap (λ o. verdict_row h s p o p) broken ∙ failed_row h s p text n count small)
          (sweep-Any (is_due (unix now)) p d (sent_row h s) 50 c.tables.events stored few)),
    λ later. failed_later (unix now) later d,
  )
