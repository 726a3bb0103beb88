-- ===== src/Webhook/Drain.antt =====
-- Liveness of delivery: an endpoint that accepts gets every due event.
use btcpay_gate.Base.{
  ℕ, zero, suc, ◌+◌, ◌*◌, ◌≤◌, ℤ, pos, ◌≤ℤ◌, eqb_ℤ, ◌≡◌, refl, sym, subst, ap, ◌∙◌, ◌⊎◌, inl, inr,
  Bool, true, false, List, [], ◌∷◌, length, ◌==◌, All, arith, Bool-cases, if◌then◌else◌,
}
use btcpay_gate.Time.{unix}
use btcpay_gate.Errors.{Result, ok, err}
use btcpay_gate.Payments.Store.Tables.{EventRow, Tables}
use btcpay_gate.Payments.Store.Sql.{Conn}
use btcpay_gate.Payments.Store.Runs.{IsFaulty, Ended}
use btcpay_gate.Payments.Store.Invariant.{Increasing}
use btcpay_gate.Webhook.{
  Host, Sender, is_due, event_of_row, mark_delivered, post, deliver_due, sender_run,
}
use btcpay_gate.Webhook.Accepted.{Accepts, accepts-post}
use btcpay_gate.Webhook.Updates.{sweep}
use btcpay_gate.Webhook.Pass.{sent_row, Swept, deliver_due-Swept, deliver_due-Runs}
use btcpay_gate.Webhook.Rows.{
  SameEvents, IsSameEvent-refl, verdict_row-IsSameEvent, SameEvents-Increasing, SameEvents-refl,
}

-- How many events wait for delivery, now or later.
abbrev pub undelivered : List EventRow → ℕ
undelivered [] = 0
undelivered (e ∷ es) = (if eqb_ℤ e.delivered (pos 0) then 1 else 0) + undelivered es

-- No event is due at `t`.
abbrev pub NoneDue : ℤ → List EventRow → Type 0
NoneDue t es = All (λ e. is_due t e ≡ false) es

is_due-earlier : (t now : ℤ) (e : EventRow) → t ≤ℤ now → is_due now e ≡ false → is_due t e ≡ false
is_due-earlier t now e le h = ground arith

is_due-undelivered :
    (now : ℤ) (e : EventRow) → is_due now e ≡ true → eqb_ℤ e.delivered (pos 0) ≡ true
is_due-undelivered now e h = ground arith

module _ (f : EventRow → EventRow → EventRow)
    (done : (p e : EventRow) → (f p e).delivered ≡ pos 1) where
  sent_not_due : (t : ℤ) (p e : EventRow) → is_due t (f p e) ≡ false
  sent_not_due t p e = rw (done p e) refl

  sent_counts : (p e : EventRow) → eqb_ℤ (f p e).delivered (pos 0) ≡ false
  sent_counts p e = rw (done p e) refl

  -- What is not due stays so.
  sweep-NoneDue :
      (t : ℤ) (p : EventRow → Bool) (n : ℕ) (es : List EventRow)
      → NoneDue t es
      → NoneDue t (sweep f p n es)
  sweep-NoneDue t p zero es h = h
  sweep-NoneDue t p (suc n) [] h = tt
  sweep-NoneDue t p (suc n) (e ∷ es) h = elim (Bool-cases (p e)) [
    | inl hit ↦ rw hit (sent_not_due t e e, sweep-NoneDue t p n es h.1)
    | inr miss ↦ rw miss (h.0, sweep-NoneDue t p (suc n) es h.1)
  ]

  -- A sweep serves everything that is due, or uses up its room.
  sweep_progress :
      (t now : ℤ) (n : ℕ) (es : List EventRow)
      → t ≤ℤ now
      → NoneDue t (sweep f (is_due now) n es)
        ⊎ (undelivered (sweep f (is_due now) n es) + n ≤ undelivered es)
  sweep_progress t now zero es le = inr (omega arith)
  sweep_progress t now (suc n) [] le = inl tt
  sweep_progress t now (suc n) (e ∷ es) le = elim (Bool-cases (is_due now e)) [
    | inl hit ↦ rw hit (elim (sweep_progress t now n es le) [
      | inl clear ↦ inl (sent_not_due t e e, clear)
      | inr less ↦ inr (rw (sent_counts e e, is_due-undelivered now e hit) (omega (arith, less)))
    ])
    | inr miss ↦ rw miss (elim (sweep_progress t now (suc n) es le) [
      | inl clear ↦ inl (is_due-earlier t now e le miss, clear)
      | inr less ↦ inr (omega (arith, less))
    ])
  ]

-- Row by row: the row is as it was, or it is delivered.
abbrev pub Served : List EventRow → List EventRow → Type 0
Served [] [] = Unit
Served [] (e' ∷ es') = ⊥
Served (e ∷ es) [] = ⊥
Served (e ∷ es) (e' ∷ es') = ((e' ≡ e) ⊎ (e'.delivered ≡ pos 1)) × Served es es'

Served-refl : (es : List EventRow) → Served es es
Served-refl [] = tt
Served-refl (e ∷ es) = (inl refl, Served-refl es)

served_then :
    {d e f : EventRow}
    → (e ≡ d) ⊎ (e.delivered ≡ pos 1)
    → (f ≡ e) ⊎ (f.delivered ≡ pos 1)
    → (f ≡ d) ⊎ (f.delivered ≡ pos 1)
served_then h (inr k) = inr k
served_then (inl h) (inl k) = inl (k ∙ h)
served_then (inr h) (inl k) = inr (ap (λ (x : EventRow). x.delivered) k ∙ h)

Served-trans : (ds es fs : List EventRow) → Served ds es → Served es fs → Served ds fs
Served-trans [] [] fs h k = k
Served-trans [] (e ∷ es) fs h k = absurd h
Served-trans (d ∷ ds) [] fs h k = absurd h
Served-trans (d ∷ ds) (e ∷ es) [] h k = absurd k
Served-trans (d ∷ ds) (e ∷ es) (f ∷ fs) h k = (served_then h.0 k.0, Served-trans ds es fs h.1 k.1)

none_left : (t : ℤ) (es : List EventRow) → undelivered es ≤ 0 → NoneDue t es
none_left t [] h = tt
none_left t (e ∷ es) h = elim (Bool-cases (eqb_ℤ e.delivered (pos 0))) [
  | inl waits ↦ absurd (omega (arith, rw waits at h))
  | inr sent ↦ (rw sent refl, none_left t es (omega (arith, rw sent at h)))
]

module _ (h : Host) (s : Sender) (accepts : Accepts h s) where
  sent_done : (p e : EventRow) → (sent_row h s p e).delivered ≡ pos 1
  unfolding mark_delivered
  sent_done p e = rw (accepts-post h s accepts (event_of_row p)) refl

  sweep-SameEvents :
      (p : EventRow → Bool) (n : ℕ) (es : List EventRow)
      → SameEvents es (sweep (sent_row h s) p n es)
  sweep-SameEvents p zero es = SameEvents-refl es
  sweep-SameEvents p (suc n) [] = tt
  sweep-SameEvents p (suc n) (e ∷ es) = elim (Bool-cases (p e)) [
    | inl hit ↦
        rw hit
          (verdict_row-IsSameEvent h s e (post h s (event_of_row e)).1 e, sweep-SameEvents p n es)
    | inr miss ↦ rw miss (IsSameEvent-refl e, sweep-SameEvents p (suc n) es)
  ]

  sweep-Served :
      (p : EventRow → Bool) (n : ℕ) (es : List EventRow) → Served es (sweep (sent_row h s) p n es)
  sweep-Served p zero es = Served-refl es
  sweep-Served p (suc n) [] = tt
  sweep-Served p (suc n) (e ∷ es) = elim (Bool-cases (p e)) [
    | inl hit ↦ rw hit (inr (sent_done e e), sweep-Served p n es)
    | inr miss ↦ rw miss (inl refl, sweep-Served p (suc n) es)
  ]

  -- A pass that meets no fault.
  abbrev Passed : ℤ → Conn → Conn → Type 0
  Passed now c c' =
      (c'.tables
        ≡ record c.tables { events = sweep (sent_row h s) (is_due (unix now)) 50 c.tables.events })
      × (IsFaulty c'.faults → ⊥)

  Passed-of_Swept :
      (now : ℤ) (c : Conn) (r : Result (Unit {0}) × Conn) (e : Unit {0} × Tables)
      → (IsFaulty c.faults → ⊥)
      → Swept h s now c r
      → Ended c.faults r e
      → Passed now c r.1
  Passed-of_Swept now c (ok a, c') e calm k l = (k, λ fault. calm (l.2 fault))
  Passed-of_Swept now c (err x, c') e calm k l = absurd (calm k)

  pass-Passed :
      (now : ℤ) (c : Conn)
      → (s.url == "") ≡ false
      → Increasing c.tables.events
      → (IsFaulty c.faults → ⊥)
      → Passed now c (deliver_due h s now c).1
  pass-Passed now c some_url inc calm =
      Passed-of_Swept now c (deliver_due h s now c) _ calm
        (deliver_due-Swept h s now c some_url inc) ((deliver_due-Runs h s now some_url).at c)

  -- After the ticks: each event is as it was or delivered, and none is due.
  abbrev Drained : ℤ → List EventRow → List EventRow → Type 0
  Drained t es es' = Served es es' × NoneDue t es'

  run-Drained :
      (t : ℤ) (ticks : List ℤ) (c : Conn)
      → (s.url == "") ≡ false
      → Increasing c.tables.events
      → (IsFaulty c.faults → ⊥)
      → All (λ now. t ≤ℤ unix now) ticks
      → NoneDue t c.tables.events ⊎ (undelivered c.tables.events ≤ 50 * length ticks)
      → Drained t c.tables.events (sender_run h s ticks c).tables.events
  unfolding sender_run
  run-Drained t [] c some_url inc calm late (inl clear) = (Served-refl c.tables.events, clear)
  run-Drained t [] c some_url inc calm late (inr few) =
      (Served-refl c.tables.events, none_left t c.tables.events (omega (arith, few)))
  run-Drained t (now ∷ ticks) c some_url inc calm late room =
      let es = c.tables.events in
      let c' = (deliver_due h s now c).1 in
      let swept = sweep (sent_row h s) (is_due (unix now)) 50 es in
      let p = pass-Passed now c some_url inc calm in
      let same : c'.tables.events ≡ swept = ap (λ (x : Tables). x.events) p.0 in
      let d =
        run-Drained t ticks c' some_url
          (subst Increasing (sym same)
            (SameEvents-Increasing es swept (sweep-SameEvents (is_due (unix now)) 50 es) inc))
          p.1 late.1
          (subst (λ xs. NoneDue t xs ⊎ (undelivered xs ≤ 50 * length ticks)) (sym same)
            (room_left room)) in
      (
        Served-trans es c'.tables.events _
            (subst (Served es) (sym same) (sweep-Served (is_due (unix now)) 50 es)) d.0,
        d.1,
      )
    where
      room_left :
          NoneDue t c.tables.events ⊎ (undelivered c.tables.events ≤ 50 * suc (length ticks))
          → NoneDue t (sweep (sent_row h s) (is_due (unix now)) 50 c.tables.events)
            ⊎ (undelivered (sweep (sent_row h s) (is_due (unix now)) 50 c.tables.events)
                ≤ 50 * length ticks)
      room_left (inl clear) =
          inl
            (sweep-NoneDue (sent_row h s) sent_done t (is_due (unix now)) 50 c.tables.events clear)
      room_left (inr few) =
          elim (sweep_progress (sent_row h s) sent_done t (unix now) 50 c.tables.events late.0) [
            | inl clear ↦ inl clear
            | inr less ↦ inr (omega (arith, less, few))
          ]

  -- Row by row: what was due is delivered.
  abbrev pub AllDelivered : ℤ → List EventRow → List EventRow → Type 0
  AllDelivered t [] es' = Unit
  AllDelivered t (e ∷ es) [] = ⊥
  AllDelivered t (e ∷ es) (e' ∷ es') =
      (is_due t e ≡ true → e'.delivered ≡ pos 1) × AllDelivered t es es'

  Drained-AllDelivered :
      (t : ℤ) (es es' : List EventRow) → Served es es' → NoneDue t es' → AllDelivered t es es'
  Drained-AllDelivered t [] es' h k = tt
  Drained-AllDelivered t (e ∷ es) [] h k = h
  Drained-AllDelivered t (e ∷ es) (e' ∷ es') h k = (one h.0, Drained-AllDelivered t es es' h.1 k.1)
    where
      one : (e' ≡ e) ⊎ (e'.delivered ≡ pos 1) → is_due t e ≡ true → e'.delivered ≡ pos 1
      one (inl same) due = absurd (clash (sym due ∙ ap (is_due t) (sym same) ∙ k.0))
        where
          clash : true ≡ false → ⊥
          clash x = cc
      one (inr sent) due = sent

  -- If the endpoint accepts every event, the engine fails nothing, the outbox is numbered in order
  -- and `Run` gets one tick at `t` or later for each fifty undelivered events, then after the
  -- ticks every event that was due at `t` is delivered.
  pub run_delivers :
      (t : ℤ) (ticks : List ℤ) (c : Conn)
      → (s.url == "") ≡ false
      → Increasing c.tables.events
      → (IsFaulty c.faults → ⊥)
      → All (λ now. t ≤ℤ unix now) ticks
      → undelivered c.tables.events ≤ 50 * length ticks
      → AllDelivered t c.tables.events (sender_run h s ticks c).tables.events
  run_delivers t ticks c some_url inc calm late room =
      let d = run-Drained t ticks c some_url inc calm late (inr room) in
      Drained-AllDelivered t c.tables.events _ d.0 d.1
