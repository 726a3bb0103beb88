-- ===== src/Gateway/Lawful.antt =====
-- Every step of the process keeps the lives of the invoices lawful.
use btcpay_gate.Base.{
  ℤ, ◌≡◌, sym, subst, ◌∙◌, ◌≢◌, inl, inr, true, List, [], ◌∷◌, Option, String, ◌==◌, eq_iff,
  Bool-cases, ◌⊎◌, pos, ◌≤ℤ◌, All, All-imp, All-and, All-append, All-map, Any,
}
use btcpay_gate.Errors.{Result, ok, err}
use btcpay_gate.Payments.State.{Status, pending, confirmed, Invoice}
use btcpay_gate.Payments.State.Transitions.{IsLife, last_of, is_touched}
use btcpay_gate.Payments.Store.Tables.{InvoiceRow, EventRow, Tables, empty_tables}
use btcpay_gate.Payments.Store.Sql.{Conn}
use btcpay_gate.Payments.Store.Ops.{Update, StatusChange, invoice_row, create_invoice, apply}
use btcpay_gate.Payments.Store.Spec.{upserted, settle, settled}
use btcpay_gate.Payments.Store.Apply.{Committed, apply_all_or_nothing}
use btcpay_gate.Payments.Store.Create.{with_invoice, Created, create_invoice_outcome}
use btcpay_gate.Payments.Store.Covered.{Covers, AreCovering, told-AreCovering}
use btcpay_gate.Webhook.Rows.{SameEvents-All, SameEvents-map, Recorded, deliver_one-Recorded}
use btcpay_gate.Gateway.{meeting, Step, creates, applies, delivers, Reach, here, next}
use btcpay_gate.Gateway.Mirror.{told_of, story, story_others, IsMirrored, told-Tells}
use btcpay_gate.Gateway.Sound.{IsSound, Reach-IsSound, foreign, empty-IsSound}
use btcpay_gate.Gateway.Paths.{Operation}
use btcpay_gate.Gateway.Runs.{run, run-Reach}
use btcpay_gate.Gateway.Lifecycle.{
  IsKept, IsLived, IsLawful, empty-IsLawful, upserted-keeps_some, settle-IsKept, settle-IsLived,
}

settled-IsLawful :
    (u : Update) (now : ℤ) (t : Tables) → IsSound t → IsLawful t → IsLawful (settled u now t)
settled-IsLawful u now t s l =
    let obs = upserted u.observations t.observations in
    let kept : All (IsKept obs) t.invoices =
      All-imp _ _
        (λ r h touched. upserted-keeps_some r.id u.observations t.observations (h touched))
        t.invoices l.kept in
    record {
      lives = All-map _ (settle obs now) t.invoices (
          All-imp _ _ (λ r h. settle-IsLived obs now t.events _ r h.0 h.1.0 h.1.1.0 h.1.1.1)
            t.invoices
            (All-and _ _ t.invoices s.mirrors (
              All-and _ _ t.invoices (told-Tells obs now t.last_event_id t.invoices s.valid.ids)
                (All-and _ _ t.invoices kept l.lives))));
      kept = All-map _ (settle obs now) t.invoices (All-imp _ _ (settle-IsKept obs now) _ kept);
      covers = All-map _ (settle obs now) t.invoices (
          All-imp _ _ (λ r h. All-append _ t.events _ h.0 h.1) t.invoices
            (All-and _ _ t.invoices l.covers
              (told-AreCovering obs now t.last_event_id t.invoices s.valid.ids)));
    }

apply-IsLawful :
    (u : Update) (now : ℤ) (c : Conn) (r : Result (List StatusChange) × Conn)
    → Committed u now c r
    → IsSound c.tables
    → IsLawful c.tables
    → IsLawful r.1.tables
apply-IsLawful u now c (ok changes, c') h s l =
    subst IsLawful (sym h.1) (settled-IsLawful u now c.tables s l)
apply-IsLawful u now c (err e, c') h s l = subst IsLawful (sym h.0) l

with_invoice-IsLawful :
    (inv : Invoice) (t : Tables)
    → inv.status ≡ pending
    → All (λ r. r.id ≢ inv.id) t.invoices
    → IsSound t
    → IsLawful t
    → IsLawful (with_invoice inv t)
unfolding invoice_row
with_invoice-IsLawful inv t new fresh s l =
    let others : All (λ e. e.invoice_id ≢ inv.id) t.events =
      All-imp _ _ (λ e h. foreign inv.id e.invoice_id t.invoices fresh h) t.events s.announces in
    record {
      lives =
          All-append _ t.invoices _ l.lives
            (subst (IsLife pending) (sym (story_others inv.id t.events others)) tt, tt);
      kept = All-append _ t.invoices _ l.kept ((λ h. absurd (untouched inv.status new h)), tt);
      covers =
          All-append _ t.invoices _ l.covers
            (All-imp _ _ (λ e h same _. absurd (h same)) t.events others, tt);
    }
  where
    untouched : (x : Status) → x ≡ pending → is_touched x ≡ true → ⊥
    untouched x e h = cc

create-IsLawful :
    (inv : Invoice) (c : Conn) (r : Result (Unit {0}) × Conn)
    → Created inv c r
    → inv.status ≡ pending
    → IsSound c.tables
    → IsLawful c.tables
    → IsLawful r.1.tables
create-IsLawful inv c (ok a, c') h new s l =
    subst IsLawful (sym h.0)
      (with_invoice-IsLawful inv c.tables new (All-imp _ _ (λ r k. k.0) _ h.1) s l)
create-IsLawful inv c (err e, c') h new s l = subst IsLawful (sym h.0) l

Recorded-IsLawful : (t t' : Tables) → Recorded t t' → IsLawful t → IsLawful t'
Recorded-IsLawful t t' (es, same, e) l = subst IsLawful (sym e) (record {
  lives =
      subst (λ x. All (λ r. IsLife pending (told_of r.id x)) t.invoices)
        (sym (SameEvents-map (λ e. (e.invoice_id, e.status)) t.events es same)) l.lives;
  kept = l.kept;
  covers =
      All-imp _ _
        (λ r h.
          SameEvents-All
            (λ e.
              e.invoice_id ≡ r.id
              → e.status ≡ confirmed
              → (r.amount_sat ≤ℤ e.paid_sat)
                × (r.required_conf ≤ℤ e.confirmations)
                × (pos 1 ≤ℤ e.confirmations))
            t.events es same h)
        t.invoices l.covers;
})

Step-IsLawful : {t t' : Tables} → Step t t' → IsSound t → IsLawful t → IsLawful t'
Step-IsLawful {t} (creates inv fs new e) s l = subst IsLawful (sym e) (
    create-IsLawful inv (meeting t fs) (create_invoice inv (meeting t fs))
      (create_invoice_outcome inv (meeting t fs)) new s l)
Step-IsLawful {t} (applies u now fs some_known e) s l = subst IsLawful (sym e) (
    apply-IsLawful u now (meeting t fs) (apply u now (meeting t fs))
      (apply_all_or_nothing u now (meeting t fs) s.valid.ids) s l)
Step-IsLawful {t} (delivers h p_sender p fs e) s l =
    subst IsLawful (sym e) (Recorded-IsLawful t _ (deliver_one-Recorded h p_sender p t fs) l)

pub Reach-IsLawful : {t t' : Tables} → Reach t t' → IsSound t → IsLawful t → IsLawful t'
Reach-IsLawful here s l = l
Reach-IsLawful (next r step) s l = Step-IsLawful step (Reach-IsSound r s) (Reach-IsLawful r s l)

-- Some confirmed event of the invoice covers it.
abbrev pub WasPaid : List EventRow → InvoiceRow → Type 0
WasPaid es r = Any (λ e. (e.invoice_id ≡ r.id) × (e.status ≡ confirmed) × Covers r e) es

last_told :
    (r : InvoiceRow) (s : Status) (es : List EventRow)
    → last_of s (story es r.id) ≡ confirmed
    → AreCovering es r
    → (s ≡ confirmed) ⊎ WasPaid es r
last_told r s [] h k = inl h
last_told r s (e ∷ es) h k = elim (Bool-cases (e.invoice_id == r.id)) [
  | inl hit ↦ elim (last_told r e.status es (rw hit at h) k.1) [
    | inl done ↦
        (let same = (eq_iff e.invoice_id r.id).0 hit in inr (inl (same, done, k.0 same done)))
    | inr paid ↦ inr (inr paid)
  ]
  | inr miss ↦ elim (last_told r s es (rw miss at h) k.1) [
    | inl done ↦ inl done
    | inr paid ↦ inr (inr paid)
  ]
]

pub confirmed-WasPaid :
    (es : List EventRow) (r : InvoiceRow)
    → IsMirrored es r
    → AreCovering es r
    → r.status ≡ confirmed
    → WasPaid es r
confirmed-WasPaid es r mirror k e = elim (last_told r pending es (mirror ∙ e) k) [
  | inl clash ↦ absurd (apart clash)
  | inr paid ↦ paid
]
  where
    apart : pending ≡ confirmed → ⊥
    apart x = cc

-- From the empty database, after any operations, whatever the engine failed: the events of each
-- invoice are the steps of one legal life that begins with pending and ends with the status that it
-- has now. So a pending invoice is the only one that expires, none becomes pending again, a
-- confirmed or expired one is never heard of again, and none is told the same status twice running.
pub run-IsLived :
    (os : List (Operation × List (Option String)))
    → let t = run os empty_tables in
      All (λ r. IsLived t.events r × IsMirrored t.events r) t.invoices
run-IsLived os =
    let r = run-Reach os empty_tables empty-IsSound in
    All-and _ _ _ (Reach-IsLawful r empty-IsSound empty-IsLawful).lives
      (Reach-IsSound r empty-IsSound).mirrors

-- From the empty database, after any operations, whatever the engine failed: every event that says
-- confirmed reports a sum that covers the amount of its invoice and a count that reaches its
-- threshold and is at least one, and every invoice with the status confirmed has such an event.
pub run-WasPaid :
    (os : List (Operation × List (Option String)))
    → let t = run os empty_tables in
      All (λ r. AreCovering t.events r × (r.status ≡ confirmed → WasPaid t.events r)) t.invoices
run-WasPaid os =
    let r = run-Reach os empty_tables empty-IsSound in
    let t = run os empty_tables in
    All-imp _ _ (λ x h. (h.0, confirmed-WasPaid t.events x h.1 h.0)) t.invoices
      (All-and _ _ t.invoices (Reach-IsLawful r empty-IsSound empty-IsLawful).covers
        (Reach-IsSound r empty-IsSound).mirrors)
