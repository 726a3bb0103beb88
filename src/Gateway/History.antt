-- ===== src/Gateway/History.antt =====
-- The database only grows: what a merchant was told, or was paid, is never taken back.
use btcpay_gate.Base.{
  ℤ, pos, ◌≡◌, refl, sym, subst, ap, ◌∙◌, ◌⊎◌, inl, inr, true, List, [], ◌∷◌, ◌++◌, map, Bool-cases,
}
use btcpay_gate.Errors.{Result, ok, err}
use btcpay_gate.Payments.State.{Status, Invoice, terminal, decide-terminal}
use btcpay_gate.Payments.Store.Tables.{
  InvoiceRow, ObservationRow, EventRow, Tables, same_key, excluded, upsert,
}
use btcpay_gate.Payments.Store.Ops.{
  ObservationUpdate, Update, StatusChange, observation_row, scan_invoice, create_invoice, apply,
}
use btcpay_gate.Payments.Store.Sql.{Conn}
use btcpay_gate.Payments.Store.Spec.{upserted, known, settle}
use btcpay_gate.Payments.Store.Apply.{Committed, apply_all_or_nothing}
use btcpay_gate.Payments.Store.Create.{Created, create_invoice_outcome}
use btcpay_gate.Webhook.Rows.{
  IsSameEvent, IsSameEvent-refl, SameEvents, Recorded, deliver_one-Recorded,
}
use btcpay_gate.Gateway.{meeting, Step, creates, applies, delivers, Reach, here, next}
use btcpay_gate.Gateway.Sound.{IsSound, Reach-IsSound}

-- The first list goes on in the second, row by row related.
abbrev pub GoesOn : {A : Type 0} → (A → A → Type 0) → List A → List A → Type 0
GoesOn R [] ys = Unit
GoesOn R (x ∷ xs) [] = ⊥
GoesOn R (x ∷ xs) (y ∷ ys) = R x y × GoesOn R xs ys

module _ {A : Type 0} (R : A → A → Type 0) where
  GoesOn-append : ((x : A) → R x x) → (xs ys : List A) → GoesOn R xs (xs ++ ys)
  GoesOn-append same [] ys = tt
  GoesOn-append same (x ∷ xs) ys = (same x, GoesOn-append same xs ys)

  GoesOn-refl : ((x : A) → R x x) → (xs : List A) → GoesOn R xs xs
  GoesOn-refl same [] = tt
  GoesOn-refl same (x ∷ xs) = (same x, GoesOn-refl same xs)

  GoesOn-trans :
      ((x y z : A) → R x y → R y z → R x z)
      → (xs ys zs : List A) → GoesOn R xs ys
      → GoesOn R ys zs
      → GoesOn R xs zs
  GoesOn-trans two [] ys zs h k = tt
  GoesOn-trans two (x ∷ xs) [] zs h k = absurd h
  GoesOn-trans two (x ∷ xs) (y ∷ ys) [] h k = absurd k
  GoesOn-trans two (x ∷ xs) (y ∷ ys) (z ∷ zs) h k =
      (two x y z h.0 k.0, GoesOn-trans two xs ys zs h.1 k.1)

abbrev pub with_status : Status → InvoiceRow → InvoiceRow
with_status s r = record r { status = s }

-- The invoice keeps its terms, and its status once that is final.
pub record IsSameInvoice (r r' : InvoiceRow) : Type 0 where
  pub terms : with_status r.status r' ≡ r
  pub final : terminal r.status ≡ true → r'.status ≡ r.status

-- The output is still of the same invoice.
pub record IsSameOutput (o o' : ObservationRow) : Type 0 where
  pub invoice_id : o'.invoice_id ≡ o.invoice_id
  pub txid : o'.txid ≡ o.txid
  pub vout : o'.vout ≡ o.vout

pub record GrowsTo (t t' : Tables) : Type 0 where
  pub invoices : GoesOn IsSameInvoice t.invoices t'.invoices
  pub observations : GoesOn IsSameOutput t.observations t'.observations
  pub events : GoesOn IsSameEvent t.events t'.events

IsSameInvoice-refl : (r : InvoiceRow) → IsSameInvoice r r
IsSameInvoice-refl r = record { terms = refl; final = λ h. refl }

IsSameOutput-refl : (o : ObservationRow) → IsSameOutput o o
IsSameOutput-refl o = record { invoice_id = refl; txid = refl; vout = refl }

IsSameInvoice-trans :
    (r s t : InvoiceRow) → IsSameInvoice r s → IsSameInvoice s t → IsSameInvoice r t
IsSameInvoice-trans r s t h k = record {
  terms = ap (λ (x : InvoiceRow). with_status r.status x) k.terms ∙ h.terms;
  final = λ f. k.final (subst (λ x. terminal x ≡ true) (sym (h.final f)) f) ∙ h.final f;
}

IsSameOutput-trans :
    (o p q : ObservationRow) → IsSameOutput o p → IsSameOutput p q → IsSameOutput o q
IsSameOutput-trans o p q h k = record {
  invoice_id = k.invoice_id ∙ h.invoice_id;
  txid = k.txid ∙ h.txid;
  vout = k.vout ∙ h.vout;
}

marked_trans : {a b c : ℤ} → (b ≡ a) ⊎ (b ≡ pos 1) → (c ≡ b) ⊎ (c ≡ pos 1) → (c ≡ a) ⊎ (c ≡ pos 1)
marked_trans h (inr k) = inr k
marked_trans (inl h) (inl k) = inl (k ∙ h)
marked_trans (inr h) (inl k) = inr (k ∙ h)

IsSameEvent-trans : (d e f : EventRow) → IsSameEvent d e → IsSameEvent e f → IsSameEvent d f
IsSameEvent-trans d e f h k = record {
  content = k.content ∙ h.content;
  marked = marked_trans h.marked k.marked;
}

pub GrowsTo-refl : (t : Tables) → GrowsTo t t
GrowsTo-refl t = record {
  invoices = GoesOn-refl _ IsSameInvoice-refl t.invoices;
  observations = GoesOn-refl _ IsSameOutput-refl t.observations;
  events = GoesOn-refl _ IsSameEvent-refl t.events;
}

GrowsTo-trans : (t u v : Tables) → GrowsTo t u → GrowsTo u v → GrowsTo t v
GrowsTo-trans t u v h k = record {
  invoices = GoesOn-trans _ IsSameInvoice-trans t.invoices _ _ h.invoices k.invoices;
  observations = GoesOn-trans _ IsSameOutput-trans t.observations _ _ h.observations k.observations;
  events = GoesOn-trans _ IsSameEvent-trans t.events _ _ h.events k.events;
}

GrowsTo-of_eq : (t t' : Tables) → t' ≡ t → GrowsTo t t'
GrowsTo-of_eq t t' e = subst (GrowsTo t) (sym e) (GrowsTo-refl t)

upsert-GoesOn :
    (u : ObservationRow) (rows : List ObservationRow) → GoesOn IsSameOutput rows (upsert u rows)
unfolding upsert excluded
upsert-GoesOn u [] = tt
upsert-GoesOn u (o ∷ rows) = elim (Bool-cases (same_key o u)) [
  | inl hit ↦
      rw hit (
        record { invoice_id = refl; txid = refl; vout = refl },
        GoesOn-refl _ IsSameOutput-refl rows,
      )
  | inr miss ↦ rw miss (IsSameOutput-refl o, upsert-GoesOn u rows)
]

upserted-GoesOn :
    (us : List ObservationUpdate) (rows : List ObservationRow)
    → GoesOn IsSameOutput rows (upserted us rows)
upserted-GoesOn [] rows = GoesOn-refl _ IsSameOutput-refl rows
upserted-GoesOn (u ∷ us) rows =
    GoesOn-trans _ IsSameOutput-trans rows _ _ (upsert-GoesOn (observation_row u) rows)
      (upserted-GoesOn us _)

settle-GoesOn :
    (obs : List ObservationRow) (now : ℤ) (rs : List InvoiceRow)
    → GoesOn IsSameInvoice rs (map (settle obs now) rs)
unfolding scan_invoice
settle-GoesOn obs now [] = tt
settle-GoesOn obs now (r ∷ rs) = (
  record { terms = refl; final = λ h. decide-terminal (scan_invoice r) (known obs now r) now h },
  settle-GoesOn obs now rs,
)

Committed-GrowsTo :
    (u : Update) (now : ℤ) (c : Conn) (r : Result (List StatusChange) × Conn)
    → Committed u now c r
    → GrowsTo c.tables r.1.tables
Committed-GrowsTo u now c (ok changes, c') h = subst (GrowsTo c.tables) (sym h.1) (record {
  invoices = settle-GoesOn (upserted u.observations c.tables.observations) now c.tables.invoices;
  observations = upserted-GoesOn u.observations c.tables.observations;
  events = GoesOn-append _ IsSameEvent-refl c.tables.events _;
})
Committed-GrowsTo u now c (err e, c') h = GrowsTo-of_eq _ _ h.0

Created-GrowsTo :
    (inv : Invoice) (c : Conn) (r : Result (Unit {0}) × Conn)
    → Created inv c r
    → GrowsTo c.tables r.1.tables
Created-GrowsTo inv c (ok a, c') h = subst (GrowsTo c.tables) (sym h.0) (record {
  invoices = GoesOn-append _ IsSameInvoice-refl c.tables.invoices _;
  observations = GoesOn-refl _ IsSameOutput-refl c.tables.observations;
  events = GoesOn-refl _ IsSameEvent-refl c.tables.events;
})
Created-GrowsTo inv c (err e, c') h = GrowsTo-of_eq _ _ h.0

SameEvents-GoesOn : (es es' : List EventRow) → SameEvents es es' → GoesOn IsSameEvent es es'
SameEvents-GoesOn [] es' h = tt
SameEvents-GoesOn (e ∷ es) [] h = h
SameEvents-GoesOn (e ∷ es) (e' ∷ es') h = (h.0, SameEvents-GoesOn es es' h.1)

Recorded-GrowsTo : (t t' : Tables) → Recorded t t' → GrowsTo t t'
Recorded-GrowsTo t t' (es, same, e) = subst (GrowsTo t) (sym e) (record {
  invoices = GoesOn-refl _ IsSameInvoice-refl t.invoices;
  observations = GoesOn-refl _ IsSameOutput-refl t.observations;
  events = SameEvents-GoesOn t.events es same;
})

Step-GrowsTo : {t t' : Tables} → IsSound t → Step t t' → GrowsTo t t'
Step-GrowsTo {t} s (creates inv fs new e) = subst (GrowsTo t) (sym e) (
    Created-GrowsTo inv (meeting t fs) (create_invoice inv (meeting t fs))
      (create_invoice_outcome inv (meeting t fs)))
Step-GrowsTo {t} s (applies u now fs some_known e) = subst (GrowsTo t) (sym e) (
    Committed-GrowsTo u now (meeting t fs) (apply u now (meeting t fs))
      (apply_all_or_nothing u now (meeting t fs) s.valid.ids))
Step-GrowsTo {t} s (delivers h p_sender p fs e) =
    subst (GrowsTo t) (sym e) (Recorded-GrowsTo t _ (deliver_one-Recorded h p_sender p t fs))

-- From a sound database on, whatever happens: every invoice is kept in its place with its terms,
-- and with its status once it is confirmed or expired; every observed output is kept with its
-- invoice; every event is kept with what it tells the merchant, and its mark of delivery only ever
-- becomes 1. New rows come after the old ones.
pub Reach-GrowsTo : {t t' : Tables} → IsSound t → Reach t t' → GrowsTo t t'
Reach-GrowsTo {t} s here = GrowsTo-refl t
Reach-GrowsTo {t} {t'} s (next {u} r step) =
    GrowsTo-trans t u t' (Reach-GrowsTo s r) (Step-GrowsTo (Reach-IsSound r s) step)
