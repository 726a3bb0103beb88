-- ===== src/Gateway/Sound.antt =====
-- What holds of the database at every moment, whatever the order of requests, polls and posts.
use btcpay_gate.Base.{
  ℕ, suc, ◌≤◌, ℤ, ◌≡◌, refl, sym, subst, ap, ◌∙◌, ◌≢◌, inl, inr, List, [], ◌∷◌, ◌++◌, map, String,
  All, All-imp, All-append, All-keep, Any,
}
use btcpay_gate.Errors.{Result, ok, err}
use btcpay_gate.Payments.State.{pending, Invoice}
use btcpay_gate.Payments.Store.Tables.{
  InvoiceRow, ObservationRow, EventRow, Tables, empty_tables, excluded,
}
use btcpay_gate.Payments.Store.Sql.{Conn}
use btcpay_gate.Payments.Store.Ops.{
  ObservationUpdate, Update, StatusChange, observation_row, invoice_row, create_invoice, apply,
}
use btcpay_gate.Payments.Store.Spec.{upserted, settle, settled, moves, events_from}
use btcpay_gate.Payments.Store.Upsert.{upsert-keeps}
use btcpay_gate.Payments.Store.Apply.{Committed, apply_all_or_nothing}
use btcpay_gate.Payments.Store.Invariant.{IsValid, settled-IsValid}
use btcpay_gate.Payments.Store.Create.{
  with_invoice, Created, create_invoice_outcome, create_invoice-IsValid,
}
use btcpay_gate.Gateway.{meeting, IsKnown, Step, creates, applies, delivers, Reach, here, next}
use btcpay_gate.Webhook.Rows.{
  SameEvents, SameEvents-All, SameEvents-map, SameEvents-Increasing, Recorded, deliver_one-Recorded,
}
use btcpay_gate.Payments.State.Transitions.{last_of}
use btcpay_gate.Gateway.Mirror.{told_of, IsMirrored, story_others, settled-IsMirrored}

-- The constraints of the schema, the references that the engine does not enforce, and the outbox
-- as a mirror of the invoices.
pub record IsSound (t : Tables) : Type 0 where
  pub valid : IsValid t
  pub observes : All (λ o. IsKnown t o.invoice_id) t.observations
  pub announces : All (λ e. IsKnown t e.invoice_id) t.events
  pub mirrors : All (IsMirrored t.events) t.invoices

pub empty-IsSound : IsSound empty_tables
empty-IsSound = record {
  valid = record { ids = tt; addresses = tt; keys = tt; numbered = tt; counted = tt };
  observes = tt;
  announces = tt;
  mirrors = tt;
}

-- Invoices stay known.
Any-append : (P : InvoiceRow → Type 0) (xs ys : List InvoiceRow) → Any P xs → Any P (xs ++ ys)
Any-append P [] ys h = absurd h
Any-append P (x ∷ xs) ys (inl h) = inl h
Any-append P (x ∷ xs) ys (inr h) = inr (Any-append P xs ys h)

Any-settle :
    (obs : List ObservationRow) (now : ℤ) (id : String) (rs : List InvoiceRow)
    → Any (λ r. r.id ≡ id) rs
    → Any (λ r. r.id ≡ id) (map (settle obs now) rs)
Any-settle obs now id [] h = absurd h
Any-settle obs now id (r ∷ rs) (inl h) = inl h
Any-settle obs now id (r ∷ rs) (inr h) = inr (Any-settle obs now id rs h)

knows_own : (rs : List InvoiceRow) → All (λ r. Any (λ x. x.id ≡ r.id) rs) rs
knows_own [] = tt
knows_own (r ∷ rs) = (inl refl, All-imp _ _ (λ x h. inr h) rs (knows_own rs))

upserted-keeps :
    (P : String → Type 0) (us : List ObservationUpdate) (rows : List ObservationRow)
    → All (λ u. P u.invoice_id) us
    → All (λ o. P o.invoice_id) rows
    → All (λ o. P o.invoice_id) (upserted us rows)
unfolding observation_row excluded
upserted-keeps P [] rows h k = k
upserted-keeps P (u ∷ us) rows h k =
    upserted-keeps P us _ h.1
      (upsert-keeps (λ o. P o.invoice_id) (observation_row u) rows k h.0 (λ r _ p. p))

events_from-keeps :
    (P : String → Type 0) (obs : List ObservationRow) (now : ℤ) (n : ℕ) (rs : List InvoiceRow)
    → All (λ r. P r.id) rs
    → All (λ e. P e.invoice_id) (events_from obs now n rs)
events_from-keeps P obs now n [] h = tt
events_from-keeps P obs now n (r ∷ rs) h = (h.0, events_from-keeps P obs now (suc n) rs h.1)

settled-IsSound :
    (u : Update) (now : ℤ) (t : Tables)
    → All (λ o. IsKnown t o.invoice_id) u.observations
    → IsSound t
    → IsSound (settled u now t)
settled-IsSound u now t known s =
    let obs = upserted u.observations t.observations in
    let still : (id : String) → IsKnown t id → IsKnown (settled u now t) id =
      λ id h. Any-settle obs now id t.invoices h in
    record {
      valid = settled-IsValid u now t s.valid;
      observes =
          All-imp _ _ (λ o h. still o.invoice_id h) obs
            (upserted-keeps (IsKnown t) u.observations t.observations known s.observes);
      announces =
          All-append _ t.events _ (All-imp _ _ (λ e h. still e.invoice_id h) t.events s.announces) (
            events_from-keeps (IsKnown (settled u now t)) obs now t.last_event_id _ (
              All-imp _ _ (λ r h. still r.id h) _
                (All-keep _ (moves obs now) t.invoices (knows_own t.invoices))));
      mirrors =
          settled-IsMirrored obs now t.last_event_id t.events t.invoices s.valid.ids s.mirrors;
    }

apply-IsSound :
    (u : Update) (now : ℤ) (c : Conn) (r : Result (List StatusChange) × Conn)
    → All (λ o. IsKnown c.tables o.invoice_id) u.observations
    → IsSound c.tables
    → Committed u now c r
    → IsSound r.1.tables
apply-IsSound u now c (ok changes, c') known s h =
    subst IsSound (sym h.1) (settled-IsSound u now c.tables known s)
apply-IsSound u now c (err e, c') known s h = subst IsSound (sym h.0) s

-- An event of another invoice is not about an id that no invoice has.
pub foreign :
    (id other : String) (rs : List InvoiceRow)
    → All (λ r. r.id ≢ id) rs
    → Any (λ r. r.id ≡ other) rs
    → other ≢ id
foreign id other [] h k = absurd k
foreign id other (r ∷ rs) h (inl k) = λ e. h.0 (k ∙ e)
foreign id other (r ∷ rs) h (inr k) = foreign id other rs h.1 k

with_invoice-IsSound :
    (inv : Invoice) (t : Tables)
    → inv.status ≡ pending
    → All (λ r. r.id ≢ inv.id) t.invoices
    → IsValid (with_invoice inv t)
    → IsSound t
    → IsSound (with_invoice inv t)
unfolding invoice_row
with_invoice-IsSound inv t new fresh valid s = record {
  valid = valid;
  observes = All-imp _ _ (λ o h. Any-append _ t.invoices _ h) t.observations s.observes;
  announces = All-imp _ _ (λ e h. Any-append _ t.invoices _ h) t.events s.announces;
  mirrors = All-append _ t.invoices _ s.mirrors (
    ap (last_of pending) (
          story_others inv.id t.events (
            All-imp _ _ (λ e h. foreign inv.id e.invoice_id t.invoices fresh h) t.events
              s.announces))
        ∙ sym new,
    tt,
  );
}

create-IsSound :
    (inv : Invoice) (c : Conn) (r : Result (Unit {0}) × Conn)
    → inv.status ≡ pending
    → IsSound c.tables
    → IsValid r.1.tables
    → Created inv c r
    → IsSound r.1.tables
create-IsSound inv c (ok a, c') new s valid h = subst IsSound (sym h.0) (
    with_invoice-IsSound inv c.tables new (All-imp _ _ (λ r k. k.0) _ h.1) (subst IsValid h.0 valid)
      s)
create-IsSound inv c (err e, c') new s valid h = subst IsSound (sym h.0) s

events-IsSound :
    (t : Tables) (es : List EventRow)
    → SameEvents t.events es
    → IsSound t
    → IsSound (record t { events = es })
events-IsSound t es same s = record {
  valid = record {
    ids = s.valid.ids;
    addresses = s.valid.addresses;
    keys = s.valid.keys;
    numbered = SameEvents-Increasing t.events es same s.valid.numbered;
    counted = SameEvents-All (λ e. e.id ≤ t.last_event_id) t.events es same s.valid.counted;
  };
  observes = s.observes;
  announces = SameEvents-All (λ e. IsKnown t e.invoice_id) t.events es same s.announces;
  mirrors =
      subst (λ l. All (λ r. last_of pending (told_of r.id l) ≡ r.status) t.invoices)
        (sym (SameEvents-map (λ e. (e.invoice_id, e.status)) t.events es same)) s.mirrors;
}

Recorded-IsSound : (t t' : Tables) → Recorded t t' → IsSound t → IsSound t'
Recorded-IsSound t t' (es, same, e) s = subst IsSound (sym e) (events-IsSound t es same s)

Step-IsSound : {t t' : Tables} → Step t t' → IsSound t → IsSound t'
Step-IsSound {t} (creates inv fs new e) s = subst IsSound (sym e) (
    create-IsSound inv (meeting t fs) (create_invoice inv (meeting t fs)) new s
      (create_invoice-IsValid inv (meeting t fs) s.valid)
      (create_invoice_outcome inv (meeting t fs)))
Step-IsSound {t} (applies u now fs known e) s = subst IsSound (sym e) (
    apply-IsSound u now (meeting t fs) (apply u now (meeting t fs)) known s
      (apply_all_or_nothing u now (meeting t fs) s.valid.ids))
Step-IsSound {t} (delivers h p_sender p fs e) s =
    subst IsSound (sym e) (Recorded-IsSound t _ (deliver_one-Recorded h p_sender p t fs) s)

-- Whatever order requests, polls and recorded posts come in, and whatever the engine fails: from a
-- sound database only sound ones are reached. That is, ids, addresses and observation keys are
-- unique and events numbered in order; observations and events are of stored invoices; and each
-- invoice has the status of its last event, or is pending if it has none.
pub Reach-IsSound : {t t' : Tables} → Reach t t' → IsSound t → IsSound t'
Reach-IsSound here s = s
Reach-IsSound (next r step) s = Step-IsSound step (Reach-IsSound r s)
