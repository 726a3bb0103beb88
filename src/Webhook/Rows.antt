-- ===== src/Webhook/Rows.antt =====
-- What recording the outcome of a post leaves of the outbox.
use btcpay_gate.Base.{
  ℕ, ◌<◌, pos, ◌≡◌, refl, sym, subst, ap, ◌⊎◌, inl, inr, List, [], ◌∷◌, map, Option, none, some,
  String, All, Bool-cases, eqb, arith,
}
use btcpay_gate.Payments.Store.Tables.{EventRow, Tables}
use btcpay_gate.Payments.Store.Sql.{exec}
use btcpay_gate.Payments.Store.Invariant.{Increasing}
use btcpay_gate.Webhook.{
  Host, Sender, Event, event_of_row, update_event, mark_delivered, mark_failed, verdict_row,
  deliver_one,
}

-- What the merchant is told stays, and a delivery is never undone.
pub record IsSameEvent (e e' : EventRow) : Type 0 where
  pub content : event_of_row e' ≡ event_of_row e
  pub marked : (e'.delivered ≡ e.delivered) ⊎ (e'.delivered ≡ pos 1)

pub IsSameEvent-refl : (e : EventRow) → IsSameEvent e e
IsSameEvent-refl e = record { content = refl; marked = inl refl }

pub verdict_row-IsSameEvent :
    (h : Host) (s : Sender) (p : EventRow) (o : Option String) (e : EventRow)
    → IsSameEvent e (verdict_row h s p o e)
unfolding mark_delivered mark_failed
verdict_row-IsSameEvent h s p none e = record { content = refl; marked = inr refl }
verdict_row-IsSameEvent h s p (some text) e = record {
  content = ground arith;
  marked = inl (ground arith);
}

-- Row by row, the same events.
abbrev pub SameEvents : List EventRow → List EventRow → Type 0
SameEvents [] [] = Unit
SameEvents [] (e' ∷ es') = ⊥
SameEvents (e ∷ es) [] = ⊥
SameEvents (e ∷ es) (e' ∷ es') = IsSameEvent e e' × SameEvents es es'

pub SameEvents-refl : (es : List EventRow) → SameEvents es es
SameEvents-refl [] = tt
SameEvents-refl (e ∷ es) = (IsSameEvent-refl e, SameEvents-refl es)

update_event-SameEvents :
    (id : ℕ) (g : EventRow → EventRow) (es : List EventRow)
    → ((e : EventRow) → IsSameEvent e (g e))
    → SameEvents es (update_event id g es)
unfolding update_event
update_event-SameEvents id g [] h = tt
update_event-SameEvents id g (e ∷ es) h = elim (Bool-cases (eqb e.id id)) [
  | inl hit ↦ rw hit (h e, update_event-SameEvents id g es h)
  | inr miss ↦ rw miss (IsSameEvent-refl e, update_event-SameEvents id g es h)
]

pub SameEvents-All :
    (P : Event → Type 0) (es es' : List EventRow)
    → SameEvents es es'
    → All (λ e. P (event_of_row e)) es
    → All (λ e. P (event_of_row e)) es'
SameEvents-All P [] [] same h = tt
SameEvents-All P [] (e' ∷ es') same h = absurd same
SameEvents-All P (e ∷ es) [] same h = absurd same
SameEvents-All P (e ∷ es) (e' ∷ es') same h =
    (subst P (sym same.0.content) h.0, SameEvents-All P es es' same.1 h.1)

pub SameEvents-map :
    {A : Type 0} (g : Event → A) (es es' : List EventRow)
    → SameEvents es es'
    → map (λ e. g (event_of_row e)) es' ≡ map (λ e. g (event_of_row e)) es
SameEvents-map g [] [] same = refl
SameEvents-map g [] (e' ∷ es') same = absurd same
SameEvents-map g (e ∷ es) [] same = absurd same
SameEvents-map g (e ∷ es) (e' ∷ es') same =
    λ i. g (same.0.content i) ∷ SameEvents-map g es es' same.1 i

pub SameEvents-Increasing :
    (es es' : List EventRow) → SameEvents es es' → Increasing es → Increasing es'
SameEvents-Increasing [] [] same h = tt
SameEvents-Increasing [] (e' ∷ es') same h = absurd same
SameEvents-Increasing (e ∷ es) [] same h = absurd same
SameEvents-Increasing (e ∷ es) (e' ∷ es') same h = (
  SameEvents-All (λ x. e'.id < x.id) es es' same.1
      (subst (λ (n : ℕ). All (λ x. n < x.id) es) (sym (ap (λ x. x.id) same.0.content)) h.0),
  SameEvents-Increasing es es' same.1 h.1,
)

-- How recording the outcome of a post leaves the tables, if it runs and if the engine fails it.
abbrev pub Recorded : Tables → Tables → Type 0
Recorded t t' = (es : List EventRow) × SameEvents t.events es × (t' ≡ record t { events = es })

pub deliver_one-Recorded :
    (h : Host) (s : Sender) (p : EventRow) (t : Tables) (fs : List (Option String))
    → Recorded t (deliver_one h s p (record { tables = t; faults = fs })).1.tables
unfolding deliver_one exec
deliver_one-Recorded h s p t [] =
    (_, update_event-SameEvents p.id _ t.events (verdict_row-IsSameEvent h s p _), refl)
deliver_one-Recorded h s p t (none ∷ fs) =
    (_, update_event-SameEvents p.id _ t.events (verdict_row-IsSameEvent h s p _), refl)
deliver_one-Recorded h s p t (some e ∷ fs) = (t.events, SameEvents-refl t.events, refl)
