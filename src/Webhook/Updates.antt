-- ===== src/Webhook/Updates.antt =====
-- The loop of updates by id against one sweep over the table.
use btcpay_gate.Base.{
  ℕ, zero, suc, ◌<◌, eqb, ◌≡◌, refl, ap, ◌∙◌, Bool, true, false, inl, inr, List, [], ◌∷◌, keep, All,
  All-keep, arith, Bool-cases, if◌then◌else◌,
}
use btcpay_gate.Payments.Store.Tables.{EventRow}
use btcpay_gate.Payments.Store.Invariant.{Increasing}
use btcpay_gate.Base.{take}
use btcpay_gate.Webhook.{update_event}

-- One update for each row of a batch.
abbrev pub update_all :
    (EventRow → EventRow → EventRow) → List EventRow → List EventRow → List EventRow
update_all f [] es = es
update_all f (p ∷ ps) es = update_all f ps (update_event p.id (f p) es)

-- The sweep: the first `n` rows that pass are changed, each by what it says itself.
abbrev pub sweep :
    (EventRow → EventRow → EventRow) → (EventRow → Bool) → ℕ → List EventRow → List EventRow
sweep f p zero es = es
sweep f p (suc n) [] = []
sweep f p (suc n) (e ∷ es) = if p e then f e e ∷ sweep f p n es else e ∷ sweep f p (suc n) es

eqb-above : (a b : ℕ) → a < b → (eqb b a ≡ false) × (eqb a b ≡ false)
eqb-above a b h = ground arith

eqb_self : (a : ℕ) → eqb a a ≡ true
eqb_self a = ground arith

update_event-above :
    (id : ℕ) (g : EventRow → EventRow) (es : List EventRow)
    → All (λ e. id < e.id) es
    → update_event id g es ≡ es
unfolding update_event
update_event-above id g [] h = refl
update_event-above id g (e ∷ es) h =
    rw ((eqb-above id e.id h.0).0, update_event-above id g es h.1) refl

update_event-head :
    (g : EventRow → EventRow) (e : EventRow) (es : List EventRow)
    → All (λ x. e.id < x.id) es
    → update_event e.id g (e ∷ es) ≡ g e ∷ es
unfolding update_event
update_event-head g e es h = rw (eqb_self e.id, update_event-above e.id g es h) refl

update_all-below :
    (f : EventRow → EventRow → EventRow) (e : EventRow) (ps es : List EventRow)
    → All (λ p. e.id < p.id) ps
    → update_all f ps (e ∷ es) ≡ e ∷ update_all f ps es
unfolding update_event
update_all-below f e [] es h = refl
update_all-below f e (p ∷ ps) es h =
    rw ((eqb-above e.id p.id h.0).1) (update_all-below f e ps _ h.1)

take-All : (P : EventRow → Type 0) (n : ℕ) (es : List EventRow) → All P es → All P (take n es)
take-All P zero es h = tt
take-All P (suc n) [] h = tt
take-All P (suc n) (e ∷ es) h = (h.0, take-All P n es h.1)

batch-above :
    (p : EventRow → Bool) (n k : ℕ) (es : List EventRow)
    → All (λ e. k < e.id) es
    → All (λ e. k < e.id) (take n (keep p es))
batch-above p n k es h = take-All _ n _ (All-keep _ p es h)

pub update_all-sweep :
    (f : EventRow → EventRow → EventRow) (p : EventRow → Bool) (n : ℕ) (es : List EventRow)
    → Increasing es
    → ((a e : EventRow) → (f a e).id ≡ e.id)
    → update_all f (take n (keep p es)) es ≡ sweep f p n es
update_all-sweep f p zero es h same = refl
update_all-sweep f p (suc n) [] h same = refl
update_all-sweep f p (suc n) (e ∷ es) h same = elim (Bool-cases (p e)) [
  | inl hit ↦ rw hit (
      ap (λ xs. update_all f (take n (keep p es)) xs) (update_event-head (f e) e es h.0)
      ∙ update_all-below f (f e e) (take n (keep p es)) es
          (rw (same e e) (batch-above p n e.id es h.0))
      ∙ ap (λ xs. f e e ∷ xs) (update_all-sweep f p n es h.1 same))
  | inr miss ↦ rw miss (
      update_all-below f e _ es (batch-above p (suc n) e.id es h.0)
      ∙ ap (λ xs. e ∷ xs) (update_all-sweep f p (suc n) es h.1 same))
]
