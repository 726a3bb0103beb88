-- ===== src/Gateway/Mirror.antt =====
-- The outbox tells the whole story: the last event of an invoice carries its status.
use btcpay_gate.Base.{
  ℕ, suc, ℤ, ◌≡◌, refl, sym, ap, ◌∙◌, ◌≢◌, true, false, List, [], ◌∷◌, ◌++◌, map, keep, String,
  ◌==◌, All, All-imp, All-and, All-map, Bool-cases, inl, inr, eq_refl, ne→eq-false, if◌then◌else◌,
}
use btcpay_gate.Payments.State.{Status, pending, eqb_status_eq}
use btcpay_gate.Payments.State.Transitions.{last_of, last_of-append}
use btcpay_gate.Payments.Store.Tables.{InvoiceRow, ObservationRow, EventRow}
use btcpay_gate.Payments.Store.Spec.{next_status, moves, settle, events_from}
use btcpay_gate.Payments.Store.Loop.{UniqueIds, not-eq-false}
use btcpay_gate.Payments.Store.Outbox.{announced}

-- The statuses that were announced of an invoice, in order.
abbrev pub told_of : String → List (String × Status) → List Status
told_of id [] = []
told_of id ((other, new) ∷ story) = if other == id then new ∷ told_of id story else told_of id story

abbrev pub story : List EventRow → String → List Status
story es id = told_of id (map announced es)

-- The invoice has the status of its last event, and it is pending if it has none.
abbrev pub IsMirrored : List EventRow → InvoiceRow → Type 0
IsMirrored es r = last_of pending (story es r.id) ≡ r.status

told_of-append :
    (id : String) (xs ys : List (String × Status))
    → told_of id (xs ++ ys) ≡ told_of id xs ++ told_of id ys
told_of-append id [] ys = refl
told_of-append id ((other, new) ∷ xs) ys = elim (Bool-cases (other == id)) [
  | inl hit ↦ rw hit (ap (λ l. new ∷ l) (told_of-append id xs ys))
  | inr miss ↦ rw miss (told_of-append id xs ys)
]

pub map-announced_append :
    (xs ys : List EventRow) → map announced (xs ++ ys) ≡ map announced xs ++ map announced ys
map-announced_append [] ys = refl
map-announced_append (x ∷ xs) ys = ap (λ l. announced x ∷ l) (map-announced_append xs ys)

pub story-append :
    (xs ys : List EventRow) (id : String) → story (xs ++ ys) id ≡ story xs id ++ story ys id
story-append xs ys id =
    ap (told_of id) (map-announced_append xs ys)
    ∙ told_of-append id (map announced xs) (map announced ys)

told_of-hit :
    (id : String) (new : Status) (l : List (String × Status))
    → told_of id ((id, new) ∷ l) ≡ new ∷ told_of id l
told_of-hit id new l = ap (λ b. if b then new ∷ told_of id l else told_of id l) (eq_refl id)

told_of-miss :
    (id other : String) (new : Status) (l : List (String × Status))
    → other ≢ id
    → told_of id ((other, new) ∷ l) ≡ told_of id l
told_of-miss id other new l h =
    ap (λ b. if b then new ∷ told_of id l else told_of id l) (ne→eq-false other id h)

-- Events of other invoices say nothing.
pub story_others :
    (id : String) (es : List EventRow) → All (λ e. e.invoice_id ≢ id) es → story es id ≡ []
story_others id [] h = refl
story_others id (e ∷ es) h =
    told_of-miss id e.invoice_id e.status (map announced es) h.0 ∙ story_others id es h.1

module _ (obs : List ObservationRow) (now : ℤ) where
  -- The new events of the invoices that move.
  abbrev told : ℕ → List InvoiceRow → List EventRow
  told n rs = events_from obs now n (keep (moves obs now) rs)

  -- What they tell of one invoice.
  abbrev pub own : InvoiceRow → List Status
  own r = if moves obs now r then next_status obs now r ∷ [] else []

  pub own-moves : (r : InvoiceRow) → moves obs now r ≡ true → own r ≡ next_status obs now r ∷ []
  own-moves r m = rw m refl

  pub own-stays : (r : InvoiceRow) → moves obs now r ≡ false → own r ≡ []
  own-stays r s = rw s refl

  abbrev pub Tells : List EventRow → InvoiceRow → Type 0
  Tells new r = story new r.id ≡ own r

  told-move :
      (n : ℕ) (r : InvoiceRow) (rs : List InvoiceRow) (id : String)
      → moves obs now r ≡ true
      → story (told n (r ∷ rs)) id
        ≡ told_of id ((r.id, next_status obs now r) ∷ map announced (told (suc n) rs))
  told-move n r rs id m = rw m refl

  told-stay :
      (n : ℕ) (r : InvoiceRow) (rs : List InvoiceRow) (id : String)
      → moves obs now r ≡ false
      → story (told n (r ∷ rs)) id ≡ story (told n rs) id
  told-stay n r rs id m = rw m refl

  told-others :
      (n : ℕ) (id : String) (rs : List InvoiceRow)
      → All (λ x. x.id ≢ id) rs
      → story (told n rs) id ≡ []
  told-others n id [] h = refl
  told-others n id (r ∷ rs) h = elim (Bool-cases (moves obs now r)) [
    | inl m ↦
        told-move n r rs id m
        ∙ told_of-miss id r.id _ (map announced (told (suc n) rs)) h.0
        ∙ told-others (suc n) id rs h.1
    | inr stay ↦ told-stay n r rs id stay ∙ told-others n id rs h.1
  ]

  -- The new events tell of each invoice that it moved, or nothing.
  pub told-Tells : (n : ℕ) (rs : List InvoiceRow) → UniqueIds rs → All (Tells (told n rs)) rs
  told-Tells n [] h = tt
  told-Tells n (r ∷ rs) h = elim (Bool-cases (moves obs now r)) [
    | inl m ↦ (
      told-move n r rs r.id m
          ∙ told_of-hit r.id _ (map announced (told (suc n) rs))
          ∙ (ap (λ l. next_status obs now r ∷ l) (told-others (suc n) r.id rs h.0) ∙ rw m refl),
      All-imp _ _
          (λ x k.
            told-move n r rs x.id m
            ∙ (told_of-miss x.id r.id _ (map announced (told (suc n) rs)) (λ e. k.0 (sym e)) ∙ k.1))
          rs (All-and _ _ rs h.0 (told-Tells (suc n) rs h.1)),
    )
    | inr stay ↦ (
      told-stay n r rs r.id stay ∙ (told-others n r.id rs h.0 ∙ rw stay refl),
      All-imp _ _ (λ x k. told-stay n r rs x.id stay ∙ k) rs (told-Tells n rs h.1),
    )
  ]

  last_of-own :
      (s : Status) (r : InvoiceRow) → s ≡ r.status → last_of s (own r) ≡ next_status obs now r
  last_of-own s r e = elim (Bool-cases (moves obs now r)) [
    | inl m ↦ rw m refl
    | inr stay ↦
        rw stay (e ∙ sym (eqb_status_eq (next_status obs now r) r.status (not-eq-false _ stay)))
  ]

  settle-IsMirrored :
      (es new : List EventRow) (r : InvoiceRow)
      → IsMirrored es r
      → Tells new r
      → IsMirrored (es ++ new) (settle obs now r)
  settle-IsMirrored es new r h k =
      ap (last_of pending) (story-append es new r.id ∙ ap (λ l. story es r.id ++ l) k)
      ∙ last_of-append pending (story es r.id) (own r)
      ∙ last_of-own _ r h

  -- The events of a run of `Apply` keep the outbox a mirror of the invoices.
  pub settled-IsMirrored :
      (n : ℕ) (es : List EventRow) (rs : List InvoiceRow)
      → UniqueIds rs
      → All (IsMirrored es) rs
      → All
          (IsMirrored (es ++ events_from obs now n (keep (moves obs now) rs)))
          (map (settle obs now) rs)
  settled-IsMirrored n es rs unique h = All-map _ (settle obs now) rs (
      All-imp _ _ (λ r k. settle-IsMirrored es _ r k.0 k.1) rs
        (All-and _ _ rs h (told-Tells n rs unique)))
