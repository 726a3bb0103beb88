-- ===== src/Payments/Store/Outputs.antt =====
-- The table of observations as a map: what is known of each output is what was last reported of it.
use btcpay_gate.Base.{
  ℤ, eqb_ℤ, eqb_ℤ_iff, ◌≡◌, refl, sym, ap, ◌∙◌, inl, inr, Bool, true, false, ◌&&◌, Option, none,
  some, List, [], ◌∷◌, ◌++◌, String, ◌==◌, eq_iff, arith, Bool-cases, if◌then◌else◌,
}
use btcpay_gate.Payments.Store.Tables.{ObservationRow, same_key, excluded, upsert}
use btcpay_gate.Payments.Store.Ops.{ObservationUpdate, observation_row}
use btcpay_gate.Payments.Store.Spec.{upserted}

-- The amount, the confirmations and the mark of removal.
abbrev pub Facts : Type 0
Facts = ℤ × ℤ × ℤ

abbrev pub facts : ObservationRow → Facts
facts r = (r.amount_sat, r.confirmations, r.removed)

-- The first answer, or else the second.
abbrev pub or_else : Option Facts → Option Facts → Option Facts
or_else none o = o
or_else (some x) o = some x

pub or_else_assoc : (a b c : Option Facts) → or_else (or_else a b) c ≡ or_else a (or_else b c)
or_else_assoc none b c = refl
or_else_assoc (some x) b c = refl

pub or_else-none : (o : Option Facts) → o ≡ or_else o none
or_else-none none = refl
or_else-none (some x) = refl

module _ (txid : String) (vout : ℤ) where
  abbrev pub is_output : ObservationRow → Bool
  is_output r = r.txid == txid && eqb_ℤ r.vout vout

  -- What the table knows of the output.
  abbrev pub stored : List ObservationRow → Option Facts
  stored [] = none
  stored (r ∷ rows) = if is_output r then some (facts r) else stored rows

  -- What a row says of the output.
  abbrev pub said : ObservationRow → Option Facts
  said r = if is_output r then some (facts r) else none

  -- The last thing that the updates say of the output.
  abbrev pub reported : List ObservationUpdate → Option Facts
  reported [] = none
  reported (u ∷ us) = or_else (reported us) (said (observation_row u))

  pub same_output : (r new : ObservationRow) → same_key r new ≡ true → is_output r ≡ is_output new
  unfolding same_key
  same_output r new h = ground (arith, eq_iff r.txid new.txid, eqb_ℤ_iff r.vout new.vout)

  other_output :
      (r new : ObservationRow) → same_key r new ≡ false → is_output r ≡ true → is_output new ≡ false
  unfolding same_key
  other_output r new h k = ground (
    arith,
    eq_iff r.txid txid,
    eq_iff new.txid txid,
    eq_iff r.txid new.txid,
    eqb_ℤ_iff r.vout vout,
    eqb_ℤ_iff new.vout vout,
    eqb_ℤ_iff r.vout new.vout,
  )

  stored-replace :
      (new r : ObservationRow) (rows : List ObservationRow)
      → is_output r ≡ is_output new
      → stored (excluded new r ∷ rows) ≡ or_else (said new) (stored (r ∷ rows))
  unfolding excluded
  stored-replace new r rows same = ground arith

  stored-pass :
      (new r : ObservationRow) (rows : List ObservationRow)
      → (is_output r ≡ true → is_output new ≡ false)
      → stored (upsert new rows) ≡ or_else (said new) (stored rows)
      → stored (r ∷ upsert new rows) ≡ or_else (said new) (stored (r ∷ rows))
  stored-pass new r rows other ih = elim (Bool-cases (is_output r)) [
    | inl own ↦ rw (own, other own) refl
    | inr else_where ↦ rw else_where ih
  ]

  stored-upsert :
      (new : ObservationRow) (rows : List ObservationRow)
      → stored (upsert new rows) ≡ or_else (said new) (stored rows)
  unfolding upsert excluded
  stored-upsert new [] = ground arith
  stored-upsert new (r ∷ rows) = elim (Bool-cases (same_key r new)) [
    | inl hit ↦ rw hit (stored-replace new r rows (same_output r new hit))
    | inr miss ↦ rw miss (stored-pass new r rows (other_output r new miss) (stored-upsert new rows))
  ]

  -- After a batch of upserts the table knows of each output what the batch says of it last, and
  -- what it knew before where the batch says nothing.
  pub stored-upserted :
      (us : List ObservationUpdate) (rows : List ObservationRow)
      → stored (upserted us rows) ≡ or_else (reported us) (stored rows)
  stored-upserted [] rows = refl
  stored-upserted (u ∷ us) rows =
      stored-upserted us (upsert (observation_row u) rows)
      ∙ ap (or_else (reported us)) (stored-upsert (observation_row u) rows)
      ∙ sym (or_else_assoc (reported us) (said (observation_row u)) (stored rows))

  pub reported-append :
      (us vs : List ObservationUpdate) → reported (us ++ vs) ≡ or_else (reported vs) (reported us)
  reported-append [] vs = or_else-none (reported vs)
  reported-append (u ∷ us) vs =
      ap (λ o. or_else o (said (observation_row u))) (reported-append us vs)
      ∙ or_else_assoc (reported vs) (reported us) (said (observation_row u))
