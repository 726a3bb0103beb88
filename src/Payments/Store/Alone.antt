-- ===== src/Payments/Store/Alone.antt =====
-- One new output of an invoice of which nothing was known: what a batch of upserts makes of it.
use btcpay_gate.Base.{
  ℤ, ◌≡◌, ◌≢◌, refl, sym, ap, ◌∙◌, inl, inr, true, false, List, [], ◌∷◌, ◌++◌, String, ◌==◌, eq_iff,
  ne→eq-false, All, All-imp, Bool-cases,
}
use btcpay_gate.Payments.Store.Tables.{ObservationRow, same_key, excluded, upsert, rows_of}
use btcpay_gate.Payments.Store.Ops.{ObservationUpdate, observation_row}
use btcpay_gate.Payments.Store.Spec.{upserted}
use btcpay_gate.Payments.Store.Upsert.{upsert-keeps}
use btcpay_gate.Payments.Store.Outputs.{is_output, same_output}

module _ (id txid : String) (vout : ℤ) where
  -- A row of the invoice is of this output.
  abbrev IsOwn : ObservationRow → Type 0
  IsOwn o = o.invoice_id ≡ id → is_output txid vout o ≡ true

  -- A row of another invoice and another output.
  abbrev pub IsOther : ObservationRow → Type 0
  IsOther o = (o.invoice_id ≢ id) × (is_output txid vout o ≡ false)

  own_apart : (u o : ObservationRow) → IsOther u → IsOwn o → same_key o u ≡ true → o.invoice_id ≢ id
  own_apart u o other own same e = clash (sym (own e) ∙ same_output txid vout o u same ∙ other.1)
    where
      clash : true ≡ false → ⊥
      clash x = cc

  rows_of-hit :
      (r : ObservationRow) (rows : List ObservationRow)
      → r.invoice_id ≡ id
      → rows_of id (r ∷ rows) ≡ r ∷ rows_of id rows
  unfolding rows_of
  rows_of-hit r rows e = rw ((eq_iff r.invoice_id id).1 e) refl

  rows_of-miss :
      (r : ObservationRow) (rows : List ObservationRow)
      → r.invoice_id ≢ id
      → rows_of id (r ∷ rows) ≡ rows_of id rows
  unfolding rows_of
  rows_of-miss r rows h = rw (ne→eq-false r.invoice_id id h) refl

  rows_of-cons :
      (r : ObservationRow) (xs ys : List ObservationRow)
      → rows_of id xs ≡ rows_of id ys
      → rows_of id (r ∷ xs) ≡ rows_of id (r ∷ ys)
  unfolding rows_of
  rows_of-cons r xs ys h = elim (Bool-cases (r.invoice_id == id)) [
    | inl hit ↦ rw hit (ap (λ l. r ∷ l) h)
    | inr miss ↦ rw miss h
  ]

  -- Other upserts leave the rows of the invoice alone.
  upsert-rows_of :
      (u : ObservationRow) (rows : List ObservationRow)
      → IsOther u
      → All IsOwn rows
      → rows_of id (upsert u rows) ≡ rows_of id rows
  unfolding upsert excluded
  upsert-rows_of u [] other own = rows_of-miss u [] other.0
  upsert-rows_of u (r ∷ rows) other own = elim (Bool-cases (same_key r u)) [
    | inl hit ↦
        (let apart = own_apart u r other own.0 hit in
          rw hit (rows_of-miss _ rows apart ∙ sym (rows_of-miss r rows apart)))
    | inr miss ↦ rw miss (rows_of-cons r _ _ (upsert-rows_of u rows other own.1))
  ]

  upsert-IsOwn :
      (u : ObservationRow) (rows : List ObservationRow)
      → IsOther u
      → All IsOwn rows
      → All IsOwn (upsert u rows)
  unfolding excluded
  upsert-IsOwn u rows other own =
      upsert-keeps IsOwn u rows own (λ e. absurd (other.0 e)) (λ r same k e. k e)

  upserted-rows_of :
      (us : List ObservationUpdate) (rows : List ObservationRow)
      → All (λ u. IsOther (observation_row u)) us
      → All IsOwn rows
      → rows_of id (upserted us rows) ≡ rows_of id rows
  upserted-rows_of [] rows other own = refl
  upserted-rows_of (u ∷ us) rows other own =
      upserted-rows_of us _ other.1 (upsert-IsOwn (observation_row u) rows other.0 own)
      ∙ upsert-rows_of (observation_row u) rows other.0 own

  -- The row of the output, where there was none of the invoice.
  upsert_alone :
      (w : ObservationRow) (rows : List ObservationRow)
      → w.invoice_id ≡ id
      → is_output txid vout w ≡ true
      → All IsOther rows
      → rows_of id (upsert w rows) ≡ w ∷ []
  unfolding upsert
  upsert_alone w [] own out all = rows_of-hit w [] own ∙ (unfold rows_of in refl)
  upsert_alone w (r ∷ rows) own out all = elim (Bool-cases (same_key r w)) [
    | inl hit ↦ absurd (clash (sym out ∙ sym (same_output txid vout r w hit) ∙ all.0.1))
    | inr miss ↦ rw miss (rows_of-miss r _ all.0.0 ∙ upsert_alone w rows own out all.1)
  ]
    where
      clash : true ≡ false → ⊥
      clash x = cc

  -- If no row is of the invoice or of the output, and all updates but one are of other invoices and
  -- other outputs, then that one is what the batch leaves of the invoice.
  pub upserted_alone :
      (us vs : List ObservationUpdate) (w : ObservationUpdate) (rows : List ObservationRow)
      → (observation_row w).invoice_id ≡ id
      → is_output txid vout (observation_row w) ≡ true
      → All (λ u. IsOther (observation_row u)) us
      → All (λ u. IsOther (observation_row u)) vs
      → All IsOther rows
      → rows_of id (upserted (us ++ w ∷ vs) rows) ≡ observation_row w ∷ []
  unfolding excluded
  upserted_alone [] vs w rows own out before after all =
      upserted-rows_of vs (upsert (observation_row w) rows) after (
        upsert-keeps IsOwn (observation_row w) rows (All-imp _ _ (λ o k e. absurd (k.0 e)) rows all)
          (λ _. out) (λ r same k e. k e))
      ∙ upsert_alone (observation_row w) rows own out all
  upserted_alone (u ∷ us) vs w rows own out before after all =
      upserted_alone us vs w (upsert (observation_row u) rows) own out before.1 after
        (upsert-keeps IsOther (observation_row u) rows all before.0 (λ r same k. k))
