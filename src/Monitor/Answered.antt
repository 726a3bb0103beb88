-- ===== src/Monitor/Answered.antt =====
-- What an answer of the node says of an output, read from the answer itself.
use btcpay_gate.Base.{
  ℤ, pos, ltb_ℤ, eqb_ℤ, ◌≡◌, refl, ap, ◌∙◌, inl, inr, Bool, true, false, ◌&&◌, ◌||◌, Bool-cases,
  Option, none, some, List, [], ◌∷◌, String, ◌==◌, arith, if◌then◌else◌,
}
use btcpay_gate.Rpc.Amounts.{Float64, btc_to_sat}
use btcpay_gate.Rpc.SinceBlock.{Transaction, amount, is_receive}
use btcpay_gate.Payments.State.{Invoice}
use btcpay_gate.Payments.Store.Tables.{InvoiceRow, Tables, first_row}
use btcpay_gate.Payments.Store.Ops.{ObservationUpdate, observation_row}
use btcpay_gate.Payments.Store.Outputs.{Facts, or_else, or_else-none, said, reported}
use btcpay_gate.Monitor.{observed, add_observation}
use btcpay_gate.Monitor.Mapping.{scanned, by_address, mapped_to, batch}

abbrev pub has_address : String → List InvoiceRow → Bool
has_address address [] = false
has_address address (r ∷ rows) = r.address == address || has_address address rows

-- Out of the chain: listed so, or with a negative count, or in conflict with another.
abbrev pub is_gone : Bool → List String → ℤ → Bool
is_gone removed [] confirmations = removed || ltb_ℤ confirmations (pos 0)
is_gone removed (txid ∷ txids) confirmations = true

count_same :
    (n : ℤ) → (if ltb_ℤ n (pos 0) then pos 0 else n) ≡ (if ltb_ℤ (pos 0) n then n else pos 0)
count_same n = ground arith

mark_same :
    (removed : Bool) (conflicts : List String) (n : ℤ)
    → (if ltb_ℤ n (pos 0) then true else elim conflicts [ [] ↦ removed | other ↦ true ])
      ≡ is_gone removed conflicts n
mark_same removed [] n = ground arith
mark_same removed (txid ∷ txids) n = ground arith

module _ (f : Float64) (txid : String) (vout : ℤ) where
  -- The satoshi, the count of confirmations, at least 0, and the mark of removal.
  abbrev pub listed_facts : Transaction f → Bool → Facts
  listed_facts tx removed = (
    f.to_int64 (f.round (f.mul tx.amount_btc f.e8)),
    if ltb_ℤ (pos 0) tx.confirmations then tx.confirmations else pos 0,
    if is_gone removed tx.wallet_conflicts tx.confirmations then pos 1 else pos 0,
  )

  -- The entry is a payment of this output to the address of an invoice.
  abbrev pub is_payment : List InvoiceRow → Transaction f → Bool
  is_payment rows tx =
      tx.category == "receive"
      && has_address tx.address rows
      && (tx.txid == txid && eqb_ℤ tx.vout vout)

  -- What the last entry that pays the output says of it.
  abbrev pub listed : List InvoiceRow → List (Transaction f) → Bool → Option Facts
  listed rows [] removed = none
  listed rows (tx ∷ txs) removed =
      or_else (listed rows txs removed)
        (if is_payment rows tx then some (listed_facts tx removed) else none)

  observed-said :
      (tx : Transaction f) (removed : Bool) (inv : Invoice)
      → said txid vout (observation_row (observed f tx removed inv))
        ≡ (if tx.txid == txid && eqb_ℤ tx.vout vout then some (listed_facts tx removed) else none)
  unfolding observed observation_row amount btc_to_sat
  observed-said tx removed inv =
      rw (count_same tx.confirmations, mark_same removed tx.wallet_conflicts tx.confirmations) refl

  abbrev is_some : {A : Type 0} → Option A → Bool
  is_some none = false
  is_some (some a) = true

  known_has :
      (address : String) (rows : List InvoiceRow)
      → has_address address rows ≡ is_some (scanned (first_row (λ r. r.address == address) rows))
  known_has address [] = refl
  known_has address (r ∷ rows) = elim (Bool-cases (r.address == address)) [
    | inl own ↦ rw own refl
    | inr other ↦ rw other (known_has address rows)
  ]

  add_observation-reported :
      (tx : Transaction f) (removed : Bool) (o : Option Invoice) (us : List ObservationUpdate)
      → reported txid vout (add_observation f (mapped_to f tx removed o) us)
        ≡ or_else (reported txid vout us) (
            if is_some o && (tx.txid == txid && eqb_ℤ tx.vout vout)
            then some (listed_facts tx removed)
            else none)
  add_observation-reported tx removed none us = or_else-none (reported txid vout us)
  add_observation-reported tx removed (some inv) us =
      ap (or_else (reported txid vout us)) (observed-said tx removed inv)

  -- Over the invoices of the tables, the updates say of an output what the entries do.
  pub reported-batch :
      (t : Tables) (txs : List (Transaction f)) (removed : Bool)
      → reported txid vout (batch f t txs removed) ≡ listed t.invoices txs removed
  unfolding is_receive
  reported-batch t [] removed = refl
  reported-batch t (tx ∷ txs) removed = elim (Bool-cases (tx.category == "receive")) [
    | inl hit ↦
        rw (hit, known_has tx.address t.invoices)
          (add_observation-reported tx removed _ (batch f t txs removed)
            ∙ ap
                (λ o. or_else o (
                  if is_some (by_address tx.address t) && (tx.txid == txid && eqb_ℤ tx.vout vout)
                  then some (listed_facts tx removed)
                  else none))
                (reported-batch t txs removed))
    | inr miss ↦
        rw miss (reported-batch t txs removed ∙ or_else-none (listed t.invoices txs removed))
  ]
