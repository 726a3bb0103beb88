-- ===== src/Monitor/Single.antt =====
-- One payment in the node's answer, to the address of an invoice of which nothing was known.
use mathlib.Core.List.{append_assoc}
use btcpay_gate.Base.{
  eqb_ℤ, ◌≡◌, ◌≢◌, refl, sym, subst, ap, ◌∙◌, inl, inr, Bool, true, false, ◌&&◌, Option, none, some,
  List, [], ◌∷◌, ◌++◌, String, ◌==◌, eq_iff, eq_refl, ne→eq-false, arith, All, All-imp, All-append,
  Any, Bool-cases, if◌then◌else◌,
}
use btcpay_gate.Rpc.Amounts.{Float64}
use btcpay_gate.Rpc.SinceBlock.{Transaction, SinceBlock, is_receive}
use btcpay_gate.Payments.Store.Tables.{InvoiceRow, Tables, first_row, rows_of}
use btcpay_gate.Payments.Store.Ops.{ObservationUpdate, scan_invoice, observation_row}
use btcpay_gate.Payments.Store.Spec.{upserted}
use btcpay_gate.Payments.Store.Loop.{UniqueIds}
use btcpay_gate.Payments.Store.Invariant.{UniqueAddresses, IsValid}
use btcpay_gate.Payments.Store.Alone.{IsOther, upserted_alone}
use btcpay_gate.Monitor.{observed, add_observation}
use btcpay_gate.Monitor.Mapping.{scanned, by_address, mapped_to, mapped, batch, update_of}

pub All-at :
    {A : Type 0} (P : A → Type 0) (a : A) (xs : List A) → All P xs → Any (λ x. x ≡ a) xs → P a
All-at P a [] h k = absurd k
All-at P a (x ∷ xs) h (inl e) = subst P e h.0
All-at P a (x ∷ xs) h (inr k) = All-at P a xs h.1 k

-- The invoice of an address is the one that has it.
first_row-address :
    (r : InvoiceRow) (rs : List InvoiceRow)
    → UniqueAddresses rs
    → Any (λ x. x ≡ r) rs
    → first_row (λ x. x.address == r.address) rs ≡ some r
first_row-address r [] u h = absurd h
first_row-address r (x ∷ rs) u (inl e) =
    rw ((eq_iff x.address r.address).1 (ap (λ (y : InvoiceRow). y.address) e)) (ap some e)
first_row-address r (x ∷ rs) u (inr h) =
    let apart = All-at (λ y. y.address ≢ x.address) r rs u.0 h in
    rw (ne→eq-false x.address r.address (λ e. apart (sym e))) (first_row-address r rs u.1 h)

-- The id of an invoice tells which one it is.
same_id :
    (r : InvoiceRow) (rs : List InvoiceRow)
    → UniqueIds rs
    → Any (λ x. x ≡ r) rs
    → All (λ x. x.id ≡ r.id → x ≡ r) rs
same_id r [] u h = tt
same_id r (x ∷ rs) u (inl e) = (
  λ _. e,
  All-imp _ _ (λ y k same. absurd (k (same ∙ ap (λ (z : InvoiceRow). z.id) (sym e)))) rs u.0,
)
same_id r (x ∷ rs) u (inr h) =
    (λ same. absurd (All-at (λ y. y.id ≢ x.id) r rs u.0 h (sym same)), same_id r rs u.1 h)

abbrev IsNot : String → Option InvoiceRow → Type 0
IsNot id none = Unit
IsNot id (some x) = x.id ≢ id

first_row-IsNot :
    (r : InvoiceRow) (a : String) (rs : List InvoiceRow)
    → a ≢ r.address
    → All (λ x. x.id ≡ r.id → x ≡ r) rs
    → IsNot r.id (first_row (λ x. x.address == a) rs)
first_row-IsNot r a [] h k = tt
first_row-IsNot r a (x ∷ rs) h k = elim (Bool-cases (x.address == a)) [
  | inl hit ↦
      rw hit
        (λ e. h (sym ((eq_iff x.address a).0 hit) ∙ ap (λ (y : InvoiceRow). y.address) (k.0 e)))
  | inr miss ↦ rw miss (first_row-IsNot r a rs h k.1)
]

module _ (f : Float64) (t : Tables) (valid : IsValid t) (r : InvoiceRow)
    (stored : Any (λ x. x ≡ r) t.invoices) (tx : Transaction f) where
  -- Another transaction, of another output, that pays another address.
  abbrev pub IsElsewhere : Transaction f → Type 0
  IsElsewhere y = (y.address ≢ r.address) × ((y.txid == tx.txid && eqb_ℤ y.vout tx.vout) ≡ false)

  abbrev AreOther : List ObservationUpdate → Type 0
  AreOther us = All (λ u. IsOther r.id tx.txid tx.vout (observation_row u)) us

  add-AreOther :
      (y : Transaction f) (removed b : Bool) (o : Option InvoiceRow) (us : List ObservationUpdate)
      → (y.txid == tx.txid && eqb_ℤ y.vout tx.vout) ≡ false
      → IsNot r.id o
      → AreOther us
      → AreOther (add_observation f (if b then mapped_to f y removed (scanned o) else none) us)
  unfolding observed observation_row scan_invoice
  add-AreOther y removed false o us out h k = k
  add-AreOther y removed true none us out h k = k
  add-AreOther y removed true (some x) us out h k = ((h, out), k)

  batch-AreOther :
      (ys : List (Transaction f)) (removed : Bool)
      → All IsElsewhere ys
      → AreOther (batch f t ys removed)
  batch-AreOther [] removed h = tt
  batch-AreOther (y ∷ ys) removed h =
      add-AreOther y removed (is_receive f y) (first_row (λ x. x.address == y.address) t.invoices) _
        h.0.1 (first_row-IsNot r y.address t.invoices h.0.0 (same_id r t.invoices valid.ids stored))
        (batch-AreOther ys removed h.1)

  -- The payment as it is recorded.
  abbrev pub payment : ObservationUpdate
  payment = observed f tx false (scan_invoice r)

  mapped-payment :
      is_receive f tx ≡ true → tx.address ≡ r.address → mapped f t tx false ≡ some payment
  mapped-payment yes_receive e = rw yes_receive (
      ap (λ a. mapped_to f tx false (by_address a t)) e
      ∙ ap (λ o. mapped_to f tx false (scanned o))
          (first_row-address r t.invoices valid.addresses stored))

  batch-append :
      (xs ys : List (Transaction f))
      → is_receive f tx ≡ true
      → tx.address ≡ r.address
      → batch f t (xs ++ tx ∷ ys) false ≡ batch f t xs false ++ payment ∷ batch f t ys false
  batch-append [] ys yes_receive e =
      ap (λ o. add_observation f o (batch f t ys false)) (mapped-payment yes_receive e)
  batch-append (x ∷ xs) ys yes_receive e =
      ap (add_observation f (mapped f t x false)) (batch-append xs ys yes_receive e)
      ∙ add_front (mapped f t x false) (batch f t xs false) (payment ∷ batch f t ys false)
    where
      add_front :
          (o : Option ObservationUpdate) (us vs : List ObservationUpdate)
          → add_observation f o (us ++ vs) ≡ add_observation f o us ++ vs
      add_front none us vs = refl
      add_front (some u) us vs = refl

  -- If the answer has one received payment to the address of the invoice, every other transaction
  -- in it is of another output and pays another address, and neither invoice nor output was known,
  -- then what the answer leaves of the invoice is this payment.
  pub known_alone :
      (since : SinceBlock f) (before after : List (Transaction f))
      → since.transactions ≡ before ++ tx ∷ after
      → is_receive f tx ≡ true
      → tx.address ≡ r.address
      → All IsElsewhere before
      → All IsElsewhere after
      → All IsElsewhere since.removed
      → All (IsOther r.id tx.txid tx.vout) t.observations
      → rows_of r.id (upserted (update_of f t since).observations t.observations)
        ≡ observation_row payment ∷ []
  unfolding observed observation_row scan_invoice
  known_alone since before after e yes_receive at_address h k g fresh =
      let gone = batch f t since.removed true in
      let first = batch f t before false in
      let last = batch f t after false in
      ap (λ us. rows_of r.id (upserted (us ++ gone) t.observations))
        (ap (λ ys. batch f t ys false) e ∙ batch-append before after yes_receive at_address)
      ∙ ap (λ us. rows_of r.id (upserted us t.observations))
          (append_assoc first (payment ∷ last) gone)
      ∙ upserted_alone r.id tx.txid tx.vout first (last ++ gone) payment t.observations refl
          (own_output (eq_refl tx.txid)) (batch-AreOther before false h)
          (All-append _ last gone (batch-AreOther after false k)
            (batch-AreOther since.removed true g))
          fresh
    where
      own_output :
          (tx.txid == tx.txid) ≡ true → (tx.txid == tx.txid && eqb_ℤ tx.vout tx.vout) ≡ true
      own_output same = ground arith
