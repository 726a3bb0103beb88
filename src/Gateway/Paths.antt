-- ===== src/Gateway/Paths.antt =====
-- What the handlers do to the database, as sequences of the steps of the process.
use btcpay_gate.Base.{
  ℤ, ◌≡◌, refl, sym, subst, inl, inr, Bool, true, false, Option, none, some, List, [], ◌∷◌, String,
  ◌==◌, All, All-append, Any, Bool-cases, if◌then◌else◌,
}
use btcpay_gate.Errors.{Result, ok, err}
use btcpay_gate.Rpc.Amounts.{Float64}
use btcpay_gate.Rpc.SinceBlock.{Transaction, SinceBlock, is_receive}
use btcpay_gate.Payments.State.{Invoice}
use btcpay_gate.Payments.Store.Tables.{InvoiceRow, EventRow, Tables, first_row}
use btcpay_gate.Payments.Store.Sql.{Conn, Sql, ◌>>=◌}
use btcpay_gate.Payments.Store.Reads.{Reads, Reads-pure, Reads-query}
use btcpay_gate.Payments.Store.Ops.{
  ObservationUpdate, Update, StatusChange, scan_invoice, apply, create_invoice, next_deriv_index,
}
use btcpay_gate.Payments.Store.Spec.{settled}
use btcpay_gate.Payments.Store.Loop.{UniqueIds}
use btcpay_gate.Payments.Store.Apply.{Committed, apply_all_or_nothing}
use btcpay_gate.Monitor.{observed, add_observation, poll}
use btcpay_gate.Monitor.Mapping.{scanned, mapped_to, batch, update_of}
use btcpay_gate.Monitor.Poll.{Polled, poll_all_or_nothing}
use btcpay_gate.Webhook.{Host, Sender, deliver_one, deliver_all, deliver_due}
use btcpay_gate.Api.{
  Server, CreateRequest, Checked, refused, terms, checked, stored_answer, new_invoice,
  address_answer, index_answer, checked_answer, create_handler,
}
use btcpay_gate.Api.Issue.{next_deriv_index-Reads}
use btcpay_gate.Gateway.{meeting, IsKnown, creates, applies, delivers, Reach, here, next}

pub Reach-trans : {t u v : Tables} → Reach t u → Reach u v → Reach t v
Reach-trans r here = r
Reach-trans r (next s step) = next (Reach-trans r s) step

Reach-of_eq : {t t' : Tables} → t' ≡ t → Reach t t'
Reach-of_eq {t} e = subst (Reach t) (sym e) here

-- An action that only takes steps.
record Walks {A : Type 0} (m : Sql A) : Type 0 where
  at : (c : Conn) → Reach c.tables (m c).1.tables

Walks-of_Reads : {A : Type 0} (m : Sql A) → Reads m → Walks m
Walks-of_Reads m h = record { at = λ c. Reach-of_eq (h.at c) }

module _ {A B : Type 0} where
  Walks-continue :
      (r : Result A) (t : Tables) (c : Conn) (k : A → Sql B)
      → Reach t c.tables
      → ((a : A) → Walks (k a))
      → Reach t (((λ (c' : Conn). (r, c')) >>= k) c).1.tables
  unfolding ◌>>=◌
  Walks-continue (ok a) t c k h w = Reach-trans h ((w a).at c)
  Walks-continue (err e) t c k h w = h

  Walks-bind : (m : Sql A) (k : A → Sql B) → Walks m → ((a : A) → Walks (k a)) → Walks (m >>= k)
  unfolding ◌>>=◌
  Walks-bind m k h w = record { at = λ c. Walks-continue (m c).0 c.tables (m c).1 k (h.at c) w }

-- A pass of the sender: one step for each event whose outcome is recorded.
module _ (h : Host) (s : Sender) where
  deliver_all-Walks : (ps : List EventRow) → Walks (deliver_all h s ps)
  unfolding deliver_all
  deliver_all-Walks [] = Walks-of_Reads _ (Reads-pure tt)
  deliver_all-Walks (p ∷ ps) =
      Walks-bind (deliver_one h s p) _
        (record { at = λ c. next here (delivers h s p c.faults refl) }) (λ _. deliver_all-Walks ps)

  deliver_due-Walks : (now : ℤ) → Walks (deliver_due h s now)
  unfolding deliver_due
  deliver_due-Walks now = elim (Bool-cases (s.url == "")) [
    | inl none_set ↦ rw none_set (Walks-of_Reads _ (Reads-pure tt))
    | inr some_url ↦
        rw some_url (Walks-bind _ _ (Walks-of_Reads _ (Reads-query _)) (λ ps. deliver_all-Walks ps))
  ]

-- A poll: at most one step, which applies an update about stored invoices.
abbrev KnownRow : List InvoiceRow → Option InvoiceRow → Type 0
KnownRow rs none = Unit
KnownRow rs (some r) = Any (λ x. x.id ≡ r.id) rs

KnownRow-cons :
    (x : InvoiceRow) (rs : List InvoiceRow) (o : Option InvoiceRow)
    → KnownRow rs o
    → KnownRow (x ∷ rs) o
KnownRow-cons x rs none h = tt
KnownRow-cons x rs (some r) h = inr h

first_row-known : (p : InvoiceRow → Bool) (rs : List InvoiceRow) → KnownRow rs (first_row p rs)
first_row-known p [] = tt
first_row-known p (x ∷ rs) = elim (Bool-cases (p x)) [
  | inl hit ↦ rw hit (inl refl)
  | inr miss ↦ rw miss (KnownRow-cons x rs (first_row p rs) (first_row-known p rs))
]

module _ (f : Float64) (t : Tables) where
  abbrev AreKnown : List ObservationUpdate → Type 0
  AreKnown us = All (λ o. IsKnown t o.invoice_id) us

  add-AreKnown :
      (tx : Transaction f) (removed b : Bool) (o : Option InvoiceRow) (us : List ObservationUpdate)
      → KnownRow t.invoices o
      → AreKnown us
      → AreKnown (add_observation f (if b then mapped_to f tx removed (scanned o) else none) us)
  unfolding observed scan_invoice
  add-AreKnown tx removed false o us h k = k
  add-AreKnown tx removed true none us h k = k
  add-AreKnown tx removed true (some r) us h k = (h, k)

  batch-AreKnown : (txs : List (Transaction f)) (removed : Bool) → AreKnown (batch f t txs removed)
  batch-AreKnown [] removed = tt
  batch-AreKnown (tx ∷ txs) removed =
      add-AreKnown tx removed (is_receive f tx)
        (first_row (λ r. r.address == tx.address) t.invoices) _ (first_row-known _ t.invoices)
        (batch-AreKnown txs removed)

  Committed-calm :
      (u : Update) (now : ℤ) (r : Result (List StatusChange) × Conn)
      → Committed u now (meeting t []) r
      → settled u now t ≡ r.1.tables
  Committed-calm u now (ok changes, c') h = sym h.1
  Committed-calm u now (err e, c') h = absurd h.1

  settled-Reach :
      (since : SinceBlock f) (now : ℤ)
      → UniqueIds t.invoices
      → Reach t (settled (update_of f t since) now t)
  settled-Reach since now unique =
      let u = update_of f t since in
      next here (
        applies u now []
          (All-append _ (batch f t since.transactions false) _
            (batch-AreKnown since.transactions false) (batch-AreKnown since.removed true))
          (Committed-calm u now (apply u now (meeting t []))
            (apply_all_or_nothing u now (meeting t []) unique)))

module _ (f : Float64) (node : String → ℤ → Result (SinceBlock f)) (window now : ℤ) where
  Polled-Reach :
      (c : Conn) (r : Result (Unit {0}) × Conn)
      → UniqueIds c.tables.invoices
      → Polled f node window now c r
      → Reach c.tables r.1.tables
  Polled-Reach c (ok a, c') unique h =
      subst (Reach c.tables) (sym h.2) (settled-Reach f c.tables h.0 now unique)
  Polled-Reach c (err e, c') unique h = Reach-of_eq h.0

-- A request for an invoice: at most one step, which stores a pending invoice.
module _ (rfc3339 : ℤ → String) where
  stored_answer-tables :
      (inv : Invoice) (r : Result (Unit {0}) × Conn)
      → (stored_answer rfc3339 inv r).1.tables ≡ r.1.tables
  stored_answer-tables inv (ok a, c) = refl
  stored_answer-tables inv (err e, c) = refl

  module _ (address_at : ℤ → Result String) (id : String) (now amount conf ttl : ℤ) where
    address_answer-Reach :
        (index : ℤ) (r : Result String) (c : Conn)
        → Reach c.tables (address_answer rfc3339 id now amount conf ttl index r c).1.tables
    address_answer-Reach index (ok address) c =
        let inv = new_invoice rfc3339 id now amount conf ttl index address in
        next here (creates inv c.faults refl (stored_answer-tables inv (create_invoice inv c)))
    address_answer-Reach index (err e) c = here

    index_answer-Reach :
        (t : Tables) (r : Result ℤ × Conn)
        → r.1.tables ≡ t
        → Reach t (index_answer rfc3339 address_at id now amount conf ttl r).1.tables
    index_answer-Reach t (ok index, c) same =
        Reach-trans (Reach-of_eq same) (address_answer-Reach index (address_at index) c)
    index_answer-Reach t (err e, c) same = Reach-of_eq same

  checked_answer-Reach :
      (address_at : ℤ → Result String) (id : String) (now amount : ℤ) (k : Checked) (c : Conn)
      → Reach c.tables (checked_answer rfc3339 address_at id now amount k c).1.tables
  checked_answer-Reach address_at id now amount (refused text) c = here
  checked_answer-Reach address_at id now amount (terms conf ttl) c =
      index_answer-Reach address_at id now amount conf ttl c.tables (next_deriv_index c)
        (next_deriv_index-Reads.at c)

  create_handler-Reach :
      (s : Server) (address_at : ℤ → Result String) (id : String) (now : ℤ)
      (body : Option CreateRequest) (c : Conn)
      → Reach c.tables (create_handler rfc3339 s address_at id now body c).1.tables
  unfolding create_handler
  create_handler-Reach s address_at id now none c = here
  create_handler-Reach s address_at id now (some req) c =
      checked_answer-Reach address_at id now req.amount_sat (checked s req) c

-- What the goroutines run.
pub data Operation : Type 1 where
  polls : (f : Float64) → (String → ℤ → Result (SinceBlock f)) → ℤ → ℤ → Operation
  sends : Host → Sender → ℤ → Operation
  requests :
      (ℤ → String) → Server → (ℤ → Result String) → String → ℤ → Option CreateRequest → Operation

-- What an operation leaves of the database, under the faults that the connection has in store.
abbrev pub perform : Operation → Conn → Tables
perform (polls f node window now) c = (poll f node window now c).1.tables
perform (sends h s now) c = (deliver_due h s now c).1.tables
perform (requests rfc3339 s address_at id now body) c =
    (create_handler rfc3339 s address_at id now body c).1.tables

-- Over unique ids a poll, a pass of the sender and a request for an invoice each take the database
-- along steps of the process only, whatever the engine fails.
pub perform-Reach :
    (o : Operation) (c : Conn) → UniqueIds c.tables.invoices → Reach c.tables (perform o c)
perform-Reach (polls f node window now) c unique =
    Polled-Reach f node window now c (poll f node window now c) unique
      (poll_all_or_nothing f node window now c unique)
perform-Reach (sends h s now) c unique = (deliver_due-Walks h s now).at c
perform-Reach (requests rfc3339 s address_at id now body) c unique =
    create_handler-Reach rfc3339 s address_at id now body c
