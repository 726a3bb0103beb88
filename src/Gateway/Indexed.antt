-- ===== src/Gateway/Indexed.antt =====
-- What holds of the indexes and addresses of the invoices holds after a request, if it holds of a new one's.
use btcpay_gate.Base.{
  ℤ, ◌≡◌, refl, sym, subst, List, [], ◌∷◌, map, Option, none, some, String, All, All-append,
}
use btcpay_gate.Errors.{Result, ok, err}
use btcpay_gate.Payments.State.{Invoice}
use btcpay_gate.Payments.Store.Tables.{InvoiceRow, ObservationRow, Tables}
use btcpay_gate.Payments.Store.Sql.{Conn}
use btcpay_gate.Payments.Store.Ops.{Update, create_invoice, next_deriv_index, invoice_row}
use btcpay_gate.Payments.Store.Spec.{upserted, settle, settled}
use btcpay_gate.Payments.Store.Create.{Created, create_invoice_outcome}
use btcpay_gate.Wallet.{address_at}
use btcpay_gate.Api.{
  Server, CreateRequest, Checked, refused, terms, checked, stored_answer, new_invoice,
  address_answer, index_answer, checked_answer, create_handler,
}
use btcpay_gate.Api.Issue.{next_deriv_index-Reads}

-- A predicate on the indexes in use and their addresses.
abbrev pub AllIndexes : (ℤ → String → Type 0) → Tables → Type 0
AllIndexes P t = All (λ r. P r.deriv_index r.address) t.invoices

module _ (P : ℤ → String → Type 0) (rfc3339 : ℤ → String) where
  stored_answer-AllIndexes :
      (inv : Invoice) (c : Conn) (r : Result (Unit {0}) × Conn)
      → AllIndexes P c.tables
      → P inv.deriv_index inv.address
      → Created inv c r
      → AllIndexes P (stored_answer rfc3339 inv r).1.tables
  unfolding invoice_row
  stored_answer-AllIndexes inv c (ok a, c') h k e =
      subst (AllIndexes P) (sym e.0) (All-append _ c.tables.invoices _ h (k, tt))
  stored_answer-AllIndexes inv c (err x, c') h k e = subst (AllIndexes P) (sym e.0) h

  module _ (address_at : ℤ → Result String) (id : String) (now amount : ℤ) where
    pub address_answer-AllIndexes :
        (conf ttl index : ℤ) (r : Result String) (c : Conn)
        → AllIndexes P c.tables
        → ((a : String) → r ≡ ok a → P index a)
        → AllIndexes P (address_answer rfc3339 id now amount conf ttl index r c).1.tables
    address_answer-AllIndexes conf ttl index (ok address) c h k =
        let inv = new_invoice rfc3339 id now amount conf ttl index address in
        stored_answer-AllIndexes inv c (create_invoice inv c) h (k address refl)
          (create_invoice_outcome inv c)
    address_answer-AllIndexes conf ttl index (err e) c h k = h

    pub index_answer-AllIndexes :
        (conf ttl : ℤ) (r : Result ℤ × Conn)
        → AllIndexes P r.1.tables
        → ((i : ℤ) (a : String) → r.0 ≡ ok i → address_at i ≡ ok a → P i a)
        → AllIndexes P (index_answer rfc3339 address_at id now amount conf ttl r).1.tables
    index_answer-AllIndexes conf ttl (ok i, c) h k =
        address_answer-AllIndexes conf ttl i (address_at i) c h (λ a e. k i a refl e)
    index_answer-AllIndexes conf ttl (err e, c) h k = h

    checked_answer-AllIndexes :
        (x : Checked) (c : Conn)
        → AllIndexes P c.tables
        → ((i : ℤ) (a : String) → (next_deriv_index c).0 ≡ ok i → address_at i ≡ ok a → P i a)
        → AllIndexes P (checked_answer rfc3339 address_at id now amount x c).1.tables
    checked_answer-AllIndexes (refused text) c h k = h
    checked_answer-AllIndexes (terms conf ttl) c h k =
        index_answer-AllIndexes conf ttl (next_deriv_index c)
          (subst (AllIndexes P) (sym (next_deriv_index-Reads.at c)) h) k

  pub create_handler-AllIndexes :
      (s : Server) (address_at : ℤ → Result String) (id : String) (now : ℤ)
      (body : Option CreateRequest) (c : Conn)
      → AllIndexes P c.tables
      → ((i : ℤ) (a : String) → (next_deriv_index c).0 ≡ ok i → address_at i ≡ ok a → P i a)
      → AllIndexes P (create_handler rfc3339 s address_at id now body c).1.tables
  unfolding create_handler
  create_handler-AllIndexes s address_at id now none c h k = h
  create_handler-AllIndexes s address_at id now (some req) c h k =
      checked_answer-AllIndexes address_at id now req.amount_sat (checked s req) c h k

settle-AllIndexes :
    (P : ℤ → String → Type 0) (obs : List ObservationRow) (now : ℤ) (rs : List InvoiceRow)
    → All (λ r. P r.deriv_index r.address) rs
    → All (λ r. P r.deriv_index r.address) (map (settle obs now) rs)
settle-AllIndexes P obs now [] h = tt
settle-AllIndexes P obs now (r ∷ rs) h = (h.0, settle-AllIndexes P obs now rs h.1)

-- Settling moves statuses only.
pub settled-AllIndexes :
    (P : ℤ → String → Type 0) (u : Update) (now : ℤ) (t : Tables)
    → AllIndexes P t
    → AllIndexes P (settled u now t)
settled-AllIndexes P u now t h =
    settle-AllIndexes P (upserted u.observations t.observations) now t.invoices h
