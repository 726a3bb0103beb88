-- ===== src/Api/Issue.antt =====
-- How a request to create an invoice may be answered, and what is stored then.
use btcpay_gate.Base.{
  ℤ, pos, ◌+ℤ◌, ◌*ℤ◌, ◌≤ℤ◌, ◌<ℤ◌, ◌≡◌, ◌≢◌, refl, ap, ◌∙◌, subst, Option, none, some, All, String,
  arith, leb_ℤ, ltb_ℤ, Bool-cases, inl, inr,
}
use btcpay_gate.Base.Word.{wrap64}
use btcpay_gate.Time.{max_int64, second}
use btcpay_gate.Errors.{Result, ok, err}
use btcpay_gate.Payments.State.{pending, Invoice}
use btcpay_gate.Payments.Store.Tables.{Tables}
use btcpay_gate.Payments.Store.Sql.{Conn}
use btcpay_gate.Payments.Store.Reads.{Reads, Reads-query}
use btcpay_gate.Payments.Store.Ops.{create_invoice, next_deriv_index}
use btcpay_gate.Payments.Store.Create.{with_invoice, Created, create_invoice_outcome}
use btcpay_gate.Payments.Store.Indexes.{next_deriv_index_fresh}
use btcpay_gate.Api.Views.{Shows, status_text-word_of}
use btcpay_gate.Api.{
  Server, CreateRequest, Response, bad_request, internal_error, no_such_invoice, created, found,
  Checked, refused, terms, checked_ttl, checked_conf, checked, issued_view, stored_answer,
  new_invoice, address_answer, index_answer, checked_answer, create_handler,
}

-- What a new invoice owes to the ones before it.
pub record IsFresh (t : Tables) (inv : Invoice) : Type 0 where
  pub is_pending : inv.status ≡ pending
  pub is_positive : pos 0 <ℤ inv.amount_sat
  pub is_confirmable : pos 0 ≤ℤ inv.required_conf
  pub above : All (λ r. r.deriv_index <ℤ inv.deriv_index) t.invoices
  pub apart : All (λ r. (r.id ≢ inv.id) × (r.address ≢ inv.address)) t.invoices

-- What is asked for where the request says so, and the default where it does not.
abbrev pub or_default : ℤ → Option ℤ → ℤ
or_default d none = d
or_default d (some x) = x

abbrev pub lifetime : ℤ → Option ℤ → ℤ
lifetime d none = d
lifetime d (some seconds) = wrap64 (seconds *ℤ pos second)

-- The invoice has the terms of the request, and the address that belongs to its index.
pub record IsAsked (s : Server) (address_at : ℤ → Result String) (id : String) (now : ℤ)
    (body : Option CreateRequest) (inv : Invoice) : Type 0 where
  pub request : CreateRequest
  pub decoded : body ≡ some request
  pub named : inv.id ≡ id
  pub derived : address_at inv.deriv_index ≡ ok inv.address
  pub amount : inv.amount_sat ≡ request.amount_sat
  pub conf : inv.required_conf ≡ or_default s.default_conf request.required_conf
  pub since : inv.created_at ≡ now
  pub until : inv.expires_at ≡ now +ℤ lifetime s.default_ttl request.ttl_seconds

abbrev Sound : Server → ℤ → Option ℤ → Option ℤ → Checked → Type 0
Sound s amount asked lasts (refused text) = Unit
Sound s amount asked lasts (terms conf ttl) =
    (pos 0 <ℤ amount)
    × (pos 0 ≤ℤ conf)
    × (conf ≡ or_default s.default_conf asked)
    × (ttl ≡ lifetime s.default_ttl lasts)

checked_ttl-Sound :
    (s : Server) (amount conf : ℤ) (asked ttl : Option ℤ)
    → pos 0 <ℤ amount
    → pos 0 ≤ℤ conf
    → conf ≡ or_default s.default_conf asked
    → Sound s amount asked ttl (checked_ttl s conf ttl)
checked_ttl-Sound s amount conf asked none h k e = (h, k, e, refl)
checked_ttl-Sound s amount conf asked (some ttl) h k e = elim (Bool-cases (leb_ℤ ttl (pos 0))) [
  | inl low ↦ rw low tt
  | inr good ↦ rw good (h, k, e, refl)
]

checked_conf-Sound :
    (s : Server) (amount : ℤ) (conf ttl : Option ℤ)
    → pos 0 ≤ℤ s.default_conf
    → pos 0 <ℤ amount
    → Sound s amount conf ttl (checked_conf s conf ttl)
checked_conf-Sound s amount none ttl d h =
    checked_ttl-Sound s amount s.default_conf none ttl h d refl
checked_conf-Sound s amount (some conf) ttl d h = elim (Bool-cases (ltb_ℤ conf (pos 0))) [
  | inl low ↦ rw low tt
  | inr good ↦ rw good (checked_ttl-Sound s amount conf (some conf) ttl h (ground arith) refl)
]

checked-Sound :
    (s : Server) (req : CreateRequest)
    → pos 0 ≤ℤ s.default_conf
    → Sound s req.amount_sat req.required_conf req.ttl_seconds (checked s req)
unfolding checked
checked-Sound s req d = elim (Bool-cases (leb_ℤ req.amount_sat (pos 0))) [
  | inl low ↦ rw low tt
  | inr good ↦
      rw good
        (checked_conf-Sound s req.amount_sat req.required_conf req.ttl_seconds d (ground arith))
]

pub next_deriv_index-Reads : Reads next_deriv_index
next_deriv_index-Reads = unfold next_deriv_index in Reads-query _

module _ (rfc3339 : ℤ → String) where
  -- How the handler may answer, where a new invoice is to satisfy `Asked`.
  abbrev Answers : (Invoice → Type 0) → Conn → Response × Conn → Type 0
  Answers Asked c (bad_request text, c') = c' ≡ c
  Answers Asked c (internal_error text, c') = c'.tables ≡ c.tables
  Answers Asked c (no_such_invoice, c') = ⊥
  Answers Asked c (created view, c') =
      (inv : Invoice) × Asked inv
      × Shows rfc3339 inv (pos 0) (pos 0) view
      × (c'.tables ≡ with_invoice inv c.tables)
      × IsFresh c.tables inv
  Answers Asked c (found view, c') = ⊥

  abbrev pub Answered :
      Server
      → (ℤ → Result String)
      → String
      → ℤ
      → Option CreateRequest
      → Conn
      → Response × Conn
      → Type 0
  Answered s address_at id now body = Answers (IsAsked s address_at id now body)

  issued_view-Shows : (inv : Invoice) → Shows rfc3339 inv (pos 0) (pos 0) (issued_view rfc3339 inv)
  unfolding issued_view
  issued_view-Shows inv = record {
    its_id = refl;
    its_address = refl;
    its_amount = refl;
    its_paid = refl;
    its_required = refl;
    its_count = refl;
    its_status = status_text-word_of inv.status;
    its_creation = refl;
    its_expiry = refl;
  }

  module _ (Asked : Invoice → Type 0) where
    stored-Answers :
        (inv : Invoice) (c c' : Conn) (r : Result (Unit {0}) × Conn)
        → Asked inv
        → inv.status ≡ pending
        → pos 0 <ℤ inv.amount_sat
        → pos 0 ≤ℤ inv.required_conf
        → All (λ r. r.deriv_index <ℤ inv.deriv_index) c.tables.invoices
        → c'.tables ≡ c.tables
        → Created inv c' r
        → Answers Asked c (stored_answer rfc3339 inv r)
    stored-Answers inv c c' (ok a, c₂) asked status amount conf above same h = (
      inv,
      asked,
      issued_view-Shows inv,
      h.0 ∙ ap (with_invoice inv) same,
      record {
        is_pending = status;
        is_positive = amount;
        is_confirmable = conf;
        above = above;
        apart =
            subst (λ t. All (λ r. (r.id ≢ inv.id) × (r.address ≢ inv.address)) t.invoices) same h.1;
      },
    )
    stored-Answers inv c c' (err e, c₂) asked status amount conf above same h = h.0 ∙ same

  module _ (s : Server) (address_at : ℤ → Result String) (id : String) (now : ℤ)
      (req : CreateRequest) (conf ttl : ℤ) (c : Conn)
      (good : Sound s req.amount_sat req.required_conf req.ttl_seconds (terms conf ttl)) where
    new_invoice-IsAsked :
        (index : ℤ) (address : String)
        → address_at index ≡ ok address
        → IsAsked s address_at id now
            (some req)
            (new_invoice rfc3339 id now req.amount_sat conf ttl index address)
    new_invoice-IsAsked index address got = record {
      request = req;
      decoded = refl;
      named = refl;
      derived = got;
      amount = refl;
      conf = good.2;
      since = refl;
      until = ap (λ x. now +ℤ x) good.3;
    }

    address-Answered :
        (index : ℤ) (r : Result String) (c' : Conn)
        → address_at index ≡ r
        → All (λ r. r.deriv_index <ℤ index) c.tables.invoices
        → c'.tables ≡ c.tables
        → Answered s address_at id now
            (some req)
            c
            (address_answer rfc3339 id now req.amount_sat conf ttl index r c')
    address-Answered index (ok address) c' got above same =
        let inv = new_invoice rfc3339 id now req.amount_sat conf ttl index address in
        stored-Answers _ inv c c' (create_invoice inv c') (new_invoice-IsAsked index address got)
          refl good.0 good.1 above same (create_invoice_outcome inv c')
    address-Answered index (err e) c' got above same = same

    index-Answered :
        (r : Result ℤ × Conn)
        → ((n : ℤ) → r.0 ≡ ok n → All (λ r. r.deriv_index <ℤ n) c.tables.invoices)
        → r.1.tables ≡ c.tables
        → Answered s address_at id now
            (some req)
            c
            (index_answer rfc3339 address_at id now req.amount_sat conf ttl r)
    index-Answered (ok index, c') above same =
        address-Answered index (address_at index) c' refl (above index refl) same
    index-Answered (err e, c') above same = same

  checked-Answered :
      (s : Server) (address_at : ℤ → Result String) (id : String) (now : ℤ) (req : CreateRequest)
      (k : Checked) (c : Conn)
      → pos 0 ≤ℤ s.default_conf
      → All (λ r. (pos 0 ≤ℤ r.deriv_index) × (r.deriv_index <ℤ max_int64)) c.tables.invoices
      → checked s req ≡ k
      → Answered s address_at id now
          (some req)
          c
          (checked_answer rfc3339 address_at id now req.amount_sat k c)
  checked-Answered s address_at id now req (refused text) c default range e = refl
  checked-Answered s address_at id now req (terms conf ttl) c default range e =
      let good =
        subst (Sound s req.amount_sat req.required_conf req.ttl_seconds) e
          (checked-Sound s req default) in
      index-Answered s address_at id now req conf ttl c good (next_deriv_index c)
        (λ n got. next_deriv_index_fresh c n range got) (next_deriv_index-Reads.at c)

  -- With a default of at least 0 confirmations, and every index in use at least 0 and below the
  -- largest int64: a refused request changes nothing, an internal error changes no table, and an
  -- invoice that is announced as created was appended to the invoices. It has the id that was
  -- made, the amount of the request, its confirmations and its lifetime or their defaults, and
  -- the address that belongs to its index. It is pending, asks for a positive amount and no
  -- negative number of confirmations, has an index above every index in use, and shares neither
  -- id nor address with another. The response shows each of its fields, and that nothing is paid.
  pub create_handler-Answered :
      (s : Server) (address_at : ℤ → Result String) (id : String) (now : ℤ)
      (body : Option CreateRequest) (c : Conn)
      → pos 0 ≤ℤ s.default_conf
      → All (λ r. (pos 0 ≤ℤ r.deriv_index) × (r.deriv_index <ℤ max_int64)) c.tables.invoices
      → Answered s address_at id now body c (create_handler rfc3339 s address_at id now body c)
  unfolding create_handler
  create_handler-Answered s address_at id now none c default range = refl
  create_handler-Answered s address_at id now (some req) c default range =
      checked-Answered s address_at id now req (checked s req) c default range refl
