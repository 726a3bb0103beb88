-- ===== src/Api.antt =====
-- internal/api/api.go: the handlers of the merchant's HTTP interface.
pub mod Views
pub mod Issue
pub mod Lookup
pub mod Pages
pub mod Tests
use btcpay_gate.Base.{
  ◌*◌, ℤ, pos, ◌+ℤ◌, ◌*ℤ◌, leb_ℤ, ltb_ℤ, eqb_ℤ, Bool, true, false, not, Option, none, some, List,
  String, if◌then◌else◌,
}
use btcpay_gate.Base.Word.{wrap64}
use btcpay_gate.Time.{second, unix, is_zero}
use btcpay_gate.Errors.{Error, is_not_found, Result, ok, err}
use btcpay_gate.Health
use btcpay_gate.Payments.State.{pending, Invoice, Observation, status_text, paid, min_confirmations}
use btcpay_gate.Payments.Store.Sql.{Conn, Sql, pure, ◌>>=◌}
use btcpay_gate.Payments.Store.Ops.{next_deriv_index, create_invoice, invoice, observations_tx}

-- The parts of `Config` and `Server` that decide anything.
pub record Server : Type 0 where
  pub default_conf : ℤ
  pub default_ttl : ℤ

-- `New`: two confirmations and half an hour by default.
unfoldable pub new : Server → Server
new cfg = record {
  default_conf = if eqb_ℤ cfg.default_conf (pos 0) then pos 2 else cfg.default_conf;
  default_ttl = if eqb_ℤ cfg.default_ttl (pos 0) then pos (1800 * second) else cfg.default_ttl;
}

pub record CreateRequest : Type 0 where
  pub amount_sat : ℤ
  pub required_conf : Option ℤ
  pub ttl_seconds : Option ℤ

pub record InvoiceResponse : Type 0 where
  pub id : String
  pub address : String
  pub amount_sat : ℤ
  pub paid_sat : ℤ
  pub required_conf : ℤ
  pub confirmations : ℤ
  pub status : String
  pub created_at : String
  pub expires_at : String

-- What a handler writes: 400, 500, 404, 201 or 200 with their bodies. Of an internal error the
-- caller learns the step that failed only.
pub data Response : Type 0 where
  bad_request : String → Response
  internal_error : String → Response
  no_such_invoice : Response
  created : InvoiceResponse → Response
  found : InvoiceResponse → Response

-- What the checks of `createInvoice` leave: a refusal, or the confirmations and the lifetime.
pub data Checked : Type 0 where
  refused : String → Checked
  terms : ℤ → ℤ → Checked

abbrev checked_ttl : Server → ℤ → Option ℤ → Checked
checked_ttl s conf none = terms conf s.default_ttl
checked_ttl s conf (some ttl) =
    if leb_ℤ ttl (pos 0)
    then refused "ttl_seconds must be positive"
    else terms conf (wrap64 (ttl *ℤ pos second))

abbrev checked_conf : Server → Option ℤ → Option ℤ → Checked
checked_conf s none ttl = checked_ttl s s.default_conf ttl
checked_conf s (some conf) ttl =
    if ltb_ℤ conf (pos 0)
    then refused "required_conf cannot be negative"
    else checked_ttl s conf ttl

-- The checks of `createInvoice`, in their order.
unfoldable pub checked : Server → CreateRequest → Checked
checked s req =
    if leb_ℤ req.amount_sat (pos 0)
    then refused "amount_sat must be a positive number of satoshi"
    else checked_conf s req.required_conf req.ttl_seconds

-- The text of a time, `Format(time.RFC3339)`, is the library's.
module _ (rfc3339 : ℤ → String) where
  unfoldable pub issued_view : Invoice → InvoiceResponse
  issued_view inv = record {
    id = inv.id;
    address = inv.address;
    amount_sat = inv.amount_sat;
    paid_sat = pos 0;
    required_conf = inv.required_conf;
    confirmations = pos 0;
    status = status_text inv.status;
    created_at = rfc3339 inv.created_at;
    expires_at = rfc3339 inv.expires_at;
  }

  abbrev pub stored_answer : Invoice → Result (Unit {0}) × Conn → Response × Conn
  stored_answer inv (ok a, c) = (created (issued_view inv), c)
  stored_answer inv (err e, c) = (internal_error "could not store invoice", c)

  -- The invoice that `createInvoice` builds.
  abbrev pub new_invoice : String → ℤ → ℤ → ℤ → ℤ → ℤ → String → Invoice
  new_invoice id now amount conf ttl index address = record {
    id = id;
    address = address;
    deriv_index = index;
    amount_sat = amount;
    required_conf = conf;
    status = pending;
    created_at = now;
    expires_at = now +ℤ ttl;
  }

  abbrev pub address_answer : String → ℤ → ℤ → ℤ → ℤ → ℤ → Result String → Conn → Response × Conn
  address_answer id now amount conf ttl index (ok address) c =
      let inv = new_invoice id now amount conf ttl index address in
      stored_answer inv (create_invoice inv c)
  address_answer id now amount conf ttl index (err e) c =
      (internal_error "could not derive address", c)

  abbrev pub index_answer :
      (ℤ → Result String) → String → ℤ → ℤ → ℤ → ℤ → Result ℤ × Conn → Response × Conn
  index_answer address_at id now amount conf ttl (ok index, c) =
      address_answer id now amount conf ttl index (address_at index) c
  index_answer address_at id now amount conf ttl (err e, c) =
      (internal_error "could not allocate derivation index", c)

  abbrev pub checked_answer :
      (ℤ → Result String) → String → ℤ → ℤ → Checked → Conn → Response × Conn
  checked_answer address_at id now amount (refused text) c = (bad_request text, c)
  checked_answer address_at id now amount (terms conf ttl) c =
      index_answer address_at id now amount conf ttl (next_deriv_index c)

  -- `createInvoice`, on the decoded body or none; `id` is what `newID` makes of the random bytes.
  unfoldable pub create_handler :
      Server → (ℤ → Result String) → String → ℤ → Option CreateRequest → Conn → Response × Conn
  create_handler s address_at id now none c = (bad_request "malformed JSON body", c)
  create_handler s address_at id now (some req) c =
      checked_answer address_at id now req.amount_sat (checked s req) c

  -- `Observations` of internal/payments/store.go; `SortObservations` calls the library's sort.
  unfoldable pub observations :
      (List Observation → List Observation) → String → Sql (List Observation)
  observations sort id = do obs ← observations_tx id; pure (sort obs)

  unfoldable pub found_view : Invoice → List Observation → InvoiceResponse
  found_view inv obs = record {
    id = inv.id;
    address = inv.address;
    amount_sat = inv.amount_sat;
    paid_sat = paid obs;
    required_conf = inv.required_conf;
    confirmations = min_confirmations obs;
    status = status_text inv.status;
    created_at = rfc3339 inv.created_at;
    expires_at = rfc3339 inv.expires_at;
  }

  abbrev pub observed_answer : Invoice → Result (List Observation) × Conn → Response × Conn
  observed_answer inv (ok obs, c) = (found (found_view inv obs), c)
  observed_answer inv (err e, c) = (internal_error "could not load observations", c)

  abbrev pub loaded_answer :
      (List Observation → List Observation) → Result Invoice × Conn → Response × Conn
  loaded_answer sort (ok inv, c) = observed_answer inv (observations sort inv.id c)
  loaded_answer sort (err e, c) =
      if is_not_found e then (no_such_invoice, c) else (internal_error "could not load invoice", c)

  -- `getInvoice`.
  unfoldable pub get_handler :
      (List Observation → List Observation) → String → Conn → Response × Conn
  get_handler sort id c = loaded_answer sort (invoice id c)

-- `report` and `healthz`: whether the answer is 200, and not 503. No source reads as not OK.
unfoldable pub healthz : Option Health.Report → Bool
healthz none = false
healthz (some r) = r.is_ok

-- The two gauges that `metrics` writes: the wallet, and the time of the last good poll.
unfoldable pub metrics : Option Health.Report → ℤ × ℤ
metrics none = (pos 0, pos 0)
metrics (some r) = (
  if r.wallet_loaded then pos 1 else pos 0,
  if not (is_zero r.last_success) then unix r.last_success else pos 0,
)
