-- ===== src/Payments/Store/Invariant.antt =====
-- The constraints of the schema as an invariant, which the writes of `Store` keep.
use btcpay_gate.Base.{
  ℕ, suc, ◌+◌, ◌≤◌, ◌<◌, ℤ, sym, ◌≢◌, subst, List, [], ◌∷◌, ◌++◌, map, keep, length, String, arith,
  All, All-imp, All-append,
}
use btcpay_gate.Errors.{Result, ok, err}
use btcpay_gate.Payments.Store.Tables.{InvoiceRow, ObservationRow, EventRow, Tables}
use btcpay_gate.Payments.Store.Sql.{Conn}
use btcpay_gate.Payments.Store.Ops.{ObservationUpdate, Update, StatusChange, apply, observation_row}
use btcpay_gate.Payments.Store.Spec.{upserted, settled, settle, events_from, moves}
use btcpay_gate.Payments.Store.Loop.{UniqueIds}
use btcpay_gate.Payments.Store.Upsert.{UniqueKeys, upsert-UniqueKeys}
use btcpay_gate.Payments.Store.Replay.{settle-UniqueIds}
use btcpay_gate.Payments.Store.Apply.{Committed, apply_all_or_nothing}

-- No two invoices share an address.
abbrev pub UniqueAddresses : List InvoiceRow → Type 0
UniqueAddresses [] = Unit
UniqueAddresses (r ∷ rs) = All (λ x. x.address ≢ r.address) rs × UniqueAddresses rs

-- Event ids grow along the table.
abbrev pub Increasing : List EventRow → Type 0
Increasing [] = Unit
Increasing (e ∷ es) = All (λ x. e.id < x.id) es × Increasing es

pub record IsValid (t : Tables) : Type 0 where
  pub ids : UniqueIds t.invoices
  pub addresses : UniqueAddresses t.invoices
  pub keys : UniqueKeys t.observations
  pub numbered : Increasing t.events
  pub counted : All (λ e. e.id ≤ t.last_event_id) t.events

pub upserted-UniqueKeys :
    (us : List ObservationUpdate) (rows : List ObservationRow)
    → UniqueKeys rows
    → UniqueKeys (upserted us rows)
upserted-UniqueKeys [] rows h = h
upserted-UniqueKeys (u ∷ us) rows h =
    upserted-UniqueKeys us _ (upsert-UniqueKeys (observation_row u) rows h)

Increasing-append :
    (n : ℕ) (es new : List EventRow)
    → Increasing es
    → All (λ e. e.id ≤ n) es
    → Increasing new
    → All (λ e. n < e.id) new
    → Increasing (es ++ new)
Increasing-append n [] new h b k c = k
Increasing-append n (e ∷ es) new h b k c = (
  All-append _ es new h.0 (All-imp _ _ (λ x lt. omega (arith, b.0)) new c),
  Increasing-append n es new h.1 b.1 k c,
)

module _ (obs : List ObservationRow) (now : ℤ) where
  All-address :
      (a : String) (rs : List InvoiceRow)
      → All (λ x. x.address ≢ a) rs
      → All (λ x. x.address ≢ a) (map (settle obs now) rs)
  All-address a [] h = tt
  All-address a (r ∷ rs) h = (h.0, All-address a rs h.1)

  settle-UniqueAddresses :
      (rs : List InvoiceRow) → UniqueAddresses rs → UniqueAddresses (map (settle obs now) rs)
  settle-UniqueAddresses [] h = tt
  settle-UniqueAddresses (r ∷ rs) h = (All-address r.address rs h.0, settle-UniqueAddresses rs h.1)

  events_from-above :
      (m n : ℕ) (rs : List InvoiceRow) → m ≤ n → All (λ e. m < e.id) (events_from obs now n rs)
  events_from-above m n [] h = tt
  events_from-above m n (r ∷ rs) h = (omega arith, events_from-above m (suc n) rs (omega arith))

  events_from-below :
      (n : ℕ) (rs : List InvoiceRow) → All (λ e. e.id ≤ n + length rs) (events_from obs now n rs)
  events_from-below n [] = tt
  events_from-below n (r ∷ rs) =
      (omega arith, All-imp _ _ (λ e h. omega arith) _ (events_from-below (suc n) rs))

  events_from-Increasing : (n : ℕ) (rs : List InvoiceRow) → Increasing (events_from obs now n rs)
  events_from-Increasing n [] = tt
  events_from-Increasing n (r ∷ rs) =
      (events_from-above (suc n) (suc n) rs (omega arith), events_from-Increasing (suc n) rs)

pub settled-IsValid : (u : Update) (now : ℤ) (t : Tables) → IsValid t → IsValid (settled u now t)
settled-IsValid u now t v =
    let rows = upserted u.observations t.observations in
    let moving = keep (moves rows now) t.invoices in
    record {
      ids = settle-UniqueIds rows now t.invoices v.ids;
      addresses = settle-UniqueAddresses rows now t.invoices v.addresses;
      keys = upserted-UniqueKeys u.observations t.observations v.keys;
      numbered =
          Increasing-append t.last_event_id t.events _ v.numbered v.counted
            (events_from-Increasing rows now t.last_event_id moving)
            (events_from-above rows now t.last_event_id t.last_event_id moving (omega arith));
      counted =
          All-append _ t.events _ (All-imp _ _ (λ e h. omega arith) t.events v.counted)
            (events_from-below rows now t.last_event_id moving);
    }

Committed-IsValid :
    (u : Update) (now : ℤ) (c : Conn) (r : Result (List StatusChange) × Conn)
    → IsValid c.tables
    → Committed u now c r
    → IsValid r.1.tables
Committed-IsValid u now c (ok changes, c') v h =
    subst IsValid (sym h.1) (settled-IsValid u now c.tables v)
Committed-IsValid u now c (err e, c') v h = subst IsValid (sym h.0) v

-- `Apply` keeps the constraints of the schema, whether it succeeds or fails.
pub apply-IsValid :
    (u : Update) (now : ℤ) (c : Conn) → IsValid c.tables → IsValid (apply u now c).1.tables
apply-IsValid u now c v =
    Committed-IsValid u now c (apply u now c) v (apply_all_or_nothing u now c v.ids)
