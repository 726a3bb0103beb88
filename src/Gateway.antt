-- ===== src/Gateway.antt =====
-- The process of cmd/paygate: its goroutines meet in the database, one transaction or statement
-- at a time. `payments.Open` allows one connection, which `Apply` holds from its begin to its end.
pub mod Mirror
pub mod Sound
pub mod History
pub mod Paths
pub mod Runs
pub mod Lifecycle
pub mod Lawful
pub mod Told
pub mod Paid
pub mod Sale
pub mod Keys
pub mod Depth
pub mod Race
pub mod Indexed
pub mod World
pub mod Watching
pub mod Issued
pub mod Whole
mod Tests
use btcpay_gate.Base.{ℤ, ◌≡◌, List, Option, String, All, Any}
use btcpay_gate.Payments.State.{pending, Invoice}
use btcpay_gate.Payments.Store.Tables.{Tables, EventRow}
use btcpay_gate.Payments.Store.Sql.{Conn}
use btcpay_gate.Payments.Store.Ops.{ObservationUpdate, Update, create_invoice, apply}
use btcpay_gate.Webhook.{Host, Sender, deliver_one}

-- The database, and how the engine meets the statements to come.
abbrev pub meeting : Tables → List (Option String) → Conn
meeting t fs = record { tables = t; faults = fs }

-- Some invoice has this id.
abbrev pub IsKnown : Tables → String → Type 0
IsKnown t id = Any (λ r. r.id ≡ id) t.invoices

-- What the goroutines do to the database: an HTTP request stores a pending invoice, a poll
-- applies an update about invoices that are stored, and the sender records the outcome of one
-- post. Each may meet faults of the engine, and they come in any order.
pub data Step (t t' : Tables) : Type 0 where
  creates :
      (inv : Invoice) (fs : List (Option String))
      → inv.status ≡ pending
      → t' ≡ (create_invoice inv (meeting t fs)).1.tables
      → Step t t'
  applies :
      (u : Update) (now : ℤ) (fs : List (Option String))
      → All (λ o. IsKnown t o.invoice_id) u.observations
      → t' ≡ (apply u now (meeting t fs)).1.tables
      → Step t t'
  delivers :
      (h : Host) (s : Sender) (p : EventRow) (fs : List (Option String))
      → t' ≡ (deliver_one h s p (meeting t fs)).1.tables
      → Step t t'

pub data Reach (t : Tables) : Tables → Type 0 where
  here : Reach t t
  next : {u v : Tables} → Reach t u → Step u v → Reach t v
