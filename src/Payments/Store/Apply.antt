-- ===== src/Payments/Store/Apply.antt =====
-- `Apply` against its specification: all or nothing, and harmless to run again.
use btcpay_gate.Base.{ℤ, ◌≡◌, refl, ap, ◌∙◌, List}
use btcpay_gate.Errors.{Error, Result, ok, err}
use btcpay_gate.Payments.Store.Tables.{Tables}
use btcpay_gate.Payments.Store.Sql.{Conn}
use btcpay_gate.Payments.Store.Runs.{IsFaulty, Ended, transaction-rollback}
use btcpay_gate.Payments.Store.Ops.{Update, StatusChange, apply}
use btcpay_gate.Payments.Store.Spec.{settled, changes_of}
use btcpay_gate.Payments.Store.Steps.{applied, apply-Runs}
use btcpay_gate.Payments.Store.Loop.{UniqueIds, applied-settled}

-- How `Apply` may end: with everything recorded, or with nothing changed and a fault to blame.
abbrev pub Committed : Update → ℤ → Conn → Result (List StatusChange) × Conn → Type 0
Committed u now c (ok changes, c') =
    (changes ≡ changes_of u now c.tables) × (c'.tables ≡ settled u now c.tables)
Committed u now c (err e, c') = (c'.tables ≡ c.tables) × IsFaulty c.faults

Committed-of_Ended :
    (u : Update) (now : ℤ) (c : Conn) (r : Result (List StatusChange) × Conn)
    → UniqueIds c.tables.invoices
    → Ended c.faults r (applied u now c.tables)
    → ((e : Error) → r.0 ≡ err e → r.1.tables ≡ c.tables)
    → Committed u now c r
Committed-of_Ended u now c (ok changes, c') unique h back = (
  h.0 ∙ ap (λ (p : List StatusChange × Tables). p.0) (applied-settled u now c.tables unique),
  h.1 ∙ ap (λ (p : List StatusChange × Tables). p.1) (applied-settled u now c.tables unique),
)
Committed-of_Ended u now c (err e, c') unique h back = (back e refl, h)

-- Over invoices with unique ids, `Apply` either returns the changes of the specification and
-- leaves the tables that it describes, or returns an error, leaves every table as it was, and
-- the engine was to fail a statement.
pub apply_all_or_nothing :
    (u : Update) (now : ℤ) (c : Conn)
    → UniqueIds c.tables.invoices
    → Committed u now c (apply u now c)
apply_all_or_nothing u now c unique =
    Committed-of_Ended u now c (apply u now c) unique ((apply-Runs u now).at c)
      (λ e h. unfold apply in transaction-rollback _ c e h)
