-- ===== src/Payments/Store/Sql.antt =====
-- The connection to the database. The engine, modernc.org/sqlite, is not part of the repository:
-- whether it fails a statement is an input, one entry for each statement it is given, and a
-- statement that it does not fail has the effect that its SQL says.
use btcpay_gate.Base.{List, [], ◌∷◌, Option, none, some, String}
use btcpay_gate.Errors.{Error, message, Result, ok, err}
use btcpay_gate.Payments.Store.Tables.{Tables}

-- What is stored, and how the engine meets the statements to come; past the end of `faults`
-- nothing fails.
pub record Conn : Type 0 where
  pub tables : Tables
  pub faults : List (Option String)

abbrev pub Sql : Type 0 → Type 0
Sql A = Conn → Result A × Conn

abbrev pub pure : {A : Type 0} → A → Sql A
pure a c = (ok a, c)

abbrev pub fail : {A : Type 0} → Error → Sql A
fail e c = (err e, c)

abbrev continue : {A B : Type 0} → Result A → (A → Sql B) → Sql B
continue (ok a) f c = f a c
continue (err e) f c = (err e, c)

infixl 5 ◌>>=◌ ◌>>◌
unfoldable pub ◌>>=◌ : {A B : Type 0} → Sql A → (A → Sql B) → Sql B
◌>>=◌ m f c = let (r, c') = m c in continue r f c'

abbrev pub ◌>>◌ : {A B : Type 0} → Sql A → Sql B → Sql B
m >> k = m >>= λ _. k

abbrev pub answer : {A : Type 0} → Result (A × Tables) → Conn → Result A × Conn
answer (ok (a, t)) c = (ok a, record c { tables = t })
answer (err e) c = (err e, c)

abbrev pub meet :
    {A : Type 0} → List (Option String) → (Tables → Result (A × Tables)) → Tables → Result A × Conn
meet [] f t = answer (f t) (record { tables = t; faults = [] })
meet (none ∷ fs) f t = answer (f t) (record { tables = t; faults = fs })
meet (some e ∷ fs) f t = (err (message e), record { tables = t; faults = fs })

-- One statement: the engine fails it and nothing changes, or it is carried out.
unfoldable pub statement : {A : Type 0} → (Tables → Result (A × Tables)) → Sql A
statement f c = meet c.faults f c.tables

-- A query reads, and an update changes the tables with no answer.
unfoldable pub query : {A : Type 0} → (Tables → A) → Sql A
unfolding statement
query f = statement (λ t. ok (f t, t))

unfoldable pub exec : (Tables → Tables) → Sql (Unit {0})
unfolding statement
exec f = statement (λ t. ok (tt, f t))

-- `BeginTx`, the body, and `Commit`, each of which the engine may fail.
unfoldable pub attempt : {A : Type 0} → Sql A → Sql A
attempt body = do query (λ t. tt); a ← body; query (λ t. tt); pure a

-- `defer tx.Rollback()`: what the transaction wrote is dropped unless it was committed.
abbrev pub rolled_back : {A : Type 0} → Tables → Result A × Conn → Result A × Conn
rolled_back t (ok a, c) = (ok a, c)
rolled_back t (err e, c) = (err e, record c { tables = t })

unfoldable pub transaction : {A : Type 0} → Sql A → Sql A
transaction body c = rolled_back c.tables (attempt body c)
