-- ===== src/Payments/Store/Reads.antt =====
-- Actions that only read: whatever the engine does, no table changes.
use btcpay_gate.Base.{◌≡◌, refl, ◌∙◌, List, [], ◌∷◌, Option, none, some, String}
use btcpay_gate.Errors.{Result, ok, err}
use btcpay_gate.Payments.Store.Tables.{Tables}
use btcpay_gate.Payments.Store.Sql.{Conn, Sql, pure, ◌>>=◌, query}

pub record Reads {A : Type 0} (m : Sql A) : Type 0 where
  pub at : (c : Conn) → (m c).1.tables ≡ c.tables

pub Reads-pure : {A : Type 0} (a : A) → Reads (pure a)
Reads-pure a = record { at = λ c. refl }

pub Reads-query : {A : Type 0} (f : Tables → A) → Reads (query f)
unfolding query
Reads-query f = record { at = λ c. from c.faults c.tables }
  where
    from :
        (fs : List (Option String)) (t : Tables)
        → (query f (record { tables = t; faults = fs })).1.tables ≡ t
    from [] t = refl
    from (none ∷ fs) t = refl
    from (some e ∷ fs) t = refl

module _ {A B : Type 0} where
  Reads-continue :
      (r : Result A) (c : Conn) (k : A → Sql B)
      → ((a : A) → Reads (k a))
      → (((λ (c' : Conn). (r, c')) >>= k) c).1.tables ≡ c.tables
  unfolding ◌>>=◌
  Reads-continue (ok a) c k h = (h a).at c
  Reads-continue (err e) c k h = refl

  pub Reads-bind : (m : Sql A) (k : A → Sql B) → Reads m → ((a : A) → Reads (k a)) → Reads (m >>= k)
  unfolding ◌>>=◌
  Reads-bind m k h hk = record { at = λ c. Reads-continue (m c).0 (m c).1 k hk ∙ h.at c }
