-- ===== src/Payments/Store/Runs.antt =====
-- An action carries out a function of the tables, unless the engine fails one of its statements.
use btcpay_gate.Base.{◌≡◌, refl, subst, List, [], ◌∷◌, Option, none, some, String}
use btcpay_gate.Errors.{Error, Result, ok, err}
use btcpay_gate.Payments.Store.Tables.{Tables}
use btcpay_gate.Payments.Store.Sql.{
  Conn, Sql, pure, ◌>>=◌, query, exec, attempt, rolled_back, transaction,
}

-- The engine is to fail some statement.
abbrev pub IsFaulty : List (Option String) → Type 0
IsFaulty [] = ⊥
IsFaulty (none ∷ fs) = IsFaulty fs
IsFaulty (some e ∷ fs) = Unit

-- How an action that began with the faults `fs` ended: with the answer and the tables `e`, or
-- with an error that a fault accounts for.
abbrev pub Ended : {A : Type 0} → List (Option String) → Result A × Conn → A × Tables → Type 0
Ended fs (ok a, c) (b, t) = (a ≡ b) × (c.tables ≡ t) × (IsFaulty c.faults → IsFaulty fs)
Ended fs (err e, c) _ = IsFaulty fs

pub record Runs {A : Type 0} (m : Sql A) (f : Tables → A × Tables) : Type 0 where
  pub at : (c : Conn) → Ended c.faults (m c) (f c.tables)

-- Running one after the other.
abbrev pub then_run :
    {A B : Type 0} → (Tables → A × Tables) → (A → Tables → B × Tables) → Tables → B × Tables
then_run f g t = let (a, t') = f t in g a t'

module _ {A : Type 0} where
  pub Runs-pure : (a : A) → Runs (pure a) (λ t. (a, t))
  Runs-pure a = record { at = λ c. (refl, refl, λ h. h) }

  pub Runs-query : (f : Tables → A) → Runs (query f) (λ t. (f t, t))
  unfolding query
  Runs-query f = record { at = λ c. from c.faults c.tables }
    where
      from :
          (fs : List (Option String)) (t : Tables)
          → Ended fs (query f (record { tables = t; faults = fs })) (f t, t)
      from [] t = (refl, refl, λ h. h)
      from (none ∷ fs) t = (refl, refl, λ h. h)
      from (some e ∷ fs) t = tt

pub Runs-exec : (f : Tables → Tables) → Runs (exec f) (λ t. (tt, f t))
unfolding exec
Runs-exec f = record { at = λ c. from c.faults c.tables }
  where
    from :
        (fs : List (Option String)) (t : Tables)
        → Ended fs (exec f (record { tables = t; faults = fs })) (tt, f t)
    from [] t = (refl, refl, λ h. h)
    from (none ∷ fs) t = (refl, refl, λ h. h)
    from (some e ∷ fs) t = tt

Ended-weaken :
    {A : Type 0} (fs gs : List (Option String)) (r : Result A × Conn) (e : A × Tables)
    → (IsFaulty gs → IsFaulty fs)
    → Ended gs r e
    → Ended fs r e
Ended-weaken fs gs (ok a, c) e w h = (h.0, h.1, λ x. w (h.2 x))
Ended-weaken fs gs (err x, c) e w h = w h

module _ {A B : Type 0} where
  Ended-bind :
      (fs : List (Option String)) (r : Result A) (c : Conn) (e : A × Tables) (k : A → Sql B)
      (g : A → Tables → B × Tables)
      → Ended fs (r, c) e
      → ((a : A) → Runs (k a) (g a))
      → Ended fs (((λ (c' : Conn). (r, c')) >>= k) c) (g e.0 e.1)
  unfolding ◌>>=◌
  Ended-bind fs (err x) c e k g h ks = h
  Ended-bind fs (ok a) c e k g h ks =
      subst (λ (d : A × Tables). Ended fs (k a c) (g d.0 d.1)) {x = (a, c.tables)} {y = e}
        (λ i. (h.0 i, h.1 i)) (Ended-weaken fs c.faults (k a c) (g a c.tables) h.2 ((ks a).at c))

  pub Runs-bind :
      (m : Sql A) (k : A → Sql B) (f : Tables → A × Tables) (g : A → Tables → B × Tables)
      → Runs m f
      → ((a : A) → Runs (k a) (g a))
      → Runs (m >>= k) (then_run f g)
  unfolding ◌>>=◌
  Runs-bind m k f g h ks = record {
    at = λ c. Ended-bind c.faults (m c).0 (m c).1 (f c.tables) k g (h.at c) ks;
  }

-- `Commit` and `BeginTx` change no table themselves.
Runs-attempt : {A : Type 0} (m : Sql A) (f : Tables → A × Tables) → Runs m f → Runs (attempt m) f
Runs-attempt {A} m f h =
    unfold attempt in
    Runs-bind _ _ _ _ (Runs-query (λ t. tt {0})) (λ _.
      Runs-bind _ _ _ _ h (λ a. Runs-bind _ _ _ _ (Runs-query (λ t. tt {0})) (λ _. Runs-pure a)))

Ended-rolled_back :
    {A : Type 0} (fs : List (Option String)) (t : Tables) (r : Result A × Conn) (e : A × Tables)
    → Ended fs r e
    → Ended fs (rolled_back t r) e
Ended-rolled_back fs t (ok a, c) e h = h
Ended-rolled_back fs t (err x, c) e h = h

pub Runs-transaction :
    {A : Type 0} (m : Sql A) (f : Tables → A × Tables) → Runs m f → Runs (transaction m) f
Runs-transaction m f h = record {
  at = λ c.
      unfold transaction in
      Ended-rolled_back c.faults c.tables (attempt m c) (f c.tables) ((Runs-attempt m f h).at c);
}

rolled_back-err :
    {A : Type 0} (t : Tables) (r : Result A × Conn) (e : Error)
    → (rolled_back t r).0 ≡ err e
    → (rolled_back t r).1.tables ≡ t
rolled_back-err t (ok a, c) e h = cc
rolled_back-err t (err x, c) e h = refl

-- A transaction that fails leaves the tables as they were.
pub transaction-rollback :
    {A : Type 0} (m : Sql A) (c : Conn) (e : Error)
    → (transaction m c).0 ≡ err e
    → (transaction m c).1.tables ≡ c.tables
transaction-rollback m c e h = unfold transaction in rolled_back-err c.tables (attempt m c) e h
