-- ===== src/Monitor/Poll.antt =====
-- How a poll ends: with the chain's answer settled into the tables, or with nothing changed.
use btcpay_gate.Base.{
  ℤ, ◌≡◌, refl, ap, ◌∙◌, sym, subst, ◌⊎◌, inl, inr, List, ◌++◌, String, true, false,
}
use btcpay_gate.Errors.{Error, Result, ok, err}
use btcpay_gate.Rpc.Amounts.{Float64}
use btcpay_gate.Rpc.SinceBlock.{SinceBlock}
use btcpay_gate.Payments.Store.Tables.{Tables}
use btcpay_gate.Payments.Store.Sql.{Conn, Sql, pure, ◌>>=◌, ◌>>◌}
use btcpay_gate.Payments.Store.Runs.{IsFaulty, Runs, Ended, Runs-query}
use btcpay_gate.Payments.Store.Reads.{Reads, Reads-query}
use btcpay_gate.Payments.Store.Ops.{
  ObservationUpdate, Update, StatusChange, cursor, or_empty, apply,
}
use btcpay_gate.Payments.Store.Spec.{settled}
use btcpay_gate.Payments.Store.Loop.{UniqueIds}
use btcpay_gate.Payments.Store.Apply.{Committed, apply_all_or_nothing}
use btcpay_gate.Payments.Store.Invariant.{IsValid, settled-IsValid}
use btcpay_gate.Monitor.{lift, observations, poll}
use btcpay_gate.Monitor.Mapping.{batch, update_of, observations-Runs, observations-Reads}

-- A read that comes first: it fails and changes nothing, or hands its answer on.
read_first :
    {A B : Type 0} (m : Sql A) (g : Tables → A) (k : A → Sql B) (c : Conn)
    (P : Result B × Conn → Type 0)
    → Runs m (λ t. (g t, t))
    → Reads m
    → ((e : Error) (c' : Conn) → c'.tables ≡ c.tables → IsFaulty c.faults → P (err e, c'))
    → ((c' : Conn)
        → c'.tables ≡ c.tables
        → (IsFaulty c'.faults → IsFaulty c.faults)
        → P (k (g c.tables) c'))
    → P ((m >>= k) c)
unfolding ◌>>=◌
read_first {A} {B} m g k c P runs reads bad good = from (m c) (runs.at c) (reads.at c)
  where
    from :
        (r : Result A × Conn)
        → Ended c.faults r (g c.tables, c.tables)
        → r.1.tables ≡ c.tables
        → P (((λ (c' : Conn). r) >>= k) c)
    from (ok a, c') h same = subst (λ x. P (k x c')) (sym h.0) (good c' same h.2)
    from (err e, c') h same = bad e c' same h

module _ (f : Float64) where
  -- How a poll may end.
  abbrev pub Polled :
      (String → ℤ → Result (SinceBlock f)) → ℤ → ℤ → Conn → Result (Unit {0}) × Conn → Type 0
  Polled node window now c (ok a, c') =
      (since : SinceBlock f) × (node (or_empty c.tables.cursor) window ≡ ok since)
      × (c'.tables ≡ settled (update_of f c.tables since) now c.tables)
  Polled node window now c (err e, c') =
      (c'.tables ≡ c.tables)
      × (IsFaulty c.faults ⊎ (node (or_empty c.tables.cursor) window ≡ err e))

  module _ (node : String → ℤ → Result (SinceBlock f)) (window now : ℤ) (c : Conn) where
    Committed-Polled :
        (since : SinceBlock f) (u : Update) (c' : Conn) (m : Sql (List StatusChange))
        → node (or_empty c.tables.cursor) window ≡ ok since
        → u ≡ update_of f c.tables since
        → c'.tables ≡ c.tables
        → (IsFaulty c'.faults → IsFaulty c.faults)
        → Committed u now c' (m c')
        → Polled node window now c ((m >> pure tt) c')
    unfolding ◌>>=◌
    Committed-Polled since u c' m answer same tables w = from (m c')
      where
        from :
            (r : Result (List StatusChange) × Conn)
            → Committed u now c' r
            → Polled node window now c (((λ (x : Conn). r) >> pure tt) c')
        from (ok changes, c₂) h = (
          since,
          answer,
          h.1 ∙ ap (λ t. settled u now t) tables ∙ ap (λ v. settled v now c.tables) same,
        )
        from (err e, c₂) h = (h.0 ∙ tables, inl (w h.1))

    read_gone :
        (since : SinceBlock f) (seen : List ObservationUpdate) (c' : Conn)
        → node (or_empty c.tables.cursor) window ≡ ok since
        → seen ≡ batch f c.tables since.transactions false
        → UniqueIds c.tables.invoices
        → c'.tables ≡ c.tables
        → (IsFaulty c'.faults → IsFaulty c.faults)
        → Polled node window now c (
            (observations f since.removed true >>= λ gone.
            apply (record { observations = seen ++ gone; cursor = since.last_block }) now
            >> pure tt)
              c')
    read_gone since seen c' answer first unique same w =
        read_first (observations f since.removed true) (λ t. batch f t since.removed true) _ c'
          (Polled node window now c) (observations-Runs f since.removed true)
          (observations-Reads f since.removed true)
          (λ e c₂ still fault. (still ∙ same, inl (w fault)))
          (λ c₂ still v.
            Committed-Polled since _ c₂ (apply _ now) answer
              (λ i. record {
                observations = first i ++ batch f (same i) since.removed true;
                cursor = since.last_block;
              })
              (still ∙ same) (λ h. w (v h))
              (apply_all_or_nothing _ now c₂
                (subst (λ t. UniqueIds t.invoices) (sym (still ∙ same)) unique)))

    read_answer :
        (r : Result (SinceBlock f)) (c' : Conn)
        → node (or_empty c.tables.cursor) window ≡ r
        → UniqueIds c.tables.invoices
        → c'.tables ≡ c.tables
        → (IsFaulty c'.faults → IsFaulty c.faults)
        → Polled node window now c (
            (lift r >>= λ since. observations f since.transactions false >>= λ seen.
            observations f since.removed true >>= λ gone.
            apply (record { observations = seen ++ gone; cursor = since.last_block }) now
            >> pure tt)
              c')
    unfolding observations ◌>>=◌
    read_answer (err e) c' answer unique same w = (same, inr answer)
    read_answer (ok since) c' answer unique same w =
        read_first (observations f since.transactions false)
          (λ t. batch f t since.transactions false) _ c' (Polled node window now c)
          (observations-Runs f since.transactions false)
          (observations-Reads f since.transactions false)
          (λ e c₂ still fault. (still ∙ same, inl (w fault)))
          (λ c₂ still v.
            read_gone since _ c₂ answer (ap (λ t. batch f t since.transactions false) same) unique
              (still ∙ same) (λ h. w (v h)))

  Polled-IsValid :
      (node : String → ℤ → Result (SinceBlock f)) (window now : ℤ) (c : Conn)
      (r : Result (Unit {0}) × Conn)
      → IsValid c.tables
      → Polled node window now c r
      → IsValid r.1.tables
  Polled-IsValid node window now c (ok a, c') v h =
      subst IsValid (sym h.2) (settled-IsValid (update_of f c.tables h.0) now c.tables v)
  Polled-IsValid node window now c (err e, c') v h = subst IsValid (sym h.0) v

  -- Over invoices with unique ids, a poll either succeeds, and then the node answered for the
  -- stored cursor and the tables are the stored ones with the batch that this answer maps to
  -- settled into them, or it fails, and then every table is as it was, the cursor with them,
  -- and a statement was to fail or the node answered with that error.
  pub poll_all_or_nothing :
      (node : String → ℤ → Result (SinceBlock f)) (window now : ℤ) (c : Conn)
      → UniqueIds c.tables.invoices
      → Polled node window now c (poll f node window now c)
  poll_all_or_nothing node window now c unique =
      unfold poll cursor in
      read_first (unfold cursor in cursor) (λ t. or_empty t.cursor) _ c (Polled node window now c)
        (Runs-query _) (Reads-query _) (λ e c' same fault. (same, inl fault))
        (λ c' same w. read_answer node window now c _ c' refl unique same w)

  -- A poll keeps the constraints of the schema, whether it succeeds or fails.
  pub poll-IsValid :
      (node : String → ℤ → Result (SinceBlock f)) (window now : ℤ) (c : Conn)
      → IsValid c.tables
      → IsValid (poll f node window now c).1.tables
  poll-IsValid node window now c v =
      Polled-IsValid node window now c (poll f node window now c) v
        (poll_all_or_nothing node window now c v.ids)
