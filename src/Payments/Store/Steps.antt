-- ===== src/Payments/Store/Steps.antt =====
-- What each part of `Apply` does to the tables when the engine carries its statements out.
use btcpay_gate.Base.{
  ℤ, Bool, true, false, Option, none, some, List, [], ◌∷◌, map, String, ◌==◌, if◌then◌else◌,
}
use btcpay_gate.Time.{unix}
use btcpay_gate.Errors.{Result, ok, err}
use btcpay_gate.Payments.State.{
  Status, Invoice, Observation, decide, eqb_status, paid, min_confirmations,
}
use btcpay_gate.Payments.Store.Tables.{Tables, open_rows, rows_of, set_status, upsert, insert_event}
use btcpay_gate.Payments.Store.Sql.{Conn, Sql, pure, exec}
use btcpay_gate.Payments.Store.Runs.{
  Runs, Ended, Runs-pure, Runs-query, Runs-exec, Runs-bind, Runs-transaction,
}
use btcpay_gate.Payments.Store.Ops.{
  ObservationUpdate, Update, StatusChange, scan_invoice, scan_observation, observation_row,
  upsert_all, or_context, add_change, record_change, recompute_one, recompute, save_cursor,
  open_invoices, observations_tx, apply,
}
use btcpay_gate.Payments.Store.Spec.{upserted, moved_cursor}

Ended-or_context :
    (context : String) (fs : List (Option String)) (r : Result (Unit {0}) × Conn)
    (e : Unit {0} × Tables)
    → Ended fs r e
    → Ended fs (or_context context r) e
Ended-or_context context fs (ok a, c) e h = h
Ended-or_context context fs (err x, c) e h = h

upsert_all-Runs :
    (us : List ObservationUpdate)
    → Runs (upsert_all us) (λ t. (tt, record t { observations = upserted us t.observations }))
unfolding upsert_all
upsert_all-Runs [] = Runs-pure tt
upsert_all-Runs (u ∷ us) =
    Runs-bind _ _ (λ t. (tt, record t { observations = upsert (observation_row u) t.observations }))
      _ (record { at = λ c. Ended-or_context _ c.faults _ _ ((Runs-exec _).at c) })
      (λ _. upsert_all-Runs us)

-- The recompute loop as a function of the tables.
abbrev pub recorded :
    ℤ → Invoice → List Observation → Status → Tables → Option StatusChange × Tables
recorded now inv obs next t = (
  some (record { invoice_id = inv.id; from_status = inv.status; to_status = next }),
  insert_event inv.id next (paid obs) (min_confirmations obs) (unix now)
      (record t { invoices = set_status next inv.id t.invoices }),
)

abbrev pub recomputed_one : ℤ → Invoice → Tables → Option StatusChange × Tables
recomputed_one now inv t =
    let obs = map scan_observation (rows_of inv.id t.observations) in
    let next = decide inv obs now in
    if eqb_status next inv.status then (none, t) else recorded now inv obs next t

abbrev pub recomputed : ℤ → List Invoice → Tables → List StatusChange × Tables
recomputed now [] t = ([], t)
recomputed now (inv ∷ invs) t =
    let (change, t') = recomputed_one now inv t in
    let (rest, t'') = recomputed now invs t' in (add_change change rest, t'')

Runs-if :
    {A : Type 0} (b : Bool) (m n : Sql A) (f g : Tables → A × Tables)
    → Runs m f
    → Runs n g
    → Runs (if b then m else n) (λ t. if b then f t else g t)
Runs-if true m n f g h k = h
Runs-if false m n f g h k = k

record_change-Runs :
    (now : ℤ) (inv : Invoice) (obs : List Observation) (next : Status)
    → Runs (record_change now inv obs next) (recorded now inv obs next)
unfolding record_change
record_change-Runs now inv obs next =
    Runs-bind _ _ _ _ (Runs-exec _) (λ _. Runs-bind _ _ _ _ (Runs-exec _) (λ _. Runs-pure _))

recompute_one-Runs :
    (now : ℤ) (inv : Invoice) → Runs (recompute_one now inv) (recomputed_one now inv)
unfolding recompute_one observations_tx
recompute_one-Runs now inv =
    Runs-bind _ _ _
      (λ obs t.
        if eqb_status (decide inv obs now) inv.status
        then (none, t)
        else recorded now inv obs (decide inv obs now) t)
      (Runs-query _)
      (λ obs.
        Runs-if (eqb_status (decide inv obs now) inv.status) _ _ (λ t. (none, t)) _ (Runs-pure none)
          (record_change-Runs now inv obs (decide inv obs now)))

recompute-Runs : (now : ℤ) (invs : List Invoice) → Runs (recompute now invs) (recomputed now invs)
unfolding recompute
recompute-Runs now [] = Runs-pure []
recompute-Runs now (inv ∷ invs) = Runs-bind _ _ _ _ (recompute_one-Runs now inv) (λ change.
    Runs-bind _ _ _ _ (recompute-Runs now invs) (λ rest. Runs-pure (add_change change rest)))

Runs-cursor_if :
    (b : Bool) (hash : String)
    → Runs
        (if b then pure tt else exec (λ t. record t { cursor = some hash }))
        (λ t. (tt, record t { cursor = if b then t.cursor else some hash }))
Runs-cursor_if true hash = Runs-pure tt
Runs-cursor_if false hash = Runs-exec _

save_cursor-Runs :
    (hash : String)
    → Runs (save_cursor hash) (λ t. (tt, record t { cursor = moved_cursor hash t.cursor }))
unfolding save_cursor
save_cursor-Runs hash = Runs-cursor_if (hash == "") hash

-- All of `Apply`, as a function of the tables.
abbrev pub applied : Update → ℤ → Tables → List StatusChange × Tables
applied u now t =
    let t₁ = record t { observations = upserted u.observations t.observations } in
    let (changes, t₂) = recomputed now (map scan_invoice (open_rows t₁.invoices)) t₁ in
    (changes, record t₂ { cursor = moved_cursor u.cursor t₂.cursor })

pub apply-Runs : (u : Update) (now : ℤ) → Runs (apply u now) (applied u now)
unfolding apply open_invoices
apply-Runs u now = Runs-transaction _ _ (
    Runs-bind _ _ _ _ (upsert_all-Runs u.observations) (λ _.
      Runs-bind _ _ _ _ (Runs-query _) (λ invs.
        Runs-bind _ _ _ _ (recompute-Runs now invs)
          (λ changes. Runs-bind _ _ _ _ (save_cursor-Runs u.cursor) (λ _. Runs-pure changes)))))
