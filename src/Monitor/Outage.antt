-- ===== src/Monitor/Outage.antt =====
-- An outage costs latency and nothing else: internal/monitor/monitor.go, failed polls and the next.
use btcpay_gate.Base.{◌≡◌, refl, sym, subst, ◌∙◌, List, [], ◌∷◌}
use btcpay_gate.Errors.{Error, Result, ok, err}
use btcpay_gate.Rpc.Amounts.{Float64}
use btcpay_gate.Rpc.SinceBlock.{SinceBlock}
use btcpay_gate.Payments.Store.Tables.{Tables}
use btcpay_gate.Payments.Store.Sql.{Conn}
use btcpay_gate.Payments.Store.Ops.{or_empty}
use btcpay_gate.Payments.Store.Spec.{settled}
use btcpay_gate.Payments.Store.Loop.{UniqueIds}
use btcpay_gate.Monitor.{Monitor, poll, poll_and_report}
use btcpay_gate.Monitor.Mapping.{update_of}
use btcpay_gate.Monitor.Poll.{Polled, poll_all_or_nothing}
use btcpay_gate.Monitor.Run.{Look, logged, ticking}

module _ (f : Float64) {S : Type 0} (m : Monitor S) where
  -- Each of the polls fails, for whatever reason.
  abbrev pub AllFail : List (Look f) → Conn → Type 0
  AllFail [] c = Unit
  AllFail (l ∷ ls) c =
      ((e : Error) × ((poll f l.answer m.window l.now c).0 ≡ err e))
      × AllFail ls (poll f l.answer m.window l.now c).1

  failed-tables :
      (l : Look f) (c : Conn) (r : Result (Unit {0}) × Conn) (e : Error)
      → Polled f l.answer m.window l.now c r
      → r.0 ≡ err e
      → r.1.tables ≡ c.tables
  failed-tables l c (ok a, c') e p h = cc
  failed-tables l c (err x, c') e p h = p.0

  ticking-tables :
      (ls : List (Look f)) (c : Conn) (h : S)
      → UniqueIds c.tables.invoices
      → AllFail ls c
      → (ticking f m ls (c, h)).0.tables ≡ c.tables
  unfolding poll_and_report
  ticking-tables [] c h unique fail = refl
  ticking-tables (l ∷ ls) c h unique fail =
      let same =
        failed-tables l c (poll f l.answer m.window l.now c) fail.0.0
          (poll_all_or_nothing f l.answer m.window l.now c unique) fail.0.1 in
      ticking-tables ls (poll f l.answer m.window l.now c).1 _
        (subst (λ t. UniqueIds t.invoices) (sym same) unique) fail.1
      ∙ same

  succeeded-tables :
      (l : Look f) (c : Conn) (t : Tables) (r : Result (Unit {0}) × Conn)
      → c.tables ≡ t
      → Polled f l.answer m.window l.now c r
      → r.0 ≡ ok tt
      → (since : SinceBlock f) × (l.answer (or_empty t.cursor) m.window ≡ ok since)
        × (r.1.tables ≡ settled (update_of f t since) l.now t)
  succeeded-tables l c t (ok a, c') same p h =
      subst
        (λ u.
          (since : SinceBlock f) × (l.answer (or_empty u.cursor) m.window ≡ ok since)
          × (c'.tables ≡ settled (update_of f u since) l.now u))
        same p
  succeeded-tables l c t (err x, c') same p h = cc

  -- Over unique ids, after any number of failed polls, the first one that succeeds leaves the
  -- tables as one poll at its time would have left them without the failures: it was answered for
  -- the cursor from before the outage, and that answer is settled into the tables from before.
  pub outage_costs_nothing :
      (ls : List (Look f)) (l : Look f) (c : Conn) (h : S)
      → UniqueIds c.tables.invoices
      → AllFail ls c
      → (poll f l.answer m.window l.now (ticking f m ls (c, h)).0).0 ≡ ok tt
      → (since : SinceBlock f) × (l.answer (or_empty c.tables.cursor) m.window ≡ ok since)
        × ((logged f m l (ticking f m ls (c, h))).0.tables
            ≡ settled (update_of f c.tables since) l.now c.tables)
  unfolding poll_and_report
  outage_costs_nothing ls l c h unique fail good =
      let y = (ticking f m ls (c, h)).0 in
      let same = ticking-tables ls c h unique fail in
      succeeded-tables l y c.tables (poll f l.answer m.window l.now y) same
        (poll_all_or_nothing f l.answer m.window l.now y
          (subst (λ t. UniqueIds t.invoices) (sym same) unique))
        good
