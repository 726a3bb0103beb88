-- ===== src/Monitor/Unwatched.antt =====
-- The ledger does not depend on anyone watching: internal/monitor/monitor.go, the reporter.
use btcpay_gate.Base.{◌≡◌, refl, List, [], ◌∷◌}
use btcpay_gate.Rpc.Amounts.{Float64}
use btcpay_gate.Payments.Store.Sql.{Conn}
use btcpay_gate.Monitor.{Monitor, poll, poll_and_report}
use btcpay_gate.Monitor.Run.{Look, ticking, monitor_run}

module _ (f : Float64) {S T : Type 0} (m : Monitor S) (k : Monitor T)
    (same : m.window ≡ k.window) where
  ticking-same :
      (ls : List (Look f)) (c d : Conn) (s : S) (t : T)
      → c ≡ d
      → (ticking f m ls (c, s)).0 ≡ (ticking f k ls (d, t)).0
  unfolding poll_and_report
  ticking-same [] c d s t h = h
  ticking-same (l ∷ ls) c d s t h =
      ticking-same ls (poll f l.answer m.window l.now c).1 (poll f l.answer k.window l.now d).1 _ _
        (λ i. (poll f l.answer (same i) l.now (h i)).1)

  -- Two monitors with one window leave the same database after the same polls, whatever their
  -- reporters do and whether they have one.
  pub monitor_run_unwatched :
      (first : Look f) (ticks : List (Look f)) (c : Conn) (s : S) (t : T)
      → (monitor_run f m first ticks (c, s)).0 ≡ (monitor_run f k first ticks (c, t)).0
  monitor_run_unwatched first ticks c s t = ticking-same (first ∷ ticks) c c s t refl
