-- ===== src/Monitor/Run.antt =====
-- internal/monitor/monitor.go with internal/health/health.go: `Run`, and what it makes of the report.
use btcpay_gate.Base.{ℤ, ◌≡◌, refl, ap, ◌∙◌, ◌≤ℤ◌, ◌≢◌, ◌↔◌, true, List, [], ◌∷◌, String, All}
use btcpay_gate.Time.{sub_time, zero_time}
use btcpay_gate.Errors.{Result, ok, err}
use btcpay_gate.Rpc.Amounts.{Float64}
use btcpay_gate.Rpc.SinceBlock.{SinceBlock}
use btcpay_gate.Payments.Store.Sql.{Conn}
use btcpay_gate.Health.{State, new, report}
use btcpay_gate.Health.History.{Outcome, succeeded, failed, after, IsReal, LastGood, healthy_iff}
use btcpay_gate.Monitor.{Monitor, health_reporter, poll, reporting, poll_and_report}

-- What one poll meets: the node's answers, the store's clock and the health state's.
pub record Look (f : Float64) : Type 0 where
  pub answer : String → ℤ → Result (SinceBlock f)
  pub now : ℤ
  pub clock : ℤ

module _ (f : Float64) {S : Type 0} (m : Monitor S) where
  -- A failed poll is only logged.
  abbrev pub logged : Look f → Conn × S → Conn × S
  logged l s = let (r, c, h) = poll_and_report f m l.answer l.now l.clock s in (c, h)

  abbrev pub ticking : List (Look f) → Conn × S → Conn × S
  ticking [] s = s
  ticking (l ∷ ls) s = ticking ls (logged l s)

  -- `Run`: a poll at once, and one at each tick until the context is done.
  abbrev pub monitor_run : Look f → List (Look f) → Conn × S → Conn × S
  monitor_run first ticks s = ticking ticks (logged first s)

-- A monitor that reports to the health state.
abbrev pub reported : ℤ → ℤ → Monitor State
reported interval window = record { interval = interval; window = window; health = health_reporter }

module _ (f : Float64) (window : ℤ) where
  abbrev pub outcome : ℤ → Result (Unit {0}) → Outcome
  outcome clock (ok a) = succeeded clock
  outcome clock (err e) = failed e

  -- The outcomes of the polls, the latest first, before those that came earlier.
  abbrev pub history : List (Look f) → Conn → List Outcome → List Outcome
  history [] c earlier = earlier
  history (l ∷ ls) c earlier =
      let (r, c') = poll f l.answer window l.now c in history ls c' (outcome l.clock r ∷ earlier)

  reporting-after :
      (m clock : ℤ) (earlier : List Outcome) (r : Result (Unit {0}))
      → reporting f health_reporter clock r (after m earlier) ≡ after m (outcome clock r ∷ earlier)
  reporting-after m clock earlier (ok a) = refl
  reporting-after m clock earlier (err e) = refl

  ticking-after :
      (interval m : ℤ) (ls : List (Look f)) (c : Conn) (earlier : List Outcome)
      → (ticking f (reported interval window) ls (c, after m earlier)).1
        ≡ after m (history ls c earlier)
  unfolding poll_and_report
  ticking-after interval m [] c earlier = refl
  ticking-after interval m (l ∷ ls) c earlier =
      let (r, c') = poll f l.answer window l.now c in
      ap (λ h. (ticking f (reported interval window) ls (c', h)).1)
        (reporting-after m l.clock earlier r)
      ∙ ticking-after interval m ls c' (outcome l.clock r ∷ earlier)

  history-IsReal :
      (ls : List (Look f)) (c : Conn) (earlier : List Outcome)
      → All (λ l. l.clock ≢ zero_time) ls
      → All IsReal earlier
      → All IsReal (history ls c earlier)
  history-IsReal [] c earlier h k = k
  history-IsReal (l ∷ ls) c earlier h k =
      let (r, c') = poll f l.answer window l.now c in
      history-IsReal ls c' (outcome l.clock r ∷ earlier) h.1 (real r, k)
    where
      real : (r : Result (Unit {0})) → IsReal (outcome l.clock r)
      real (ok a) = h.0
      real (err e) = tt

  -- From a new health state on, whatever the node answers and the engine fails: after `Run`'s first
  -- poll and any number of ticks, the report is OK exactly when one of these polls succeeded, each
  -- later one failed without the code -18, and that success is no older than the limit. The clock
  -- never shows the zero time.
  pub monitor_run_healthy_iff :
      (interval m later : ℤ) (first : Look f) (ticks : List (Look f)) (c : Conn)
      → All (λ l. l.clock ≢ zero_time) (first ∷ ticks)
      → ((report later (monitor_run f (reported interval window) first ticks (c, new m)).1).is_ok
          ≡ true)
        ↔ ((t : ℤ) × LastGood t (history (first ∷ ticks) c [])
            × (sub_time later t ≤ℤ (new m).max_age))
  monitor_run_healthy_iff interval m later first ticks c real =
      rw (ticking-after interval m (first ∷ ticks) c []) (
        healthy_iff m later (history (first ∷ ticks) c [])
          (history-IsReal (first ∷ ticks) c [] real tt))
