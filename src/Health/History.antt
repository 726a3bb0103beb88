-- ===== src/Health/History.antt =====
-- The report against the history of polls: `paygate` is healthy exactly when its latest evidence
-- is a poll that succeeded, not too long ago.
use btcpay_gate.Base.{
  ℤ, ◌≤ℤ◌, ◌≡◌, refl, ◌≢◌, ◌↔◌, sym, ◌∙◌, true, false, List, [], ◌∷◌, All, arith, eqb_ℤ_iff,
}
use btcpay_gate.Time.{sub_time, zero_time}
use btcpay_gate.Errors.{Error}
use btcpay_gate.Rpc.Codes.{is_wallet_not_loaded}
use btcpay_gate.Health.{State, new, poll_succeeded, poll_failed, report}

-- One poll, as it is reported to the health state.
pub data Outcome : Type 0 where
  succeeded : ℤ → Outcome
  failed : Error → Outcome

abbrev pub observe : Outcome → State → State
observe (succeeded t) s = poll_succeeded t s
observe (failed e) s = poll_failed e s

-- The state after the polls of a history, the latest first.
abbrev pub after : ℤ → List Outcome → State
after max_age [] = new max_age
after max_age (o ∷ earlier) = observe o (after max_age earlier)

-- A failure that says nothing about the wallet.
abbrev pub IsNoise : Outcome → Type 0
IsNoise (succeeded t) = ⊥
IsNoise (failed e) = is_wallet_not_loaded e ≡ false

-- The clock never shows the zero time.
abbrev pub IsReal : Outcome → Type 0
IsReal (succeeded t) = t ≢ zero_time
IsReal (failed e) = Unit

-- The latest evidence: a success at `t`, after which nothing but noise came.
abbrev pub LastGood : ℤ → List Outcome → Type 0
LastGood t [] = ⊥
LastGood t (succeeded u ∷ earlier) = t ≡ u
LastGood t (failed e ∷ earlier) = (is_wallet_not_loaded e ≡ false) × LastGood t earlier

after-LastGood :
    (m : ℤ) (h : List Outcome)
    → All IsReal h
    → (after m h).wallet_loaded ≡ true
    → (after m h).last_success ≢ zero_time
    → LastGood (after m h).last_success h
unfolding new poll_succeeded poll_failed
after-LastGood m [] real loaded good = good refl
after-LastGood m (succeeded t ∷ h) real loaded good = refl
after-LastGood m (failed e ∷ h) real loaded good = ground (arith, after-LastGood m h real.1)

LastGood-after :
    (m t : ℤ) (h : List Outcome)
    → All IsReal h
    → LastGood t h
    → ((after m h).wallet_loaded ≡ true) × ((after m h).last_success ≡ t) × (t ≢ zero_time)
unfolding new poll_succeeded poll_failed
LastGood-after m t [] real good = absurd good
LastGood-after m t (succeeded u ∷ h) real good = ground arith
LastGood-after m t (failed e ∷ h) real good = ground (arith, LastGood-after m t h real.1)

max_age-after : (m : ℤ) (h : List Outcome) → (after m h).max_age ≡ (new m).max_age
unfolding poll_succeeded poll_failed
max_age-after m [] = refl
max_age-after m (succeeded t ∷ h) = max_age-after m h
max_age-after m (failed e ∷ h) = ground (arith, max_age-after m h)

pub report_ok :
    (now : ℤ) (s : State)
    → (report now s).is_ok ≡ true
    → (s.wallet_loaded ≡ true)
      × (s.last_success ≢ zero_time)
      × (sub_time now s.last_success ≤ℤ s.max_age)
unfolding report
report_ok now s h = ground (arith, eqb_ℤ_iff s.last_success zero_time)

pub ok_report :
    (now : ℤ) (s : State)
    → s.wallet_loaded ≡ true
    → s.last_success ≢ zero_time
    → sub_time now s.last_success ≤ℤ s.max_age
    → (report now s).is_ok ≡ true
unfolding report
ok_report now s l z a = ground (arith, eqb_ℤ_iff s.last_success zero_time)

-- After any history of polls at real times, the report is OK exactly when some poll succeeded,
-- every later one failed without the code -18, and that success is no older than the limit.
pub healthy_iff :
    (m now : ℤ) (h : List Outcome)
    → All IsReal h
    → ((report now (after m h)).is_ok ≡ true)
      ↔ ((t : ℤ) × LastGood t h × (sub_time now t ≤ℤ (new m).max_age))
healthy_iff m now h real = (
  λ ok.
      (let r = report_ok now (after m h) ok in
        ((after m h).last_success, after-LastGood m h real r.0 r.1, rw (← max_age-after m h) r.2)),
  λ good.
      (let g = LastGood-after m good.0 h real good.1 in
        ok_report now (after m h) g.0 (λ e. g.2 (sym g.1 ∙ e))
          (rw (g.1, max_age-after m h) good.2)),
)
