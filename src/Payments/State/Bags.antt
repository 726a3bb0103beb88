-- ===== src/Payments/State/Bags.antt =====
-- What an invoice is told of its observations is a function of the multiset of them.
use mathlib.Core.HLevel.{Σ_prop_path}
use mathlib.Core.Equiv.{IsContr}
use mathlib.Core.List.{Perm}
use mathlib.Core.Quot
use mathlib.Core.Quot.{Quot}
use btcpay_gate.Base.{ℤ, ◌≡◌, refl, fun_ext, List}
use btcpay_gate.Payments.State.{Status, Invoice, Observation, decide, paid, min_confirmations}
use btcpay_gate.Payments.State.Order.{report_perm}

-- Observations in no order.
abbrev pub Bag : Type 0
Bag = Quot (λ (xs ys : List Observation). Perm xs ys)

-- The status, the sum and the count of an event.
abbrev pub Report : Type 0
Report = Status × ℤ × ℤ

abbrev pub report_of : Invoice → ℤ → List Observation → Report
report_of inv now obs = (decide inv obs now, paid obs, min_confirmations obs)

Report-set : IsSet Report
Report-set = hlevel

-- A function of bags that reports what the code reports of every list.
abbrev pub Factors : Invoice → ℤ → Type 0
Factors inv now =
    (g : Bag → Report) × ((obs : List Observation) → g (Quot.mk obs) ≡ report_of inv now obs)

module _ (inv : Invoice) (now : ℤ) where
  report_of-perm :
      (xs ys : List Observation) → Perm xs ys → report_of inv now xs ≡ report_of inv now ys
  report_of-perm xs ys p =
      let same = report_perm inv now xs ys p in λ i. (same.0 i, same.1 i, same.2 i)

  abbrev bag_report : Factors inv now
  bag_report = (Quot.lift Report-set (report_of inv now) report_of-perm, λ obs. refl)

  same_function : (h : Factors inv now) (b : Bag) → h.0 b ≡ bag_report.0 b
  same_function h = Quot.ind (λ b. Report-set _ _) h.1

  -- There is exactly one function of bags of observations that answers, for the observations in any
  -- order, the status that `Decide` answers, the sum that `Paid` reports and the count that
  -- `MinConfirmations` reports.
  pub report_factors : IsContr (Factors inv now)
  report_factors = (bag_report, λ h. Σ_prop_path (λ g. hlevel) (fun_ext (same_function h)))
