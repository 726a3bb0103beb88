-- ===== src/Api/Pages.antt =====
-- internal/api/api.go: what the handlers write, and which requests come to them; the reasons of
-- internal/health/health.go as text.
use btcpay_gate.Base.{
  ◌*◌, ◌/◌, suc, ℤ, pos, negsuc, ◌-ℤ◌, ◌≤ℤ◌, ◌≡◌, sym, ◌∙◌, ◌↔◌, ◌≢◌, true, Option, none, some,
  List, [], ◌∷◌, String, arith, if◌then◌else◌,
}
use Prim.Native.String.{◌++◌ as str_append}
use btcpay_gate.Base.Decimal.{format_int}
use btcpay_gate.Time.{second, sub_time, zero_time}
use btcpay_gate.Health.{Reason, fine, no_wallet, never_polled, stale, Report, State, report}
use btcpay_gate.Health.History.{report_ok, ok_report}
use btcpay_gate.Api.{metrics}

-- `Truncate(time.Second)`: toward zero.
abbrev pub whole_seconds : ℤ → ℤ
whole_seconds (pos n) = pos (n / second * second)
whole_seconds (negsuc n) = pos 0 -ℤ pos (suc n / second * second)

-- The reasons of `State.Report`; the text of a duration is the library's.
abbrev pub reason_text : (ℤ → String) → Reason → String
reason_text duration fine = ""
reason_text duration no_wallet = "bitcoind has no wallet loaded for this gateway"
reason_text duration never_polled = "no chain poll has succeeded yet"
reason_text duration (stale age limit) = str_append "last successful chain poll was " (
    str_append (duration (whole_seconds age))
      (str_append " ago, over the " (str_append (duration limit) " limit")))

-- The status and the body that `healthz` writes, over `report`; `http.Error` ends the line.
abbrev pub health_page : (ℤ → String) → Option Report → ℤ × String
health_page duration none = (pos 503, "health state not wired into the HTTP layer\n")
health_page duration (some r) =
    if r.is_ok
    then (pos 200, "ok\n")
    else (pos 503, str_append (reason_text duration r.reason) "\n")

-- `newID`, of the random bytes in hexadecimal.
abbrev pub new_id : (String → String) → String → String
new_id lower hex = str_append "inv_" (lower hex)

pub data Endpoint : Type 0 where
  creates_invoice gets_invoice reports_health exposes_metrics : Endpoint

-- `Routes` and `MetricsRoutes`.
abbrev pub api_routes : List (String × Endpoint)
api_routes =
    ("POST /invoices", creates_invoice)
    ∷ ("GET /invoices/{id}", gets_invoice)
    ∷ ("GET /healthz", reports_health)
    ∷ ("GET /metrics", exposes_metrics)
    ∷ []

abbrev pub metrics_routes : List (String × Endpoint)
metrics_routes = ("GET /metrics", exposes_metrics) ∷ []

-- The text that `metrics` writes of the two gauges.
abbrev pub metrics_page : Option Report → String
metrics_page r =
    let (loaded, last_poll) = metrics r in
    str_append
      "# HELP paygate_wallet_loaded Whether bitcoind currently has this gateway's wallet loaded.\n# TYPE paygate_wallet_loaded gauge\npaygate_wallet_loaded "
      (str_append (format_int loaded) (
        str_append
          "\n# HELP paygate_last_poll_timestamp_seconds Unix time of the last chain poll that succeeded, 0 if none has.\n# TYPE paygate_last_poll_timestamp_seconds gauge\npaygate_last_poll_timestamp_seconds "
          (str_append (format_int last_poll) "\n")))

page_ok_iff :
    (duration : ℤ → String) (r : Report)
    → ((health_page duration (some r)).0 ≡ pos 200) ↔ (r.is_ok ≡ true)
page_ok_iff duration r = ground arith

gauge_iff : (r : Report) → ((metrics (some r)).0 ≡ pos 1) ↔ (r.wallet_loaded ≡ true)
unfolding metrics
gauge_iff r = ground arith

report_wallet : (now : ℤ) (s : State) → (report now s).wallet_loaded ≡ s.wallet_loaded
unfolding report
report_wallet now s = ground arith

-- The healthcheck and the gauges agree: /healthz answers 200 exactly when the gauge of the wallet
-- shows 1, some poll succeeded, and the last one that did is no older than the limit.
pub health_page_iff :
    (duration : ℤ → String) (now : ℤ) (s : State)
    → ((health_page duration (some (report now s))).0 ≡ pos 200) ↔ (
        ((metrics (some (report now s))).0 ≡ pos 1)
        × (s.last_success ≢ zero_time)
        × (sub_time now s.last_success ≤ℤ s.max_age))
health_page_iff duration now s =
    let p = page_ok_iff duration (report now s) in
    let g = gauge_iff (report now s) in
    let w = report_wallet now s in
    (
      λ h. (let k = report_ok now s (p.0 h) in (g.1 (w ∙ k.0), k.1, k.2)),
      λ h. p.1 (ok_report now s (sym w ∙ g.0 h.0) h.1 h.2),
    )
