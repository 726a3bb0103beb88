-- ===== src/Health.antt =====
-- internal/health/health.go: what the poll loop has experienced, and the verdict on it.
pub mod History
use btcpay_gate.Base.{ℕ, ◌*◌, ℤ, pos, leb_ℤ, ltb_ℤ, Bool, true, false, not, if◌then◌else◌}
use btcpay_gate.Time.{second, sub_time, zero_time, is_zero}
use btcpay_gate.Errors.{Error}
use btcpay_gate.Rpc.Codes.{is_wallet_not_loaded}

-- `DefaultMaxPollAge`: five minutes.
abbrev pub default_max_poll_age : ℤ
default_max_poll_age = pos (300 * second)

-- The four reasons of `Report`, and none. The stale one carries the age, cut to whole seconds by
-- the text only, and the limit.
pub data Reason : Type 0 where
  fine no_wallet never_polled : Reason
  stale : ℤ → ℤ → Reason

pub record Report : Type 0 where
  pub is_ok : Bool
  pub reason : Reason
  pub wallet_loaded : Bool
  pub last_success : ℤ

pub record State : Type 0 where
  pub max_age : ℤ
  pub last_success : ℤ
  pub wallet_loaded : Bool

-- `New`.
unfoldable pub new : ℤ → State
new max_age = record {
  max_age = if leb_ℤ max_age (pos 0) then default_max_poll_age else max_age;
  last_success = zero_time;
  wallet_loaded = true;
}

-- `PollSucceeded`, at the time that the clock shows.
unfoldable pub poll_succeeded : ℤ → State → State
poll_succeeded now s = record s { last_success = now; wallet_loaded = true }

-- `PollFailed`: only -18 is evidence about the wallet.
unfoldable pub poll_failed : Error → State → State
poll_failed e s = if not (is_wallet_not_loaded e) then s else record s { wallet_loaded = false }

-- The report that the branches of `State.Report` fill in.
abbrev report_with : State → Bool → Reason → Report
report_with s good why = record {
  is_ok = good;
  reason = why;
  wallet_loaded = s.wallet_loaded;
  last_success = s.last_success;
}

-- `State.Report`.
unfoldable pub report : ℤ → State → Report
report now s =
    if not s.wallet_loaded
    then report_with s false no_wallet
    else if is_zero s.last_success
    then report_with s false never_polled
    else if ltb_ℤ s.max_age (sub_time now s.last_success)
    then report_with s false (stale (sub_time now s.last_success) s.max_age)
    else report_with s true fine
