-- ===== src/Rpc/Amounts.antt =====
-- internal/rpc/calls.go: amounts cross from JSON's floating-point BTC to satoshi.
use btcpay_gate.Base.{ℤ}

-- The float64 of the machine and Go's package math, which are no part of the repository.
pub record Float64 : Type 1 where
  pub Value : Type 0
  pub mul : Value → Value → Value
  -- The literal 1e8.
  pub e8 : Value
  -- `math.Round`, and the conversion to int64.
  pub round : Value → Value
  pub to_int64 : Value → ℤ

-- `btcToSat`.
unfoldable pub btc_to_sat : (f : Float64) → f.Value → ℤ
btc_to_sat f btc = f.to_int64 (f.round (f.mul btc f.e8))
