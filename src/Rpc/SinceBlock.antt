-- ===== src/Rpc/SinceBlock.antt =====
-- internal/rpc/calls.go: what listsinceblock answers.
use btcpay_gate.Base.{ℤ, Bool, List, String, ◌==◌}
use btcpay_gate.Rpc.Amounts.{Float64, btc_to_sat}

pub record Transaction (f : Float64) : Type 0 where
  pub address : String
  pub category : String
  pub amount_btc : f.Value
  pub confirmations : ℤ
  pub txid : String
  pub block_hash : String
  pub block_height : ℤ
  pub vout : ℤ
  pub time : ℤ
  pub wallet_conflicts : List String

-- `Transaction.Amount`.
unfoldable pub amount : (f : Float64) → Transaction f → ℤ
amount f tx = btc_to_sat f tx.amount_btc

-- `Transaction.IsReceive`.
unfoldable pub is_receive : (f : Float64) → Transaction f → Bool
is_receive f tx = tx.category == "receive"

pub record SinceBlock (f : Float64) : Type 0 where
  pub transactions : List (Transaction f)
  pub removed : List (Transaction f)
  pub last_block : String
