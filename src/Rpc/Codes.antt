-- ===== src/Rpc/Codes.antt =====
-- internal/rpc/calls.go: the errors of bitcoin-core that the program tells apart.
use btcpay_gate.Base.{ℤ, negsuc, eqb_ℤ, Bool, false, Option, none, some, String}
use btcpay_gate.Errors.{Error, as_rpc_error}

abbrev pub has_code : ℤ → Option (ℤ × String) → Bool
has_code code none = false
has_code code (some (c, text)) = eqb_ℤ c code

-- `IsWalletNotLoaded`: -18, RPC_WALLET_NOT_FOUND.
unfoldable pub is_wallet_not_loaded : Error → Bool
is_wallet_not_loaded e = has_code (negsuc 17) (as_rpc_error e)
