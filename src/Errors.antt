-- ===== src/Errors.antt =====
-- Go's error values as the program inspects them: the JSON-RPC error of internal/rpc/client.go,
-- the sentinels, plain messages, and wrapping by the verb %w of `fmt.Errorf`.
use btcpay_gate.Base.{ℤ, Bool, true, false, Option, none, some, String}

pub data Error : Type 0 where
  -- `*rpc.Error`, with its code and message.
  rpc_error : ℤ → String → Error
  -- `payments.ErrNotFound`.
  not_found : Error
  message : String → Error
  wrapped : String → Error → Error

-- What a call gives back beside its error.
pub data Result {ℓ} (A : Type ℓ) : Type ℓ where
  ok : A → Result A
  err : Error → Result A

-- `errors.As(err, &re)` for a `*rpc.Error`: the first one along the chain.
unfoldable pub as_rpc_error : Error → Option (ℤ × String)
as_rpc_error (rpc_error code text) = some (code, text)
as_rpc_error not_found = none
as_rpc_error (message text) = none
as_rpc_error (wrapped context e) = as_rpc_error e

-- `errors.Is(err, ErrNotFound)`.
unfoldable pub is_not_found : Error → Bool
is_not_found (rpc_error code text) = false
is_not_found not_found = true
is_not_found (message text) = false
is_not_found (wrapped context e) = is_not_found e
