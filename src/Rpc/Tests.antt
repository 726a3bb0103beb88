-- ===== src/Rpc/Tests.antt =====
-- Calls on concrete answers of bitcoin-core.
use btcpay_gate.Base.{eqb, length, refl, if◌then◌else◌, ℕ, negsuc, ◌≡◌, Bool, [], ◌∷◌, String, ◌==◌}
use btcpay_gate.Errors.{Result, ok, err, as_rpc_error, rpc_error, wrapped}
use btcpay_gate.Rpc.Client.{truncate}
use btcpay_gate.Rpc.Wallets.{create_watch_only_wallet, is_already_exists, is_already_loaded}

-- A body of three bytes in a text of two.
truncate_cuts :
    truncate (λ b. if eqb (length b) 2 then "<h" else "<ht") (60 ∷ 104 ∷ 116 ∷ []) 2 ≡ "<h…"
unfolding truncate
truncate_cuts = refl

abbrev same_text : String → String → Bool
same_text text part = text == part

-- The wallet exists, and the node loaded it at its start.
abbrev refuse_create : ℕ → Result (Unit {0}) × ℕ
refuse_create n = (err (wrapped "createwallet" (rpc_error (negsuc 3) "exists")), n)

abbrev refuse_load : ℕ → Result (Unit {0}) × ℕ
refuse_load n = (err (wrapped "loadwallet" (rpc_error (negsuc 34) "loaded")), n)

loaded_before : create_watch_only_wallet same_text refuse_create refuse_load 0 ≡ (ok tt, 0)
unfolding create_watch_only_wallet is_already_exists as_rpc_error is_already_loaded
loaded_before = refl
