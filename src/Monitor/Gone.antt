-- ===== src/Monitor/Gone.antt =====
-- Which observations `observation` marks as removed.
use btcpay_gate.Base.{
  ℤ, pos, ◌≤ℤ◌, ◌<ℤ◌, ◌≡◌, refl, ◌↔◌, ◌⊎◌, Bool, true, List, [], ◌∷◌, ltb_ℤ, String, arith,
  if◌then◌else◌,
}
use btcpay_gate.Rpc.Amounts.{Float64}
use btcpay_gate.Rpc.SinceBlock.{Transaction}
use btcpay_gate.Payments.State.{Invoice}
use btcpay_gate.Monitor.{observed}

-- The wallet names another transaction that spends the same money.
abbrev pub IsContested : {A : Type 0} → List A → Type 0
IsContested [] = ⊥
IsContested (x ∷ xs) = Unit

-- The two tests of the source, on what they read.
gone_iff :
    (conflicts : List String) (conf : ℤ) (removed : Bool)
    → ((if ltb_ℤ conf (pos 0) then true else elim conflicts [ [] ↦ removed | other ↦ true ]) ≡ true)
      ↔ ((removed ≡ true) ⊎ (conf <ℤ pos 0) ⊎ IsContested conflicts)
gone_iff [] conf removed = ground arith
gone_iff (x ∷ xs) conf removed = ground arith

module _ (f : Float64) (tx : Transaction f) (removed : Bool) (inv : Invoice) where
  -- An observation is of the invoice found, its count of confirmations is never negative, and it
  -- is marked as removed exactly when the transaction was listed under removed[], or has a
  -- negative count, or has any wallet conflict, however many confirmations it has.
  pub observed_removed_iff :
      let u = observed f tx removed inv in
      (u.invoice_id ≡ inv.id)
      × (pos 0 ≤ℤ u.observation.confirmations)
      × ((u.observation.removed ≡ true)
          ↔ ((removed ≡ true) ⊎ (tx.confirmations <ℤ pos 0) ⊎ IsContested tx.wallet_conflicts))
  unfolding observed
  observed_removed_iff = (refl, ground arith, gone_iff tx.wallet_conflicts tx.confirmations removed)
