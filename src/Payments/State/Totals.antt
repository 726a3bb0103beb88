-- ===== src/Payments/State/Totals.antt =====
-- The loops of `Decide`, `Paid` and `MinConfirmations` against plain sums over the observations
-- that are still in the chain.
use btcpay_gate.Base.{
  ℤ, pos, ◌+ℤ◌, ◌≤ℤ◌, ◌<ℤ◌, ltb_ℤ, ◌≡◌, refl, sym, ap, ◌∙◌, ◌⊎◌, inl, Bool, true, false, not, ◌||◌,
  List, [], ◌∷◌, ◌++◌, arith, int_laws, keep, All, if◌then◌else◌, Any,
}
use btcpay_gate.Base.Word.{wrap64, wrap64-+ℤ-left, wrap64_id}
use btcpay_gate.Payments.State.{
  Observation, add_sat, collect, tally, sentinel, paid, paid_from, min_confirmations, min_conf_from,
}
use mathlib.Core.List.{append_assoc, append-nil}

abbrev pub is_live : Observation → Bool
is_live o = not o.removed

-- The observations that count.
abbrev pub live_of : List Observation → List Observation
live_of = keep is_live

abbrev pub any_removed : List Observation → Bool
any_removed [] = false
any_removed (o ∷ obs) = o.removed || any_removed obs

-- The sum of the amounts of the live observations, as an unbounded integer.
unfoldable pub received : List Observation → ℤ
received [] = pos 0
received (o ∷ obs) = if o.removed then received obs else o.amount_sat +ℤ received obs

pub collect-eq :
    (obs live : List Observation) (r : Bool)
    → collect obs live r ≡ (live ++ live_of obs, any_removed obs || r)
unfolding collect
collect-eq [] live r = rw append-nil
collect-eq (o ∷ obs) live r = ground (
  arith,
  collect-eq obs live true,
  collect-eq obs (live ++ o ∷ []) r,
  append_assoc live (o ∷ []) (live_of obs),
)

add_regroup : (a b c : ℤ) → a +ℤ b +ℤ c ≡ a +ℤ (b +ℤ c)
add_regroup a b c = omega int_laws

-- The total of `Decide` is the wrapped sum of what is live.
pub tally-total :
    (obs : List Observation) (t m : ℤ)
    → (tally (live_of obs) (wrap64 t) m).0 ≡ wrap64 (t +ℤ received obs)
unfolding tally received
tally-total [] t m = ap wrap64 (omega int_laws)
tally-total (o ∷ obs) t m = ground (
  arith,
  wrap64-+ℤ-left t o.amount_sat,
  tally-total obs t m,
  tally-total obs (t +ℤ o.amount_sat) (if ltb_ℤ o.confirmations m then o.confirmations else m),
  add_regroup t o.amount_sat (received obs),
)

-- The total that `Decide` computes.
pub tally-received :
    (obs : List Observation) (m : ℤ) → (tally (live_of obs) (pos 0) m).0 ≡ wrap64 (received obs)
tally-received obs m =
    ap (λ t. (tally (live_of obs) t m).0) (sym (wrap64_id (pos 0) (omega arith)))
    ∙ (tally-total obs (pos 0) m ∙ ap wrap64 (omega int_laws))

pub paid_from-total :
    (obs : List Observation) (t : ℤ) → paid_from obs (wrap64 t) ≡ wrap64 (t +ℤ received obs)
unfolding paid_from received
paid_from-total [] t = ap wrap64 (omega int_laws)
paid_from-total (o ∷ obs) t = ground (
  arith,
  wrap64-+ℤ-left t o.amount_sat,
  paid_from-total obs t,
  paid_from-total obs (t +ℤ o.amount_sat),
  add_regroup t o.amount_sat (received obs),
)

-- What `Paid` reports is the wrapped sum of what is live.
pub paid-received : (obs : List Observation) → paid obs ≡ wrap64 (received obs)
unfolding paid
paid-received obs =
    ap (λ t. paid_from obs t) (sym (wrap64_id (pos 0) (omega arith)))
    ∙ (paid_from-total obs (pos 0) ∙ ap wrap64 (omega int_laws))

-- A bound below the weakest count is below every live count.
pub min-All :
    (k : ℤ) (obs : List Observation) (t m : ℤ)
    → k ≤ℤ (tally (live_of obs) t m).1
    → (k ≤ℤ m) × All (λ o. o.removed ≡ false → k ≤ℤ o.confirmations) obs
unfolding tally
min-All k [] t m h = (h, tt)
min-All k (o ∷ obs) t m h = ground (
  arith,
  min-All k obs (add_sat t o.amount_sat) (if ltb_ℤ o.confirmations m then o.confirmations else m),
  min-All k obs t m,
)

-- A bound above the weakest count is above the start or above some live count.
pub min-Any :
    (k : ℤ) (obs : List Observation) (t m : ℤ)
    → (tally (live_of obs) t m).1 <ℤ k
    → (m <ℤ k) ⊎ Any (λ o. (o.removed ≡ false) × (o.confirmations <ℤ k)) obs
unfolding tally
min-Any k [] t m h = inl h
min-Any k (o ∷ obs) t m h = ground (
  arith,
  min-Any k obs (add_sat t o.amount_sat) (if ltb_ℤ o.confirmations m then o.confirmations else m),
  min-Any k obs t m,
)

-- From a first live observation on, `MinConfirmations` keeps the minimum that `Decide` keeps.
min_conf_from-tally :
    (obs : List Observation) (t m : ℤ) → min_conf_from obs m false ≡ (tally (live_of obs) t m).1
unfolding min_conf_from tally
min_conf_from-tally [] t m = refl
min_conf_from-tally (o ∷ obs) t m = ground (
  arith,
  min_conf_from-tally obs (add_sat t o.amount_sat)
      (if ltb_ℤ o.confirmations m then o.confirmations else m),
  min_conf_from-tally obs t m,
)

min_conf_from-first :
    (obs : List Observation) (t m : ℤ)
    → Any (λ o. o.removed ≡ false) obs
    → All (λ o. o.removed ≡ false → o.confirmations <ℤ sentinel) obs
    → min_conf_from obs m true ≡ (tally (live_of obs) t sentinel).1
unfolding min_conf_from tally
min_conf_from-first [] t m h small = absurd h
min_conf_from-first (o ∷ obs) t m h small = ground (
  arith,
  small.0,
  min_conf_from-first obs t m,
  min_conf_from-tally obs (add_sat t o.amount_sat) o.confirmations,
)

-- The weakest live count, as an event reports it, is the one that the decision was made on.
pub min_confirmations-tally :
    (obs : List Observation) (t : ℤ)
    → Any (λ o. o.removed ≡ false) obs
    → All (λ o. o.removed ≡ false → o.confirmations <ℤ sentinel) obs
    → min_confirmations obs ≡ (tally (live_of obs) t sentinel).1
unfolding min_confirmations
min_confirmations-tally obs t = min_conf_from-first obs t (pos 0)

-- A larger start gives no smaller minimum.
tally_mono :
    (obs : List Observation) (t u m n : ℤ)
    → m ≤ℤ n
    → (tally (live_of obs) t m).1 ≤ℤ (tally (live_of obs) u n).1
unfolding tally
tally_mono [] t u m n h = h
tally_mono (o ∷ obs) t u m n h = ground (
  arith,
  tally_mono obs t u m n,
  tally_mono obs (add_sat t o.amount_sat) (add_sat u o.amount_sat)
      (if ltb_ℤ o.confirmations m then o.confirmations else m)
      (if ltb_ℤ o.confirmations n then o.confirmations else n),
)

min_conf_from-above :
    (obs : List Observation) (t m : ℤ)
    → Any (λ o. o.removed ≡ false) obs
    → (tally (live_of obs) t sentinel).1 ≤ℤ min_conf_from obs m true
unfolding min_conf_from tally
min_conf_from-above [] t m h = absurd h
min_conf_from-above (o ∷ obs) t m h = ground (
  arith,
  min_conf_from-above obs t m,
  min_conf_from-tally obs (add_sat t o.amount_sat) o.confirmations,
  tally_mono obs (add_sat t o.amount_sat) (add_sat t o.amount_sat)
      (if ltb_ℤ o.confirmations sentinel then o.confirmations else sentinel) o.confirmations,
)

-- The count that an event reports is at least the one that the decision was made on.
pub min_confirmations-above :
    (obs : List Observation) (t : ℤ)
    → Any (λ o. o.removed ≡ false) obs
    → (tally (live_of obs) t sentinel).1 ≤ℤ min_confirmations obs
unfolding min_confirmations
min_confirmations-above obs t = min_conf_from-above obs t (pos 0)
