-- ===== src/Payments/State/Order.antt =====
-- The order in which the observations arrive does not matter: the rule sees a multiset.
use mathlib.Core.List.{Perm, Permᴰ}
use mathlib.Core.Logic.{∥∥₁_elim}
use btcpay_gate.Base.{
  ℤ, pos, ◌+ℤ◌, ◌≡◌, refl, sym, ap, ◌∙◌, Bool, true, false, List, [], ◌∷◌, arith, int_laws, ltb_ℤ,
  if◌then◌else◌,
}
use btcpay_gate.Base.Word.{wrap64, wrap64-+ℤ-left}
use btcpay_gate.Payments.State.{
  Status, Invoice, Observation, add_sat, tally, sentinel, decide, decide_from, decide_empty,
  decide_live, terminal, paid, min_confirmations, min_conf_from,
}
use btcpay_gate.Payments.State.Totals.{live_of, any_removed, received, collect-eq, paid-received}
use btcpay_gate.Payments.State.Verdict.{or_false}

add_sat_swap : (t a b : ℤ) → add_sat (add_sat t a) b ≡ add_sat (add_sat t b) a
add_sat_swap t a b =
    wrap64-+ℤ-left (t +ℤ a) b ∙ (ap wrap64 (omega int_laws) ∙ sym (wrap64-+ℤ-left (t +ℤ b) a))

tally_perm :
    {xs ys : List Observation} (p : Permᴰ xs ys) (t m : ℤ)
    → tally (live_of xs) t m ≡ tally (live_of ys) t m
unfolding tally
tally_perm Permᴰ.nil t m = refl
tally_perm (Permᴰ.cons {a = a} {l₁ = xs} {l₂ = ys} e p) t m = ground (
  arith,
  tally_perm p t m,
  tally_perm p (add_sat t a.amount_sat) (if ltb_ℤ a.confirmations m then a.confirmations else m),
)
tally_perm (Permᴰ.swap {a = a} {b = b} e f) t m =
    ground (arith, add_sat_swap t a.amount_sat b.amount_sat)
tally_perm (Permᴰ.trans p q) t m = tally_perm p t m ∙ tally_perm q t m

any_removed_perm : {xs ys : List Observation} → Permᴰ xs ys → any_removed xs ≡ any_removed ys
any_removed_perm Permᴰ.nil = refl
any_removed_perm (Permᴰ.cons e p) = ground (arith, any_removed_perm p)
any_removed_perm (Permᴰ.swap e f) = ground arith
any_removed_perm (Permᴰ.trans p q) = any_removed_perm p ∙ any_removed_perm q

abbrev pub is_empty : List Observation → Bool
is_empty [] = true
is_empty (o ∷ l) = false

is_empty_perm :
    {xs ys : List Observation} → Permᴰ xs ys → is_empty (live_of xs) ≡ is_empty (live_of ys)
is_empty_perm Permᴰ.nil = refl
is_empty_perm (Permᴰ.cons e p) = ground (arith, is_empty_perm p)
is_empty_perm (Permᴰ.swap e f) = ground arith
is_empty_perm (Permᴰ.trans p q) = is_empty_perm p ∙ is_empty_perm q

min_conf_perm :
    {xs ys : List Observation} (p : Permᴰ xs ys) (m : ℤ) (first : Bool)
    → min_conf_from xs m first ≡ min_conf_from ys m first
unfolding min_conf_from
min_conf_perm Permᴰ.nil m first = refl
min_conf_perm (Permᴰ.cons {a = a} e p) m first =
    ground (arith, min_conf_perm p m first, min_conf_perm p a.confirmations false)
min_conf_perm (Permᴰ.swap e f) m first = ground arith
min_conf_perm (Permᴰ.trans p q) m first = min_conf_perm p m first ∙ min_conf_perm q m first

add_swap : (a b c : ℤ) → a +ℤ (b +ℤ c) ≡ b +ℤ (a +ℤ c)
add_swap a b c = omega int_laws

received_perm : {xs ys : List Observation} → Permᴰ xs ys → received xs ≡ received ys
unfolding received
received_perm Permᴰ.nil = refl
received_perm (Permᴰ.cons e p) = ground (arith, received_perm p)
received_perm (Permᴰ.swap {a = a} {b = b} {l = l} e f) =
    ground (arith, add_swap a.amount_sat b.amount_sat (received l))
received_perm (Permᴰ.trans p q) = received_perm p ∙ received_perm q

-- `Decide` by the four things that it reads of the observations.
abbrev pub decide_by : Invoice → ℤ → Bool → Bool → ℤ × ℤ → Status
decide_by inv now empty removed (total, min_conf) =
    if terminal inv.status
    then inv.status
    else if empty
    then decide_empty inv removed now
    else decide_live inv total min_conf

decide_from-eq :
    (inv : Invoice) (now : ℤ) (l : List Observation) (r : Bool)
    → (if terminal inv.status then inv.status else decide_from inv l r now)
      ≡ decide_by inv now (is_empty l) r (tally l (pos 0) sentinel)
unfolding decide_from
decide_from-eq inv now [] r = refl
decide_from-eq inv now (o ∷ l) r = refl

pub decide-eq :
    (inv : Invoice) (obs : List Observation) (now : ℤ)
    → decide inv obs now
      ≡ decide_by inv now
          (is_empty (live_of obs))
          (any_removed obs)
          (tally (live_of obs) (pos 0) sentinel)
unfolding decide
decide-eq inv obs now =
    rw (collect-eq obs [] false, or_false (any_removed obs))
      (decide_from-eq inv now (live_of obs) (any_removed obs))

abbrev pub SameReport : Invoice → ℤ → List Observation → List Observation → Type 0
SameReport inv now xs ys =
    (decide inv xs now ≡ decide inv ys now)
    × (paid xs ≡ paid ys)
    × (min_confirmations xs ≡ min_confirmations ys)

perm-SameReport :
    (inv : Invoice) (now : ℤ) {xs ys : List Observation} → Permᴰ xs ys → SameReport inv now xs ys
unfolding min_confirmations
perm-SameReport inv now {xs} {ys} p = (
  cc (
    decide-eq inv xs now,
    decide-eq inv ys now,
    is_empty_perm p,
    any_removed_perm p,
    tally_perm p (pos 0) sentinel,
  ),
  cc (paid-received xs, paid-received ys, received_perm p),
  min_conf_perm p (pos 0) true,
)

-- The status that `Decide` answers, the sum that `Paid` reports and the count that
-- `MinConfirmations` reports are the same for any two orders of the same observations.
pub report_perm :
    (inv : Invoice) (now : ℤ) (xs ys : List Observation) → Perm xs ys → SameReport inv now xs ys
report_perm inv now xs ys p = ∥∥₁_elim p (hlevel) (perm-SameReport inv now)
