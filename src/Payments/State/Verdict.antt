-- ===== src/Payments/State/Verdict.antt =====
-- `Decide` against an independent description of each status.
use btcpay_gate.Base.{
  ℤ, pos, ◌≤ℤ◌, ◌<ℤ◌, ◌≡◌, refl, ◌≢◌, ◌⊎◌, ◌↔◌, inl, inr, Bool, ◌||◌, true, false, List, [], ◌∷◌,
  arith, Bool-cases, All, Any, ◌∙◌, subst,
}
use btcpay_gate.Base.Word.{wrap64_id, IsInt64}
use btcpay_gate.Payments.State.{
  Status, pending, seen, confirming, confirmed, underpaid, expired, reorged, Invoice, Observation,
  terminal, decide, decide_from, decide_empty, decide_live, tally, sentinel,
}
use btcpay_gate.Payments.State.Totals.{
  live_of, any_removed, received, collect-eq, tally-received, min-All, min-Any,
}

-- Nothing seen for the invoice is in the chain or the mempool now.
abbrev pub NoneLive : List Observation → Type 0
NoneLive = All (λ o. o.removed ≡ true)

abbrev pub SomeLive : List Observation → Type 0
SomeLive = Any (λ o. o.removed ≡ false)

-- Every live payment has at least `k` confirmations.
abbrev pub AllDeep : ℤ → List Observation → Type 0
AllDeep k = All (λ o. o.removed ≡ false → k ≤ℤ o.confirmations)

-- Some live payment has fewer than `k` confirmations.
abbrev pub SomeShallow : ℤ → List Observation → Type 0
SomeShallow k = Any (λ o. (o.removed ≡ false) × (o.confirmations <ℤ k))

-- What each status means for an invoice that is not final.
abbrev pub Verdict : Invoice → List Observation → ℤ → Status → Type 0
Verdict inv obs now pending =
    NoneLive obs × ((obs ≡ []) ⊎ (inv.status ≡ pending)) × (now <ℤ inv.expires_at)
Verdict inv obs now expired =
    NoneLive obs × ((obs ≡ []) ⊎ (inv.status ≡ pending)) × (inv.expires_at ≤ℤ now)
Verdict inv obs now reorged = NoneLive obs × (obs ≢ []) × (inv.status ≢ pending)
Verdict inv obs now seen = SomeShallow (pos 1) obs
Verdict inv obs now confirming =
    SomeLive obs × AllDeep (pos 1) obs × SomeShallow inv.required_conf obs
Verdict inv obs now underpaid =
    SomeLive obs
    × AllDeep (pos 1) obs
    × AllDeep inv.required_conf obs
    × (received obs <ℤ inv.amount_sat)
Verdict inv obs now confirmed =
    SomeLive obs
    × AllDeep (pos 1) obs
    × AllDeep inv.required_conf obs
    × (inv.amount_sat ≤ℤ received obs)

NoneLive-of_nil : (obs : List Observation) → live_of obs ≡ [] → NoneLive obs
NoneLive-of_nil [] h = tt
NoneLive-of_nil (o ∷ obs) h = ground (arith, NoneLive-of_nil obs)

SomeLive-of_ne-nil : (obs : List Observation) → live_of obs ≢ [] → SomeLive obs
SomeLive-of_ne-nil [] h = absurd (h refl)
SomeLive-of_ne-nil (o ∷ obs) h = elim (Bool-cases o.removed) [
  | inl gone ↦ inr (SomeLive-of_ne-nil obs (λ e. h (ground arith)))
  | inr stays ↦ inl stays
]

any_removed-true : (obs : List Observation) → any_removed obs ≡ true → obs ≢ []
any_removed-true [] h = cc
any_removed-true (o ∷ obs) h = λ e. cc

any_removed-false : (obs : List Observation) → any_removed obs ≡ false → NoneLive obs → obs ≡ []
any_removed-false [] h n = refl
any_removed-false (o ∷ obs) h n = ground arith

empty-Verdict :
    (inv : Invoice) (obs : List Observation) (now : ℤ)
    → terminal inv.status ≡ false
    → NoneLive obs
    → Verdict inv obs now (decide_empty inv (any_removed obs) now)
unfolding decide_empty terminal
empty-Verdict inv obs now t n = ground (arith, any_removed-true obs, any_removed-false obs)

pub or_false : (b : Bool) → (b || false) ≡ b
or_false true = refl
or_false false = refl

module _ (inv : Invoice) (obs : List Observation) (now : ℤ) where
  live-Verdict :
      (total min_conf : ℤ)
      → SomeLive obs
      → total ≡ received obs
      → ((k : ℤ) → k ≤ℤ min_conf → AllDeep k obs)
      → ((k : ℤ) → min_conf <ℤ k → k ≤ℤ sentinel → SomeShallow k obs)
      → inv.required_conf ≤ℤ sentinel
      → Verdict inv obs now (decide_live inv total min_conf)
  unfolding decide_live
  live-Verdict total min_conf some_live exact deep shallow r =
      ground
        (arith, deep (pos 1), deep inv.required_conf, shallow (pos 1), shallow inv.required_conf)

  from-Verdict :
      (l : List Observation)
      → live_of obs ≡ l
      → terminal inv.status ≡ false
      → inv.required_conf ≤ℤ sentinel
      → IsInt64 (received obs)
      → Verdict inv obs now (decide_from inv l (any_removed obs) now)
  unfolding decide_from
  from-Verdict [] e t r fits = empty-Verdict inv obs now t (NoneLive-of_nil obs e)
  from-Verdict (o ∷ l) e t r fits =
      live-Verdict _ _ (SomeLive-of_ne-nil obs (λ n. cc)) (rw (← e) exact) (rw (← e) deep)
        (rw (← e) shallow) r
    where
      exact : (tally (live_of obs) (pos 0) sentinel).0 ≡ received obs
      exact = tally-received obs sentinel ∙ wrap64_id (received obs) fits

      deep : (k : ℤ) → k ≤ℤ (tally (live_of obs) (pos 0) sentinel).1 → AllDeep k obs
      deep k h = (min-All k obs (pos 0) sentinel h).1

      shallow :
          (k : ℤ)
          → (tally (live_of obs) (pos 0) sentinel).1 <ℤ k
          → k ≤ℤ sentinel
          → SomeShallow k obs
      shallow k h le = elim (min-Any k obs (pos 0) sentinel h) [
        | inl above ↦ absurd (omega arith)
        | inr found ↦ found
      ]

  -- What `Decide` answers for an invoice that is not final is what that status means.
  pub decide-Verdict :
      terminal inv.status ≡ false
      → inv.required_conf ≤ℤ sentinel
      → IsInt64 (received obs)
      → Verdict inv obs now (decide inv obs now)
  unfolding decide
  decide-Verdict t r fits =
      rw (t, collect-eq obs [] false, or_false (any_removed obs))
        (from-Verdict (live_of obs) refl t r fits)

not-All-Any :
    (P Q : Observation → Type 0) (apart : (o : Observation) → P o → Q o → ⊥)
    (obs : List Observation)
    → All P obs
    → Any Q obs
    → ⊥
not-All-Any P Q apart [] a h = h
not-All-Any P Q apart (o ∷ obs) a (inl h) = apart o a.0 h
not-All-Any P Q apart (o ∷ obs) a (inr h) = not-All-Any P Q apart obs a.1 h

none-not-some : (obs : List Observation) → NoneLive obs → SomeLive obs → ⊥
none-not-some = not-All-Any _ _ (λ o h k. cc)

none-not-shallow : (k : ℤ) (obs : List Observation) → NoneLive obs → SomeShallow k obs → ⊥
none-not-shallow k = not-All-Any _ _ (λ o h s. ground arith)

deep-not-shallow : (k : ℤ) (obs : List Observation) → AllDeep k obs → SomeShallow k obs → ⊥
deep-not-shallow k = not-All-Any _ _ (λ o h s. ground arith)

-- No two statuses fit the same observations.
Verdict-unique :
    (inv : Invoice) (obs : List Observation) (now : ℤ) (s t : Status)
    → Verdict inv obs now s
    → Verdict inv obs now t
    → s ≡ t
Verdict-unique inv obs now pending pending v w = refl
Verdict-unique inv obs now s t v w = ground (
  arith,
  none-not-some obs,
  none-not-shallow (pos 1) obs,
  none-not-shallow inv.required_conf obs,
  deep-not-shallow (pos 1) obs,
  deep-not-shallow inv.required_conf obs,
)

-- For an invoice that is not final, whose threshold is at most 2^62 - 1 and whose live payments
-- sum within an int64, `Decide` answers a status exactly when that status describes the
-- observations and the clock.
pub decide_iff :
    (inv : Invoice) (obs : List Observation) (now : ℤ) (s : Status)
    → terminal inv.status ≡ false
    → inv.required_conf ≤ℤ sentinel
    → IsInt64 (received obs)
    → (decide inv obs now ≡ s) ↔ Verdict inv obs now s
decide_iff inv obs now s t r fits = (
  λ e. subst (Verdict inv obs now) e (decide-Verdict inv obs now t r fits),
  λ v. Verdict-unique inv obs now (decide inv obs now) s (decide-Verdict inv obs now t r fits) v,
)
