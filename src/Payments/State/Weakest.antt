-- ===== src/Payments/State/Weakest.antt =====
-- internal/payments/state.go: `MinConfirmations` answers the least count, or 0 where nothing counts.
use btcpay_gate.Base.{
  ℤ, pos, ◌≤ℤ◌, ltb_ℤ, ◌≡◌, refl, sym, subst, ◌∙◌, ◌⊎◌, inl, inr, Bool, true, false, ◌||◌, List, [],
  ◌∷◌, All, Any, arith, Bool-cases,
}
use btcpay_gate.Payments.State.{Observation, min_confirmations, min_conf_from}

-- At most the count of every observation in the chain.
abbrev pub IsBelow : ℤ → List Observation → Type 0
IsBelow n obs = All (λ o. o.removed ≡ false → n ≤ℤ o.confirmations) obs

-- The count of some observation in the chain.
abbrev pub IsCount : ℤ → List Observation → Type 0
IsCount n obs = Any (λ o. (o.removed ≡ false) × (o.confirmations ≡ n)) obs

abbrev pub NoneLive : List Observation → Type 0
NoneLive obs = All (λ o. o.removed ≡ true) obs

abbrev pub IsWeakest : ℤ → List Observation → Type 0
IsWeakest n obs = IsBelow n obs × (IsCount n obs ⊎ (NoneLive obs × (n ≡ pos 0)))

-- One round of the loop, by what the observation is.
round_gone :
    (o : Observation) (obs : List Observation) (m : ℤ) (first : Bool)
    → o.removed ≡ true
    → min_conf_from (o ∷ obs) m first ≡ min_conf_from obs m first
unfolding min_conf_from
round_gone o obs m first gone = rw gone refl

round_taken :
    (o : Observation) (obs : List Observation) (m : ℤ) (first : Bool)
    → o.removed ≡ false
    → (first || ltb_ℤ o.confirmations m) ≡ true
    → min_conf_from (o ∷ obs) m first ≡ min_conf_from obs o.confirmations false
unfolding min_conf_from
round_taken o obs m first live better = rw (live, better) refl

round_kept :
    (o : Observation) (obs : List Observation) (m : ℤ)
    → o.removed ≡ false
    → ltb_ℤ o.confirmations m ≡ false
    → min_conf_from (o ∷ obs) m false ≡ min_conf_from obs m false
unfolding min_conf_from
round_kept o obs m live more = rw (live, more) refl

-- At most `m` and every count, and one of these.
abbrev IsLeast : ℤ → List Observation → ℤ → Type 0
IsLeast m obs n = (n ≤ℤ m) × IsBelow n obs × ((n ≡ m) ⊎ IsCount n obs)

further : {A B C : Type 0} → A ⊎ B → A ⊎ (C ⊎ B)
further (inl a) = inl a
further (inr b) = inr (inr b)

taken :
    (o : Observation) (obs : List Observation) (n : ℤ)
    → o.removed ≡ false
    → IsLeast o.confirmations obs n
    → IsBelow n (o ∷ obs) × IsCount n (o ∷ obs)
taken o obs n live (le, below, inl e) = (((λ x. le), below), inl (live, sym e))
taken o obs n live (le, below, inr k) = (((λ x. le), below), inr k)

-- The rest of the loop, once some count stands in `m`.
later-IsLeast : (obs : List Observation) (m : ℤ) → IsLeast m obs (min_conf_from obs m false)
later-IsLeast [] m = unfold min_conf_from in (omega arith, tt, inl refl)
later-IsLeast (o ∷ obs) m = elim (Bool-cases o.removed) [
  | inl gone ↦
      let h = later-IsLeast obs m in
      subst (IsLeast m (o ∷ obs)) (sym (round_gone o obs m false gone))
        (h.0, ((λ e. absurd (clash (sym gone ∙ e))), h.1), further h.2)
  | inr live ↦ elim (Bool-cases (ltb_ℤ o.confirmations m)) [
    | inl less ↦
        let h = later-IsLeast obs o.confirmations in
        let k = taken o obs _ live h in
        subst (IsLeast m (o ∷ obs)) (sym (round_taken o obs m false live less))
          (omega (arith, h.0, under less), k.0, inr k.1)
    | inr more ↦
        let h = later-IsLeast obs m in
        subst (IsLeast m (o ∷ obs)) (sym (round_kept o obs m live more))
          (h.0, ((λ e. omega (arith, h.0, over more)), h.1), further h.2)
  ]
]
  where
    clash : true ≡ false → ⊥
    clash x = cc

    under : ltb_ℤ o.confirmations m ≡ true → o.confirmations ≤ℤ m
    under h = ground arith

    over : ltb_ℤ o.confirmations m ≡ false → m ≤ℤ o.confirmations
    over h = ground arith

gone_too :
    (o : Observation) (obs : List Observation) (n : ℤ)
    → o.removed ≡ true
    → IsWeakest n obs
    → IsWeakest n (o ∷ obs)
gone_too o obs n gone (below, inl k) = (((λ e. cc), below), inl (inr k))
gone_too o obs n gone (below, inr none_live) =
    (((λ e. cc), below), inr ((gone, none_live.0), none_live.1))

first-IsWeakest : (obs : List Observation) → IsWeakest (min_conf_from obs (pos 0) true) obs
first-IsWeakest [] = unfold min_conf_from in (tt, inr (tt, refl))
first-IsWeakest (o ∷ obs) = elim (Bool-cases o.removed) [
  | inl gone ↦
      subst (λ n. IsWeakest n (o ∷ obs)) (sym (round_gone o obs (pos 0) true gone))
        (gone_too o obs _ gone (first-IsWeakest obs))
  | inr live ↦
      let k = taken o obs _ live (later-IsLeast obs o.confirmations) in
      subst (λ n. IsWeakest n (o ∷ obs)) (sym (round_taken o obs (pos 0) true live refl))
        (k.0, inl k.1)
]

-- `MinConfirmations` is the least count of the observations in the chain, or 0 without one.
pub min_confirmations-IsWeakest : (obs : List Observation) → IsWeakest (min_confirmations obs) obs
min_confirmations-IsWeakest obs = unfold min_confirmations in first-IsWeakest obs
