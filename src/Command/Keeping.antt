-- ===== src/Command/Keeping.antt =====
-- The client of internal/rpc makes of bitcoin-core a node that keeps its word to internal/wallet.
use btcpay_gate.Base.{
  ℤ, pos, ◌≤ℤ◌, ◌≡◌, refl, sym, subst, ap, ◌∙◌, inl, inr, Bool, true, false, Option, none, some,
  List, [], ◌∷◌, All, Any, String, Bool-cases,
}
use btcpay_gate.Errors.{Error, Result, ok, err}
use btcpay_gate.Rpc.Amounts.{Float64}
use btcpay_gate.Rpc.Wallets.{
  DescriptorEntry, ImportResult, end_of, range_end_widest, active_range_end, all_imported,
  import_ranged_descriptor,
}
use btcpay_gate.Rpc.Calls.{str, bounds, Client, Json, DescriptorInfo}
use btcpay_gate.Wallet.Watched.{KeepsWord}
use btcpay_gate.Command.Startup.{checksummed, node_of}
use btcpay_gate.Command.Core.{EndsBy, IsCore, behind, value_or, call-Says}

-- The end that an entry counts with is one that an active receiving range has.
ended :
    (active is_internal : Bool) (range : Option (List ℤ)) (x end : ℤ)
    → end_of (record { active = active; is_internal = is_internal; range = range }) ≡ some x
    → (active ≡ true
        → is_internal ≡ false
        → (from to : ℤ) → range ≡ some (from ∷ to ∷ [])
        → to ≤ℤ end)
    → x ≤ℤ end
unfolding end_of
ended true false (some (a ∷ b ∷ [])) x end h k =
    subst (λ y. y ≤ℤ end) (ap (some_or b) h) (k refl refl a b refl)
  where
    some_or : ℤ → Option ℤ → ℤ
    some_or y none = y
    some_or y (some z) = z
ended true false (some (a ∷ b ∷ c ∷ rest)) x end h k = cc
ended true false (some (a ∷ [])) x end h k = cc
ended true false (some []) x end h k = cc
ended true false none x end h k = cc
ended true true range x end h k = cc
ended false is_internal range x end h k = cc

Any-ended :
    (x end : ℤ) (ds : List DescriptorEntry)
    → Any (λ e. end_of e ≡ some x) ds
    → All
        (λ e.
          e.active ≡ true
          → e.is_internal ≡ false
          → (from to : ℤ) → e.range ≡ some (from ∷ to ∷ [])
          → to ≤ℤ end)
        ds
    → x ≤ℤ end
Any-ended x end [] h k = absurd h
Any-ended x end (e ∷ es) (inl h) k = ended e.active e.is_internal e.range x end h k.0
Any-ended x end (e ∷ es) (inr h) k = Any-ended x end es h k.1

not_ok : {A : Type 0} (e : Error) (a : A) → err e ≡ ok a → ⊥
not_ok e a h = cc

all_imported_ok :
    (rs : List ImportResult) → all_imported rs ≡ ok tt → All (λ r. r.success ≡ true) rs
all_imported_ok [] h = tt
all_imported_ok (r ∷ rs) h = elim (Bool-cases r.success) [
  | inl good ↦ (good, all_imported_ok rs (rw good at h))
  | inr bad ↦ absurd (not_ok _ tt (rw bad at h))
]

module _ {f : Float64} (json : Json f) {N : Type 0} (c : Client f N) (plain d : String)
    (watched : N → ℤ) (address : ℤ → String) (core : IsCore json (behind c) plain d watched address)
    (contains contains_lower : String → String → Bool) (quote : String → String) where
  truthful_from :
      (end have : ℤ) (r : Result (List DescriptorEntry))
      → pos 0 ≤ℤ end
      → ((ds : List DescriptorEntry) → r ≡ ok ds → All (EndsBy json end) ds)
      → active_range_end r ≡ ok have
      → have ≤ℤ end
  unfolding active_range_end
  truthful_from end have (err e) low k h = cc
  truthful_from end have (ok ds) low k h =
      subst (λ x. x ≤ℤ end) (ap (value_or json (pos 0)) h)
        (elim (range_end_widest ds).1 [
          | inl none_there ↦ rw none_there low
          | inr found ↦ Any-ended _ end ds found (k ds refl)
        ])

  reaching_from :
      (G : Type 0) (r : Result (List ImportResult))
      → ((rs : List ImportResult) → r ≡ ok rs → All (λ x. x.success ≡ true) rs → G)
      → import_ranged_descriptor r ≡ ok tt
      → G
  unfolding import_ranged_descriptor
  reaching_from G (err e) k h = cc
  reaching_from G (ok rs) k h = k rs refl (all_imported_ok rs h)

  -- If bitcoin-core answers as it documents, for a wallet whose only active receiving descriptor is
  -- `d`, then the client of internal/rpc is a node that keeps its word to the wallet: no call narrows
  -- the range of `d`; ActiveRangeEnd answers no more than the range; where
  -- ImportRangedDescriptor of `d` from 0 succeeds, the range reaches the end asked for; and the first
  -- address that DeriveAddresses of `d` answers is the one of `d` at the first index.
  pub node_of-KeepsWord : KeepsWord (node_of json contains contains_lower quote c) d watched address
  node_of-KeepsWord = record {
    reading = λ n. core.widens _ n (inl refl);
    truthful = λ n have h.
        truthful_from _ have _ (core.never_negative _)
          (λ ds e. core.lists _ n ds refl (call-Says json _ _ _ ds e)) h;
    importing = λ e same from to n. core.widens _ n (inr (inl refl));
    reaching = λ e same to n h.
        reaching_from _ _
          (λ rs k good.
            core.reaches _ _ to n rs refl refl same refl refl refl (call-Says json _ _ _ rs k) good)
          h;
    derives = λ e same from to n. core.widens _ n (inr (inr refl));
    derived = λ e same from to n a rest h.
        core.derives _ from to n a rest refl (ap (λ x. str x ∷ bounds from to ∷ []) same)
          (call-Says json _ _ _ (a ∷ rest) h);
  }

  info_from :
      (r : Result DescriptorInfo × N) (e : String)
      → ((info : DescriptorInfo) → r.0 ≡ ok info → info.descriptor ≡ d)
      → (checksummed json contains contains_lower quote r).0 ≡ ok e
      → e ≡ d
  info_from (ok info, n) e k h = sym (ap (value_or json e) h) ∙ k info refl
  info_from (err x, n) e k h = cc

  -- It completes the plain descriptor to the one of the wallet.
  pub node_of-canonical :
      (n : N) (e : String)
      → ((node_of json contains contains_lower quote c).get_descriptor_info plain n).0 ≡ ok e
      → e ≡ d
  node_of-canonical n e h =
      info_from _ e (λ info k. core.completes _ _ info refl refl (call-Says json _ _ _ info k)) h
