-- ===== src/Payments/State/Sorting.antt =====
-- internal/payments/state.go: `SortObservations`, which calls the sort of the library.
use mathlib.Core.List.{Mem, Perm, mem-cons_self, mem-cons_of_mem, forall_mem-cons}
use mathlib.Core.List.Perm
use btcpay_gate.Base.{
  ltb_ℤ, ◌≡◌, Bool, false, not, List, [], ◌∷◌, String, ◌==◌, eq_iff, eq_of_parts, arith,
  if◌then◌else◌,
}
use btcpay_gate.Payments.State.{Observation}

-- `less` is Go's `<` on strings.
module _ (less : String → String → Bool) where
  -- The order that `SortObservations` hands to `sort.Slice`.
  abbrev pub sooner : Observation → Observation → Bool
  sooner o p = if not (o.txid == p.txid) then less o.txid p.txid else ltb_ℤ o.vout p.vout

  -- No later observation is sooner than an earlier one.
  abbrev pub IsSorted : List Observation → Type 0
  IsSorted [] = Unit
  IsSorted (o ∷ os) = ((p : Observation) → Mem p os → sooner p o ≡ false) × IsSorted os

  -- What `sort.Slice` documents of its result: the same elements, in order.
  pub record IsSortOf (sorted os : List Observation) : Type 0 where
    pub perm : Perm sorted os
    pub order : IsSorted sorted

  -- No two different observations share txid and vout.
  abbrev pub KeysDecide : List Observation → Type 0
  KeysDecide os =
      (o p : Observation) → Mem o os → Mem p os → o.txid ≡ p.txid → o.vout ≡ p.vout → o ≡ p

  -- Go's order on strings leaves no two different strings apart.
  abbrev pub IsTotal : Type 0
  IsTotal = (s t : String) → less s t ≡ false → less t s ≡ false → s ≡ t

  module _ (total : IsTotal) where
    same_output :
        (o p : Observation)
        → sooner o p ≡ false
        → sooner p o ≡ false
        → (o.txid ≡ p.txid) × (o.vout ≡ p.vout)
    same_output o p h k = ground (
      arith,
      eq_iff o.txid p.txid,
      eq_iff p.txid o.txid,
      total o.txid p.txid,
      eq_of_parts o.vout p.vout,
    )

    sooner_self : (o : Observation) → sooner o o ≡ false
    sooner_self o = ground (arith, eq_iff o.txid o.txid)

    heads-sooner :
        (o p : Observation) (os ps : List Observation)
        → IsSorted (o ∷ os)
        → Perm (p ∷ ps) (o ∷ os)
        → sooner p o ≡ false
    heads-sooner o p os ps s e =
        (forall_mem-cons {p = λ x. sooner x o ≡ false} (λ x. hlevel)).1 (sooner_self o, s.0) p
          ((Perm.mem_iff e).0 mem-cons_self)

    sorted_unique :
        (os ps : List Observation)
        → IsSorted os
        → IsSorted ps
        → KeysDecide os
        → Perm os ps
        → os ≡ ps
    sorted_unique [] ps s t d e = Perm.nil-eq e
    sorted_unique (o ∷ os) [] s t d e = Perm.eq-nil e
    sorted_unique (o ∷ os) (p ∷ ps) s t d e =
        let keys =
          same_output o p (heads-sooner p o ps os t e) (heads-sooner o p os ps s (Perm.symm e)) in
        let same = d o p mem-cons_self ((Perm.mem_iff e).1 mem-cons_self) keys.0 keys.1 in
        let rest =
          sorted_unique os ps s.1 t.1
            (λ x y mx my. d x y (mem-cons_of_mem o mx) (mem-cons_of_mem o my))
            (Perm.cons_inv (Perm.trans e (Perm.symm (Perm.cons' same Perm.rfl)))) in
        λ i. same i ∷ rest i

    -- If the order on strings leaves no two apart and no two different observations share txid and
    -- vout, `SortObservations` has one possible result, in whatever order the rows arrive.
    pub sort_unique :
        (os ps sorted other : List Observation)
        → IsSortOf sorted os
        → IsSortOf other ps
        → Perm os ps
        → KeysDecide os
        → sorted ≡ other
    sort_unique os ps sorted other a b e d =
        sorted_unique sorted other a.order b.order
          (λ x y mx my. d x y ((Perm.mem_iff a.perm).0 mx) ((Perm.mem_iff a.perm).0 my))
          (Perm.trans a.perm (Perm.trans e (Perm.symm b.perm)))
