-- ===== src/Wallet/Watched.antt =====
-- The worst failure the service has, an address that nobody watches, does not happen: if the node
-- keeps its word, an address is handed out only inside the range that the node watches.
use btcpay_gate.Base.{
  suc, ◌^◌, ℤ, pos, ◌+ℤ◌, ◌≤ℤ◌, ◌<ℤ◌, pos_part, leb_ℤ, ltb_ℤ, ◌≡◌, refl, false, inl, inr,
  Bool-cases, List, [], ◌∷◌, String, int_laws, arith,
}
use btcpay_gate.Errors.{Result, ok, err}
use btcpay_gate.Wallet.{
  Node, Wallet, widened, imported, covered, cover, extended, ensure_watched, first_address, derived,
  address_at,
}
use btcpay_gate.Wallet.Reach.{reach-above, exact}

pub below : (a b : ℤ) → ltb_ℤ a b ≡ false → b ≤ℤ a
below a b h = ground arith

abbrev Widened : {A : Type 0} {N : Type 0} → (N → ℤ) → N → Result A × N → Type 0
Widened watched n r = watched n ≤ℤ watched r.1

-- What bitcoin-core documents of the descriptor `d`, in the states of a wallet that has no other
-- active receiving descriptor: `watched` is how far it watches the addresses of `d`, and `address` is
-- the address of `d` at an index. No call narrows the range, a reading of the active range answers
-- no more than it is, an import of `d` that succeeds reaches its end, and a derivation answers
-- addresses of `d`.
pub record KeepsWord {N : Type 0} (node : Node N) (d : String) (watched : N → ℤ)
    (address : ℤ → String) : Type 0 where
  pub reading : (n : N) → Widened watched n (node.active_range_end n)
  pub truthful :
      (n : N) (have : ℤ)
      → (node.active_range_end n).0 ≡ ok have
      → have ≤ℤ watched (node.active_range_end n).1
  pub importing :
      (e : String)
      → e ≡ d
      → (from to : ℤ) (n : N) → Widened watched n (node.import_ranged_descriptor e from to n)
  pub reaching :
      (e : String)
      → e ≡ d
      → (to : ℤ) (n : N) → (node.import_ranged_descriptor e (pos 0) to n).0 ≡ ok tt
      → to ≤ℤ watched (node.import_ranged_descriptor e (pos 0) to n).1
  pub derives :
      (e : String)
      → e ≡ d
      → (from to : ℤ) (n : N) → Widened watched n (node.derive_addresses e from to n)
  pub derived :
      (e : String)
      → e ≡ d
      → (from to : ℤ) (n : N) (a : String) (rest : List String)
      → (node.derive_addresses e from to n).0 ≡ ok (a ∷ rest)
      → a ≡ address from

module _ {N : Type 0} (node : Node N) (d : String) (watched : N → ℤ) (address : ℤ → String)
    (word : KeepsWord node d watched address) where
  -- The wallet is of the descriptor, and believes no more than the node watches.
  abbrev pub Sane : Wallet → N → Type 0
  Sane w n = (w.descriptor ≡ d) × (w.gap_end ≤ℤ watched n)

  abbrev pub Done : ℤ → Result (Unit {0}) × Wallet × N → Type 0
  Done end (ok a, w, n) = (end ≤ℤ w.gap_end) × Sane w n
  Done end (err e, w, n) = Sane w n

  widened-Done :
      (end : ℤ) (w : Wallet) (r : Result ℤ × N)
      → w.descriptor ≡ d
      → end ≤ℤ watched r.1
      → ((have : ℤ) → r.0 ≡ ok have → have ≤ℤ watched r.1)
      → Done end (widened node end w r)
  widened-Done end w (ok got, n) same far true_word = elim (Bool-cases (ltb_ℤ end got)) [
    | inl wide ↦ rw wide (ground arith, (same, true_word got refl))
    | inr narrow ↦ rw narrow (omega arith, (same, far))
  ]
  widened-Done end w (err e, n) same far true_word = (omega arith, (same, far))

  imported-Done :
      (end : ℤ) (w : Wallet) (r : Result (Unit {0}) × N)
      → Sane w r.1
      → (r.0 ≡ ok tt → end ≤ℤ watched r.1)
      → Done end (imported node end w r)
  imported-Done end w (ok tt, n) sane far =
      widened-Done end w (node.active_range_end n) sane.0 (omega (arith, word.reading n, far refl))
        (word.truthful n)
  imported-Done end w (err e, n) sane far = sane

  covered-Done :
      (end : ℤ) (w : Wallet) (r : Result ℤ × N)
      → Sane w r.1
      → ((have : ℤ) → r.0 ≡ ok have → have ≤ℤ watched r.1)
      → Done end (covered node end w r)
  covered-Done end w (ok have, n) sane true_word = elim (Bool-cases (leb_ℤ end have)) [
    | inl enough ↦ rw enough (ground arith, (sane.0, true_word have refl))
    | inr short ↦ rw short (
        imported-Done end w _
          (sane.0, omega (arith, sane.1, word.importing w.descriptor sane.0 (pos 0) end n))
          (word.reaching w.descriptor sane.0 end n))
  ]
  covered-Done end w (err e, n) sane true_word = sane

  pub cover-Done : (end : ℤ) (w : Wallet) (n : N) → Sane w n → Done end (cover node end w n)
  unfolding cover
  cover-Done end w n sane =
      covered-Done end w (node.active_range_end n) (sane.0, omega (arith, sane.1, word.reading n))
        (word.truthful n)

  abbrev Ensured : ℤ → Result (Unit {0}) × Wallet × N → Type 0
  Ensured index (ok a, w, n) = (index <ℤ w.gap_end) × Sane w n
  Ensured index (err e, w, n) = Sane w n

  extended-Ensured :
      (index next : ℤ) (r : Result (Unit {0}) × Wallet × N)
      → index <ℤ next
      → Done next r
      → Ensured index (extended node next r)
  extended-Ensured index next (ok a, w, n) past h = (omega (arith, h.0), h.1)
  extended-Ensured index next (err e, w, n) past h = h

  ensure_watched-Ensured :
      (index : ℤ) (w : Wallet) (n : N)
      → pos 0 ≤ℤ w.gap_end
      → pos 0 <ℤ w.step
      → index +ℤ w.step <ℤ pos (2 ^ 63)
      → Sane w n
      → Ensured index (ensure_watched node index w n)
  unfolding ensure_watched
  ensure_watched-Ensured index w n hg hs hb sane = elim (Bool-cases (ltb_ℤ index w.gap_end)) [
    | inl inside ↦ rw inside (ground arith, sane)
    | inr beyond ↦
        rw
          (
            beyond,
            exact w.gap_end w.step (index +ℤ w.step) hg (omega arith)
                (omega (int_laws, below index w.gap_end beyond)) hb,
          )
          (extended-Ensured index _ _
            (reach-above (suc (pos_part index)) index w.step (w.gap_end +ℤ w.step) hs
              (omega int_laws) hb (omega (int_laws, below index w.gap_end beyond))
              (omega int_laws)).0
            (cover-Done _ w n sane))
  ]

  -- How `AddressAt` may end.
  abbrev pub Derived : ℤ → Result String × Wallet × N → Type 0
  Derived index (ok a, w, n) = (a ≡ address index) × (index <ℤ w.gap_end) × Sane w n
  Derived index (err e, w, n) = Sane w n

  first_address-Derived :
      (index : ℤ) (w : Wallet) (r : Result (List String) × N)
      → index <ℤ w.gap_end
      → Sane w r.1
      → ((a : String) (rest : List String) → r.0 ≡ ok (a ∷ rest) → a ≡ address index)
      → Derived index (first_address node index w r)
  first_address-Derived index w (ok [], n) inside sane its = sane
  first_address-Derived index w (ok (a ∷ rest), n) inside sane its = (its a rest refl, inside, sane)
  first_address-Derived index w (err e, n) inside sane its = sane

  derived-Derived :
      (index : ℤ) (r : Result (Unit {0}) × Wallet × N)
      → Ensured index r
      → Derived index (derived node index r)
  derived-Derived index (ok a, w, n) h =
      first_address-Derived index w _ h.0
        (h.1.0, omega (arith, h.1.1, word.derives w.descriptor h.1.0 index index n))
        (word.derived w.descriptor h.1.0 index index n)
  derived-Derived index (err e, w, n) h = h

  -- If the node keeps its word on the wallet's descriptor, the step is positive, index and step fit
  -- an int together and the wallet believes no more than the node watches: after `AddressAt` it
  -- still does, and what is returned is the address of the descriptor at the index, which lies
  -- inside the range that the wallet believes to be watched.
  pub address_at-Derived :
      (index : ℤ) (w : Wallet) (n : N)
      → pos 0 ≤ℤ w.gap_end
      → pos 0 <ℤ w.step
      → index +ℤ w.step <ℤ pos (2 ^ 63)
      → Sane w n
      → Derived index (address_at node index w n)
  unfolding address_at
  address_at-Derived index w n hg hs hb sane =
      derived-Derived index (ensure_watched node index w n)
        (ensure_watched-Ensured index w n hg hs hb sane)
