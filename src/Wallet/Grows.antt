-- ===== src/Wallet/Grows.antt =====
-- What a call of the wallet never takes back: its step, its range and what the node watches.
use btcpay_gate.Base.{
  suc, ◌^◌, ℤ, pos, ◌+ℤ◌, ◌≤ℤ◌, ◌<ℤ◌, pos_part, leb_ℤ, ltb_ℤ, ◌≡◌, refl, ◌∙◌, inl, inr, Bool-cases,
  List, [], ◌∷◌, String, int_laws, arith,
}
use btcpay_gate.Errors.{Result, ok, err}
use btcpay_gate.Wallet.{
  Node, Wallet, reach, widened, imported, covered, cover, extended, ensure_watched, first_address,
  derived, address_at,
}
use btcpay_gate.Wallet.Reach.{reach-above, exact}
use btcpay_gate.Wallet.Watched.{KeepsWord, below}

module _ {N : Type 0} (node : Node N) (d : String) (watched : N → ℤ) (address : ℤ → String)
    (word : KeepsWord node d watched address) where
  pub record Grows {A : Type 0} (w : Wallet) (n : N) (r : Result A × Wallet × N) : Type 0 where
    pub its : r.1.descriptor ≡ w.descriptor
    pub step : r.1.step ≡ w.step
    pub gap : w.gap_end ≤ℤ r.1.gap_end
    pub watches : watched n ≤ℤ watched r.2

  widened-Grows :
      (end : ℤ) (w : Wallet) (n : N) (r : Result ℤ × N)
      → w.gap_end ≤ℤ end
      → watched n ≤ℤ watched r.1
      → Grows w n (widened node end w r)
  widened-Grows end w n (ok got, n') h k = elim (Bool-cases (ltb_ℤ end got)) [
    | inl wide ↦ rw wide (record { its = refl; step = refl; gap = ground arith; watches = k })
    | inr narrow ↦ rw narrow (record { its = refl; step = refl; gap = h; watches = k })
  ]
  widened-Grows end w n (err e, n') h k = record { its = refl; step = refl; gap = h; watches = k }

  imported-Grows :
      (end : ℤ) (w : Wallet) (n : N) (r : Result (Unit {0}) × N)
      → w.gap_end ≤ℤ end
      → watched n ≤ℤ watched r.1
      → Grows w n (imported node end w r)
  imported-Grows end w n (ok a, n') h k =
      widened-Grows end w n (node.active_range_end n') h (omega (arith, k, word.reading n'))
  imported-Grows end w n (err e, n') h k = record {
    its = refl;
    step = refl;
    gap = omega arith;
    watches = k;
  }

  covered-Grows :
      (end : ℤ) (w : Wallet) (n : N) (r : Result ℤ × N)
      → w.descriptor ≡ d
      → w.gap_end ≤ℤ end
      → watched n ≤ℤ watched r.1
      → Grows w n (covered node end w r)
  covered-Grows end w n (ok have, n') same h k = elim (Bool-cases (leb_ℤ end have)) [
    | inl enough ↦ rw enough (record { its = refl; step = refl; gap = ground arith; watches = k })
    | inr short ↦ rw short (
        imported-Grows end w n (node.import_ranged_descriptor w.descriptor (pos 0) end n') h
          (omega (arith, k, word.importing w.descriptor same (pos 0) end n')))
  ]
  covered-Grows end w n (err e, n') same h k = record {
    its = refl;
    step = refl;
    gap = omega arith;
    watches = k;
  }

  extended-Grows :
      (next : ℤ) (w : Wallet) (n : N) (r : Result (Unit {0}) × Wallet × N)
      → Grows w n r
      → Grows w n (extended node next r)
  extended-Grows next w n (ok a, w', n') g = record {
    its = g.its;
    step = g.step;
    gap = g.gap;
    watches = g.watches;
  }
  extended-Grows next w n (err e, w', n') g = record {
    its = g.its;
    step = g.step;
    gap = g.gap;
    watches = g.watches;
  }

  module _ (index : ℤ) (w : Wallet) (n : N) (same : w.descriptor ≡ d) (hg : pos 0 ≤ℤ w.gap_end)
      (hs : pos 0 <ℤ w.step) (hb : index +ℤ w.step <ℤ pos (2 ^ 63)) where
    ensure_watched-Grows : Grows w n (ensure_watched node index w n)
    unfolding ensure_watched cover
    ensure_watched-Grows = elim (Bool-cases (ltb_ℤ index w.gap_end)) [
      | inl inside ↦
          rw inside (record { its = refl; step = refl; gap = omega arith; watches = omega arith })
      | inr beyond ↦
          let next = reach (suc (pos_part index)) index w.step (w.gap_end +ℤ w.step) in
          let past =
            reach-above (suc (pos_part index)) index w.step (w.gap_end +ℤ w.step) hs
              (omega int_laws) hb (omega (int_laws, below index w.gap_end beyond))
              (omega int_laws) in
          rw
            (
              beyond,
              exact w.gap_end w.step (index +ℤ w.step) hg (omega arith)
                  (omega (int_laws, below index w.gap_end beyond)) hb,
            )
            (extended-Grows next w n (covered node next w (node.active_range_end n)) (
              covered-Grows next w n (node.active_range_end n) same
                (omega (arith, past.0, below index w.gap_end beyond)) (word.reading n)))
    ]

    first_address-Grows :
        (w' : Wallet) (n' : N) (r : Result (List String) × N)
        → Grows {A = Unit {0}} w n (ok tt, w', n')
        → watched n' ≤ℤ watched r.1
        → Grows w n (first_address node index w' r)
    first_address-Grows w' n' (ok [], n₂) g k = record {
      its = g.its;
      step = g.step;
      gap = g.gap;
      watches = omega (arith, g.watches, k);
    }
    first_address-Grows w' n' (ok (a ∷ rest), n₂) g k = record {
      its = g.its;
      step = g.step;
      gap = g.gap;
      watches = omega (arith, g.watches, k);
    }
    first_address-Grows w' n' (err e, n₂) g k = record {
      its = g.its;
      step = g.step;
      gap = g.gap;
      watches = omega (arith, g.watches, k);
    }

    derived-Grows :
        (r : Result (Unit {0}) × Wallet × N) → Grows w n r → Grows w n (derived node index r)
    derived-Grows (ok tt, w', n') g =
        first_address-Grows w' n' (node.derive_addresses w'.descriptor index index n') g
          (word.derives w'.descriptor (g.its ∙ same) index index n')
    derived-Grows (err e, w', n') g = record {
      its = g.its;
      step = g.step;
      gap = g.gap;
      watches = g.watches;
    }

    -- Whether `AddressAt` succeeds or fails, descriptor and step stay, the range does not shrink, and the node
    -- watches no less than before.
    pub address_at-Grows : Grows w n (address_at node index w n)
    unfolding address_at
    address_at-Grows = derived-Grows (ensure_watched node index w n) ensure_watched-Grows
