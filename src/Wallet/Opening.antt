-- ===== src/Wallet/Opening.antt =====
-- A wallet that opens: watch-only, ranged, and covered up to its first range.
use btcpay_gate.Base.{
  ℤ, pos, ◌≤ℤ◌, ◌<ℤ◌, leb_ℤ, ◌||◌, ◌≡◌, refl, Bool, true, false, inl, inr, Bool-cases, String,
  arith, if◌then◌else◌,
}
use btcpay_gate.Errors.{Result, ok, err}
use btcpay_gate.Wallet.{
  Node, Wallet, Config, widened, imported, covered, cover, opened, described, prepared, open_wallet,
}
use btcpay_gate.Wallet.Watched.{KeepsWord, Sane, Done, cover-Done}

module _ {N : Type 0} (node : Node N) where
  widened-step : (end : ℤ) (w : Wallet) (r : Result ℤ × N) → (widened node end w r).1.step ≡ w.step
  widened-step end w (ok after, n) = refl
  widened-step end w (err e, n) = refl

  imported-step :
      (end : ℤ) (w : Wallet) (r : Result (Unit {0}) × N) → (imported node end w r).1.step ≡ w.step
  imported-step end w (ok a, n) = widened-step end w (node.active_range_end n)
  imported-step end w (err e, n) = refl

  covered-step : (end : ℤ) (w : Wallet) (r : Result ℤ × N) → (covered node end w r).1.step ≡ w.step
  covered-step end w (ok have, n) = elim (Bool-cases (leb_ℤ end have)) [
    | inl enough ↦ rw enough refl
    | inr short ↦ rw short (imported-step end w _)
  ]
  covered-step end w (err e, n) = refl

-- The tests of the descriptor.
pub record IsPublic (contains : String → String → Bool) (descriptor : String) : Type 0 where
  pub is_ranged : contains descriptor "/*" ≡ true
  pub no_xprv : contains descriptor "xprv" ≡ false
  pub no_tprv : contains descriptor "tprv" ≡ false

module _ {N : Type 0} (node : Node N) (d : String) (watched : N → ℤ) (address : ℤ → String)
    (word : KeepsWord node d watched address) where
  -- How `Open` may end.
  abbrev pub Opened : (String → String → Bool) → String → Result Wallet × N → Type 0
  Opened contains descriptor (ok w, n) =
      IsPublic contains descriptor
      × (pos 0 <ℤ w.step)
      × (w.step ≤ℤ w.gap_end)
      × Sane node d watched address word w n
  Opened contains descriptor (err e, n) = Unit

  module _ (contains : String → String → Bool) (quote : String → String) (cfg : Config)
      (watching : (n : N) → pos 0 ≤ℤ watched n)
      (canonical : (n : N) (e : String)
        → (node.get_descriptor_info cfg.descriptor n).0 ≡ ok e
        → e ≡ d) where
    opened-Opened :
        (range : ℤ) (r : Result (Unit {0}) × Wallet × N)
        → IsPublic contains cfg.descriptor
        → pos 0 <ℤ range
        → r.1.step ≡ range
        → Done node d watched address word range r
        → Opened contains cfg.descriptor (opened node r)
    opened-Opened range (ok a, w, n) good wide same h = (good, rw same wide, rw same h.0, h.1)
    opened-Opened range (err e, w, n) good wide same h = tt

    described-Opened :
        (range : ℤ) (r : Result String × N)
        → IsPublic contains cfg.descriptor
        → pos 0 <ℤ range
        → ((e : String) → r.0 ≡ ok e → e ≡ d)
        → Opened contains cfg.descriptor (described node range r)
    described-Opened range (ok e, n) good wide its =
        let w : Wallet = record { descriptor = e; gap_end = pos 0; step = range } in
        opened-Opened range (cover node range w n) good wide
          (unfold cover in covered-step node range w (node.active_range_end n))
          (cover-Done node d watched address word range w n (its e refl, watching n))
    described-Opened range (err e, n) good wide its = tt

    prepared-Opened :
        (range : ℤ) (r : Result (Unit {0}) × N)
        → IsPublic contains cfg.descriptor
        → pos 0 <ℤ range
        → Opened contains cfg.descriptor (prepared node cfg range r)
    prepared-Opened range (ok a, n) good wide =
        described-Opened range (node.get_descriptor_info cfg.descriptor n) good wide (canonical n)
    prepared-Opened range (err e, n) good wide = tt

    range_positive : (r : ℤ) → pos 0 <ℤ (if leb_ℤ r (pos 0) then pos 1000 else r)
    range_positive r = ground arith

    either : (a b : Bool) → (a || b) ≡ false → (a ≡ false) × (b ≡ false)
    either a b h = ground arith

    -- If the node keeps its word on the descriptor that it completes the configured one to, and
    -- never watches less than nothing, a wallet that `Open` returns is of that descriptor, comes from a ranged descriptor without a private key, has a positive step, covers
    -- at least that many addresses, and believes no more than the node watches.
    pub open_wallet-Opened :
        (n : N) → Opened contains cfg.descriptor (open_wallet node contains quote cfg n)
    unfolding open_wallet
    open_wallet-Opened n = elim (Bool-cases (contains cfg.descriptor "/*")) [
      | inr flat ↦ rw flat tt
      | inl ranged ↦
          rw ranged
            (elim (Bool-cases (contains cfg.descriptor "xprv" || contains cfg.descriptor "tprv")) [
              | inl secret ↦ rw secret tt
              | inr open_key ↦
                  let clean = either _ _ open_key in
                  rw open_key (
                    prepared-Opened _ (node.create_watch_only_wallet cfg.wallet_name n)
                      (record { is_ranged = ranged; no_xprv = clean.0; no_tprv = clean.1 })
                      (range_positive cfg.initial_range))
            ])
    ]
