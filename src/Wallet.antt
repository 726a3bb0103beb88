-- ===== src/Wallet.antt =====
-- internal/wallet/wallet.go: addresses derived by index, and the range that the node watches.
pub mod Reach
pub mod Watched
pub mod Opening
pub mod Grows
pub mod Tests
use btcpay_gate.Base.{
  ℕ, zero, suc, ℤ, pos, ◌+ℤ◌, pos_part, leb_ℤ, ltb_ℤ, Bool, true, false, not, ◌||◌, List, [], ◌∷◌,
  String, if◌then◌else◌,
}
use Prim.Native.String.{◌++◌ as str_append}
use btcpay_gate.Base.Word.{wrap64}
use btcpay_gate.Base.Decimal.{format_int}
use btcpay_gate.Errors.{Error, message, wrapped, Result, ok, err}

-- `Node`, over whatever states the node has.
pub record Node (N : Type 0) : Type 0 where
  pub create_watch_only_wallet : String → N → Result (Unit {0}) × N
  pub get_descriptor_info : String → N → Result String × N
  pub import_ranged_descriptor : String → ℤ → ℤ → N → Result (Unit {0}) × N
  pub derive_addresses : String → ℤ → ℤ → N → Result (List String) × N
  pub active_range_end : N → Result ℤ × N

pub record Wallet : Type 0 where
  pub descriptor : String
  pub gap_end : ℤ
  pub step : ℤ

pub record Config : Type 0 where
  pub descriptor : String
  pub wallet_name : String
  pub initial_range : ℤ

-- The loop of `ensureWatched`, at most as many rounds as the first argument says.
unfoldable pub reach : ℕ → ℤ → ℤ → ℤ → ℤ
reach zero index step next = next
reach (suc rounds) index step next =
    let further = reach rounds index step (wrap64 (next +ℤ step)) in
    if leb_ℤ next index then further else next

module _ {N : Type 0} (node : Node N) where
  -- The second reading of the range: it may only widen what was asked for.
  abbrev pub widened : ℤ → Wallet → Result ℤ × N → Result (Unit {0}) × Wallet × N
  widened end w (ok after, n) =
      (ok tt, record w { gap_end = if ltb_ℤ end after then after else end }, n)
  widened end w (err e, n) = (ok tt, record w { gap_end = end }, n)

  abbrev pub imported : ℤ → Wallet → Result (Unit {0}) × N → Result (Unit {0}) × Wallet × N
  imported end w (ok a, n) = widened end w (node.active_range_end n)
  imported end w (err e, n) = (err e, w, n)

  abbrev pub covered : ℤ → Wallet → Result ℤ × N → Result (Unit {0}) × Wallet × N
  covered end w (ok have, n) =
      if leb_ℤ end have
      then (ok tt, record w { gap_end = have }, n)
      else imported end w (node.import_ranged_descriptor w.descriptor (pos 0) end n)
  covered end w (err e, n) = (err (wrapped "read watched range" e), w, n)

  -- `cover`.
  unfoldable pub cover : ℤ → Wallet → N → Result (Unit {0}) × Wallet × N
  cover end w n = covered end w (node.active_range_end n)

  abbrev pub extended : ℤ → Result (Unit {0}) × Wallet × N → Result (Unit {0}) × Wallet × N
  extended next (ok a, w, n) = (ok a, w, n)
  extended next (err e, w, n) =
      (err (wrapped (str_append "extend watched range to " (format_int next)) e), w, n)

  -- `ensureWatched`; one round more than the index is enough for the loop.
  unfoldable pub ensure_watched : ℤ → Wallet → N → Result (Unit {0}) × Wallet × N
  ensure_watched index w n =
      let next = reach (suc (pos_part index)) index w.step (wrap64 (w.gap_end +ℤ w.step)) in
      if ltb_ℤ index w.gap_end then (ok tt, w, n) else extended next (cover next w n)

  abbrev pub first_address : ℤ → Wallet → Result (List String) × N → Result String × Wallet × N
  first_address index w (ok [], n) = (
    err (
        message
          (str_append "derive address " (str_append (format_int index) ": node returned nothing"))),
    w,
    n,
  )
  first_address index w (ok (a ∷ rest), n) = (ok a, w, n)
  first_address index w (err e, n) =
      (err (wrapped (str_append "derive address " (format_int index)) e), w, n)

  abbrev pub derived : ℤ → Result (Unit {0}) × Wallet × N → Result String × Wallet × N
  derived index (ok a, w, n) =
      first_address index w (node.derive_addresses w.descriptor index index n)
  derived index (err e, w, n) = (err e, w, n)

  -- `AddressAt`.
  unfoldable pub address_at : ℤ → Wallet → N → Result String × Wallet × N
  address_at index w n = derived index (ensure_watched index w n)

  abbrev pub opened : Result (Unit {0}) × Wallet × N → Result Wallet × N
  opened (ok a, w, n) = (ok w, n)
  opened (err e, w, n) = (err (wrapped "import descriptor" e), n)

  abbrev pub described : ℤ → Result String × N → Result Wallet × N
  described range (ok descriptor, n) =
      opened (cover range (record { descriptor = descriptor; gap_end = pos 0; step = range }) n)
  described range (err e, n) = (err (wrapped "descriptor info" e), n)

  abbrev pub prepared : Config → ℤ → Result (Unit {0}) × N → Result Wallet × N
  prepared cfg range (ok a, n) = described range (node.get_descriptor_info cfg.descriptor n)
  prepared cfg range (err e, n) = (err (wrapped "create watch-only wallet" e), n)

  -- `Open`; `contains` is `strings.Contains`.
  unfoldable pub open_wallet :
      (String → String → Bool) → (String → String) → Config → N → Result Wallet × N
  open_wallet contains quote cfg n =
      let range = if leb_ℤ cfg.initial_range (pos 0) then pos 1000 else cfg.initial_range in
      if not (contains cfg.descriptor "/*")
      then (
        err (
            message
              (str_append "descriptor must be ranged (contain /*), got " (quote cfg.descriptor))),
        n,
      )
      else if contains cfg.descriptor "xprv" || contains cfg.descriptor "tprv"
      then (
        err (message "descriptor contains a private key; this service must only ever see an xpub"),
        n,
      )
      else prepared cfg range (node.create_watch_only_wallet cfg.wallet_name n)
