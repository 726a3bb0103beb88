-- ===== src/Wallet/Tests.antt =====
-- A node whose state is the range that it watches, and a wallet that runs out of it.
use btcpay_gate.Base.{
  String, ℕ, Bool, ◌==◌, pos_part, ltb, ℤ, pos, ◌+ℤ◌, ◌≤ℤ◌, ◌<ℤ◌, ltb_ℤ, eqb_ℤ, ◌≡◌, ap, sym, subst,
  List, [], ◌∷◌, arith, if◌then◌else◌,
}
use btcpay_gate.Errors.{Result, ok, err}
use btcpay_gate.Wallet.{Node, Wallet, Config, reach}
use Prim.Native.String.{◌++◌ as str_append}
use btcpay_gate.Wallet.Reach.{reach-above}
use btcpay_gate.Wallet.Watched.{KeepsWord}

abbrev larger : ℤ → ℤ → ℤ
larger a b = if ltb_ℤ a b then b else a

abbrev core : Node ℤ
core = record {
  create_watch_only_wallet = λ name n. (ok tt, n);
  get_descriptor_info = λ d n. (ok d, n);
  import_ranged_descriptor = λ d from to n. (ok tt, larger n to);
  derive_addresses = λ d from to n. (ok ("bc1q" ∷ []), n);
  active_range_end = λ n. (ok n, n);
}

larger-ge : (a b : ℤ) → (a ≤ℤ larger a b) × (b ≤ℤ larger a b)
larger-ge a b = ground arith

abbrev value : Result ℤ → ℤ
value (ok n) = n
value (err e) = pos 0

answered : (n have : ℤ) → ok n ≡ ok have → have ≤ℤ n
answered n have h = subst (λ x. x ≤ℤ n) (ap value h) (omega arith)

abbrev first_of : String → Result (List String) → String
first_of b (ok (a ∷ rest)) = a
first_of b other = b

core-KeepsWord : KeepsWord core "wpkh(xpub/0/*)#x" (λ n. n) (λ i. "bc1q")
core-KeepsWord = record {
  reading = λ n. omega arith;
  truthful = λ n have h. answered n have h;
  importing = λ d same from to n. (larger-ge n to).0;
  reaching = λ d same to n h. (larger-ge n to).1;
  derives = λ d same from to n. omega arith;
  derived = λ d same from to n a rest h. sym (ap (first_of a) h);
}

abbrev wallet : Wallet
wallet = record { descriptor = "wpkh(xpub/0/*)#x"; gap_end = pos 999; step = pos 1000 }

reach-above_example :
    (pos 3000 <ℤ reach 3001 (pos 3000) (pos 1000) (pos 1999))
    × (reach 3001 (pos 3000) (pos 1000) (pos 1999) ≤ℤ pos 3000 +ℤ pos 1000)
reach-above_example =
    reach-above 3001 (pos 3000) (pos 1000) (pos 1999) (omega arith) (omega arith)
      (unfold ◌+ℤ◌ in omega arith) (unfold ◌+ℤ◌ in omega arith) (unfold ◌+ℤ◌ in omega arith)

-- The address at an index.
abbrev pub own_address : ℤ → String
own_address i = if eqb_ℤ i (pos 0) then "bc1qa" else "bc1q"

-- The node of a new wallet watches nothing, and its answers are cut off at zero.
abbrev pub fresh_core : Node ℕ
fresh_core = record {
  create_watch_only_wallet = λ name n. (ok tt, n);
  get_descriptor_info = λ d n. (ok (str_append d "#check"), n);
  import_ranged_descriptor = λ d from to n. (ok tt, if ltb n (pos_part to) then pos_part to else n);
  derive_addresses = λ d from to n. (ok (own_address from ∷ []), n);
  active_range_end = λ n. (ok (pos n), n);
}

widest :
    (n : ℕ) (to : ℤ)
    → (pos n ≤ℤ pos (if ltb n (pos_part to) then pos_part to else n))
      × (to ≤ℤ pos (if ltb n (pos_part to) then pos_part to else n))
widest n to = ground arith

pub fresh_core-KeepsWord : KeepsWord fresh_core "wpkh(xpub/0/*)#check" pos own_address
fresh_core-KeepsWord = record {
  reading = λ n. omega arith;
  truthful = λ n have h. answered (pos n) have h;
  importing = λ d same from to n. (widest n to).0;
  reaching = λ d same to n h. (widest n to).1;
  derives = λ d same from to n. omega arith;
  derived = λ d same from to n a rest h. sym (ap (first_of a) h);
}

-- A search that knows the marker of a range only.
abbrev pub has : String → String → Bool
has text part = part == "/*"

abbrev pub settings : Config
settings = record { descriptor = "wpkh(xpub/0/*)"; wallet_name = "gate"; initial_range = pos 0 }
