-- ===== src/Rpc/Wallets.antt =====
-- internal/rpc/calls.go: the calls that set up the wallet and read the range that it watches.
use btcpay_gate.Base.{
  ℤ, pos, negsuc, ◌≤ℤ◌, ltb_ℤ, eqb_ℤ, ◌≡◌, refl, ap, ◌∙◌, sym, ◌↔◌, ◌⊎◌, inl, inr, Bool, true,
  false, not, ◌||◌, Option, none, some, List, [], ◌∷◌, All, Any, String, arith, Bool-cases,
  if◌then◌else◌,
}
use btcpay_gate.Errors.{Error, rpc_error, message, as_rpc_error, Result, ok, err}

-- `contains` is `strings.Contains` on the message in lower case.
module _ (contains : String → String → Bool) where
  abbrev code_or_text : ℤ → String → Option (ℤ × String) → Bool
  code_or_text code part none = false
  code_or_text code part (some (c, text)) = eqb_ℤ c code || contains text part

  -- `isAlreadyExists`: -4.
  unfoldable pub is_already_exists : Error → Bool
  is_already_exists e = code_or_text (negsuc 3) "already exists" (as_rpc_error e)

  -- `isAlreadyLoaded`: -35, RPC_WALLET_ALREADY_LOADED.
  unfoldable pub is_already_loaded : Error → Bool
  is_already_loaded e = code_or_text (negsuc 34) "already loaded" (as_rpc_error e)

  module _ {N : Type 0} (create load : N → Result (Unit {0}) × N) where
    abbrev after_load : Result (Unit {0}) × N → Result (Unit {0}) × N
    after_load (ok a, n) = (ok a, n)
    after_load (err e, n) = if is_already_loaded e then (ok tt, n) else (err e, n)

    abbrev after_create : Result (Unit {0}) × N → Result (Unit {0}) × N
    after_create (ok a, n) = (ok a, n)
    after_create (err e, n) = if is_already_exists e then after_load (load n) else (err e, n)

    -- `CreateWatchOnlyWallet`, on the calls createwallet and loadwallet.
    unfoldable pub create_watch_only_wallet : N → Result (Unit {0}) × N
    create_watch_only_wallet n = after_create (create n)

    -- loadwallet left the wallet loaded.
    abbrev pub IsLoaded : Result (Unit {0}) → Type 0
    IsLoaded (ok a) = Unit
    IsLoaded (err e) = is_already_loaded e ≡ true

    -- createwallet made the wallet, or it existed and loadwallet left it loaded.
    abbrev IsReady : Result (Unit {0}) × N → Type 0
    IsReady (ok a, n) = Unit
    IsReady (err e, n) = (is_already_exists e ≡ true) × IsLoaded (load n).0

    after_load_iff : (r : Result (Unit {0}) × N) → ((after_load r).0 ≡ ok tt) ↔ IsLoaded r.0
    after_load_iff (ok tt, n) = (λ h. tt, λ h. refl)
    after_load_iff (err e, n) = elim (Bool-cases (is_already_loaded e)) [
      | inl yes_loaded ↦ rw yes_loaded (λ h. refl, λ h. refl)
      | inr other ↦ rw other (λ h. cc, λ h. cc)
    ]

    after_create_iff : (r : Result (Unit {0}) × N) → ((after_create r).0 ≡ ok tt) ↔ IsReady r
    after_create_iff (ok tt, n) = (λ h. tt, λ h. refl)
    after_create_iff (err e, n) = elim (Bool-cases (is_already_exists e)) [
      | inl there ↦ let l = after_load_iff (load n) in rw there (λ h. (refl, l.0 h), λ h. l.1 h.1)
      | inr other ↦ rw other (λ h. cc, λ h. cc)
    ]

    -- `CreateWatchOnlyWallet` succeeds exactly when createwallet made the wallet, or when it
    -- said that the wallet exists and loadwallet succeeded or said that it is loaded.
    create_watch_only_wallet_iff :
        (n : N) → ((create_watch_only_wallet n).0 ≡ ok tt) ↔ IsReady (create n)
    create_watch_only_wallet_iff n = unfold create_watch_only_wallet in after_create_iff (create n)

-- `descriptorEntry`, on what is read of it.
pub record DescriptorEntry : Type 0 where
  pub active : Bool
  pub is_internal : Bool
  pub range : Option (List ℤ)

abbrev second_of : List ℤ → Option ℤ
second_of (a ∷ b ∷ []) = some b
second_of other = none

abbrev range_of : Option (List ℤ) → Option ℤ
range_of none = none
range_of (some r) = second_of r

-- The end that an entry counts with, if it does.
unfoldable pub end_of : DescriptorEntry → Option ℤ
end_of d = if not d.active || d.is_internal then none else range_of d.range

abbrev later : ℤ → Option ℤ → ℤ
later end none = end
later end (some r) = if ltb_ℤ end r then r else end

-- The loop of `ActiveRangeEnd`.
unfoldable pub range_end_from : ℤ → List DescriptorEntry → ℤ
range_end_from end [] = end
range_end_from end (d ∷ ds) = range_end_from (later end (end_of d)) ds

-- `ActiveRangeEnd`, on the answer of listdescriptors.
unfoldable pub active_range_end : Result (List DescriptorEntry) → Result ℤ
active_range_end (ok ds) = ok (range_end_from (pos 0) ds)
active_range_end (err e) = err e

-- The entry counts with no end past this one.
abbrev pub IsWithin : ℤ → Option ℤ → Type 0
IsWithin end none = Unit
IsWithin end (some r) = r ≤ℤ end

later-ge : (end : ℤ) (o : Option ℤ) → (end ≤ℤ later end o) × IsWithin (later end o) o
later-ge end none = (omega arith, tt)
later-ge end (some r) = ground arith

later-attained : (end : ℤ) (o : Option ℤ) → (later end o ≡ end) ⊎ (o ≡ some (later end o))
later-attained end none = inl refl
later-attained end (some r) = elim (Bool-cases (ltb_ℤ end r)) [
  | inl past ↦ rw past (inr refl)
  | inr below ↦ rw below (inl refl)
]

IsWithin-mono : (a b : ℤ) (o : Option ℤ) → a ≤ℤ b → IsWithin a o → IsWithin b o
IsWithin-mono a b none h k = tt
IsWithin-mono a b (some r) h k = omega (arith, h, k)

range_end_from-bound :
    (end : ℤ) (ds : List DescriptorEntry)
    → (end ≤ℤ range_end_from end ds) × All (λ d. IsWithin (range_end_from end ds) (end_of d)) ds
unfolding range_end_from
range_end_from-bound end [] = (omega arith, tt)
range_end_from-bound end (d ∷ ds) =
    let h = range_end_from-bound (later end (end_of d)) ds in
    let l = later-ge end (end_of d) in
    (omega (arith, h.0, l.0), (IsWithin-mono _ _ (end_of d) h.0 l.1, h.1))

range_end_from-attained :
    (end : ℤ) (ds : List DescriptorEntry)
    → (range_end_from end ds ≡ end) ⊎ Any (λ d. end_of d ≡ some (range_end_from end ds)) ds
unfolding range_end_from
range_end_from-attained end [] = inl refl
range_end_from-attained end (d ∷ ds) = elim (range_end_from-attained (later end (end_of d)) ds) [
  | inr found ↦ inr (inr found)
  | inl same ↦ elim (later-attained end (end_of d)) [
    | inl kept ↦ inl (same ∙ kept)
    | inr here ↦ inr (inl (here ∙ ap some (sym same)))
  ]
]

-- The end that `ActiveRangeEnd` answers is that of the widest range: no active receiving entry
-- with a range ends past it, and it is 0 or the end of one of them.
pub range_end_widest :
    (ds : List DescriptorEntry)
    → let end = range_end_from (pos 0) ds in
      All (λ d. IsWithin end (end_of d)) ds × ((end ≡ pos 0) ⊎ Any (λ d. end_of d ≡ some end) ds)
range_end_widest ds = ((range_end_from-bound (pos 0) ds).1, range_end_from-attained (pos 0) ds)

-- `ImportResult`.
pub record ImportResult : Type 0 where
  pub success : Bool
  pub error : Option (ℤ × String)

abbrev import_error : Option (ℤ × String) → Error
import_error none = message "importdescriptors: not successful"
import_error (some (code, text)) = rpc_error code text

abbrev pub all_imported : List ImportResult → Result (Unit {0})
all_imported [] = ok tt
all_imported (r ∷ rs) =
    let rest = all_imported rs in if not r.success then err (import_error r.error) else rest

-- `ImportRangedDescriptor`, on the answer of importdescriptors.
unfoldable pub import_ranged_descriptor : Result (List ImportResult) → Result (Unit {0})
import_ranged_descriptor (ok rs) = all_imported rs
import_ranged_descriptor (err e) = err e
