-- ===== src/Payments/Store/Upsert.antt =====
-- The upsert keyed on (txid, vout): what one upsert does to the rows.
use btcpay_gate.Base.{
  ◌≡◌, refl, ◌∙◌, ◌⊎◌, inl, inr, true, false, List, [], ◌∷◌, arith, All, All-imp, Bool-cases,
  eq_iff, eq_refl, eqb_ℤ_iff, if◌then◌else◌,
}
use btcpay_gate.Payments.Store.Tables.{ObservationRow, same_key, excluded, upsert}

pub same_key_self : (a : ObservationRow) → same_key a a ≡ true
unfolding same_key
same_key_self a = ground (arith, eq_refl a.txid)

same_key_symm : (a b : ObservationRow) → same_key a b ≡ same_key b a
unfolding same_key
same_key_symm a b = ground (
  arith,
  eq_iff a.txid b.txid,
  eq_iff b.txid a.txid,
  eqb_ℤ_iff a.vout b.vout,
  eqb_ℤ_iff b.vout a.vout,
)

same_key-left : (a b c : ObservationRow) → same_key a b ≡ true → same_key a c ≡ same_key b c
unfolding same_key
same_key-left a b c h = ground (arith, eq_iff a.txid b.txid, eqb_ℤ_iff a.vout b.vout)

pub same_key-right : (a b c : ObservationRow) → same_key a b ≡ true → same_key c a ≡ same_key c b
unfolding same_key
same_key-right a b c h = ground (arith, eq_iff a.txid b.txid, eqb_ℤ_iff a.vout b.vout)

pub same_key-excluded :
    (u r c : ObservationRow)
    → (same_key (excluded u r) c ≡ same_key r c) × (same_key c (excluded u r) ≡ same_key c r)
unfolding same_key excluded
same_key-excluded u r c = (refl, refl)

pub excluded_self : (u : ObservationRow) → excluded u u ≡ u
unfolding excluded
excluded_self u = refl

pub excluded-excluded : (u v r : ObservationRow) → excluded v (excluded u r) ≡ excluded v r
unfolding excluded
excluded-excluded u v r = refl

-- The primary key of the table.
abbrev pub UniqueKeys : List ObservationRow → Type 0
UniqueKeys [] = Unit
UniqueKeys (r ∷ rs) = All (λ x. same_key x r ≡ false) rs × UniqueKeys rs

-- What one upsert, and then a batch of them, does to a row that is there.
unfoldable pub touch : ObservationRow → ObservationRow → ObservationRow
touch u r = if same_key r u then excluded u r else r

unfoldable pub touch_all : List ObservationRow → ObservationRow → ObservationRow
touch_all [] r = r
touch_all (u ∷ us) r = touch_all us (touch u r)

abbrev pub upsert_rows : List ObservationRow → List ObservationRow → List ObservationRow
upsert_rows [] rows = rows
upsert_rows (u ∷ us) rows = upsert_rows us (upsert u rows)

abbrev pub NoMatch : List ObservationRow → ObservationRow → Type 0
NoMatch us r = All (λ u. same_key r u ≡ false) us

same_key-touch : (u r c : ObservationRow) → same_key (touch u r) c ≡ same_key r c
unfolding touch
same_key-touch u r c = ground (arith, same_key-excluded u r c)

-- Past an upsert of its key, a batch either has no more to say or has the last word.
pub touch_all-excluded :
    (us : List ObservationRow) (u r : ObservationRow)
    → NoMatch us r ⊎ (touch_all us (excluded u r) ≡ touch_all us r)
unfolding touch_all touch
touch_all-excluded [] u r = inl tt
touch_all-excluded (v ∷ us) u r =
    ground (arith, touch_all-excluded us u r, same_key-excluded u r v, excluded-excluded u v r)

pub upsert-keeps :
    (P : ObservationRow → Type 0) (u : ObservationRow) (rows : List ObservationRow)
    → All P rows
    → P u
    → ((r : ObservationRow) → same_key r u ≡ true → P r → P (excluded u r))
    → All P (upsert u rows)
unfolding upsert
upsert-keeps P u [] h new old = (new, tt)
upsert-keeps P u (r ∷ rows) h new old = elim (Bool-cases (same_key r u)) [
  | inl hit ↦ rw hit (old r hit h.0, h.1)
  | inr miss ↦ rw miss (h.0, upsert-keeps P u rows h.1 new old)
]

pub upsert-UniqueKeys :
    (u : ObservationRow) (rows : List ObservationRow) → UniqueKeys rows → UniqueKeys (upsert u rows)
unfolding upsert
upsert-UniqueKeys u [] h = (tt, tt)
upsert-UniqueKeys u (r ∷ rows) h = elim (Bool-cases (same_key r u)) [
  | inl hit ↦ rw hit (All-imp _ _ (λ x k. (same_key-excluded u r x).1 ∙ k) rows h.0, h.1)
  | inr miss ↦ rw miss (
    upsert-keeps (λ x. same_key x r ≡ false) u rows h.0 (same_key_symm u r ∙ miss)
        (λ x _ k. (same_key-excluded u x r).0 ∙ k),
    upsert-UniqueKeys u rows h.1,
  )
]

-- Each row that has the key of the upsert has its payload.
pub upsert-payload :
    (u : ObservationRow) (rows : List ObservationRow)
    → UniqueKeys rows
    → All (λ r. same_key r u ≡ true → excluded u r ≡ r) (upsert u rows)
unfolding upsert
upsert-payload u [] h = (λ e. excluded_self u, tt)
upsert-payload u (r ∷ rows) h = elim (Bool-cases (same_key r u)) [
  | inl hit ↦
      rw hit (
        λ e. excluded-excluded u u r,
        All-imp _ _ (λ x k e. cc (same_key-right r u x hit)) rows h.0,
      )
  | inr miss ↦ rw miss (λ e. cc, upsert-payload u rows h.1)
]
