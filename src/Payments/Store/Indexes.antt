-- ===== src/Payments/Store/Indexes.antt =====
-- `NextDerivIndex`: the index that it hands out is above every index in use.
use btcpay_gate.Base.{
  ℤ, ◌≡◌, sym, subst, Option, none, some, List, [], ◌∷◌, String, if◌then◌else◌, arith, All, All-imp,
}
use btcpay_gate.Errors.{ok}
use btcpay_gate.Payments.Store.Tables.{InvoiceRow, Tables}
use btcpay_gate.Payments.Store.Sql.{Conn}
use btcpay_gate.Base.{ltb_ℤ, pos, ◌+ℤ◌, ◌≤ℤ◌, ◌<ℤ◌, int_laws, negsuc}
use btcpay_gate.Base.Word.{wrap64, wrap64_id, IsInt64}
use btcpay_gate.Time.{max_int64}
use btcpay_gate.Payments.Store.Tables.{max_deriv_index, max_from}
use btcpay_gate.Payments.Store.Ops.{next_deriv_index, next_of}
use btcpay_gate.Payments.Store.Sql.{query}

max_from-ge :
    (m : ℤ) (rs : List InvoiceRow)
    → (m ≤ℤ max_from m rs) × All (λ r. r.deriv_index ≤ℤ max_from m rs) rs
max_from-ge m [] = (omega arith, tt)
max_from-ge m (r ∷ rs) =
    ground (arith, max_from-ge (if ltb_ℤ m r.deriv_index then r.deriv_index else m) rs)

max_from-below :
    (b m : ℤ) (rs : List InvoiceRow)
    → m <ℤ b
    → All (λ r. r.deriv_index <ℤ b) rs
    → max_from m rs <ℤ b
max_from-below b m [] h k = h
max_from-below b m (r ∷ rs) h k =
    max_from-below b (if ltb_ℤ m r.deriv_index then r.deriv_index else m) rs (ground arith) k.1

-- An index that the table has room for.
abbrev InRange : ℤ → Type 0
InRange i = (pos 0 ≤ℤ i) × (i <ℤ max_int64)

next-exact : (m : ℤ) → pos 0 ≤ℤ m → m <ℤ max_int64 → wrap64 (m +ℤ pos 1) ≡ m +ℤ pos 1
unfolding ◌+ℤ◌
next-exact m low high = wrap64_id (m +ℤ pos 1) (fits m low high)
  where
    fits : (k : ℤ) → pos 0 ≤ℤ k → k <ℤ max_int64 → IsInt64 (k +ℤ pos 1)
    fits (pos k) l h = (ground arith, ground arith)
    fits (negsuc k) l h = absurd (omega arith)

next-above :
    (rs : List InvoiceRow)
    → All (λ r. InRange r.deriv_index) rs
    → All (λ r. r.deriv_index <ℤ next_of (max_deriv_index rs)) rs
unfolding max_deriv_index
next-above [] h = tt
next-above (r ∷ rs) h =
    let top = max_from r.deriv_index rs in
    let bound = max_from-ge r.deriv_index rs in
    let low : pos 0 ≤ℤ top = omega (arith, h.0.0, bound.0) in
    let high = max_from-below max_int64 r.deriv_index rs h.0.1 (All-imp _ _ (λ x k. k.1) rs h.1) in
    subst (λ (z : ℤ). (r.deriv_index <ℤ z) × All (λ x. x.deriv_index <ℤ z) rs)
      (sym (next-exact top low high))
      (omega (int_laws, bound.0), All-imp _ _ (λ x k. omega (int_laws, k)) rs bound.1)

next_index-above :
    (c : Conn) (n : ℤ)
    → (next_deriv_index c).0 ≡ ok n
    → n ≡ next_of (max_deriv_index c.tables.invoices)
unfolding next_deriv_index query
next_index-above c n h = from c.faults c.tables h
  where
    from :
        (fs : List (Option String)) (t : Tables)
        → (next_deriv_index (record { tables = t; faults = fs })).0 ≡ ok n
        → n ≡ next_of (max_deriv_index t.invoices)
    from [] t e = cc
    from (none ∷ fs) t e = cc
    from (some x ∷ fs) t e = cc

-- Where every index in use is at least 0 and below the largest int64, the index that
-- `NextDerivIndex` returns is above each of them, so no two invoices share one.
pub next_deriv_index_fresh :
    (c : Conn) (n : ℤ)
    → All (λ r. (pos 0 ≤ℤ r.deriv_index) × (r.deriv_index <ℤ max_int64)) c.tables.invoices
    → (next_deriv_index c).0 ≡ ok n
    → All (λ r. r.deriv_index <ℤ n) c.tables.invoices
next_deriv_index_fresh c n h e = rw (next_index-above c n e) (next-above c.tables.invoices h)

next-within :
    (b : ℤ) (rs : List InvoiceRow)
    → pos 0 ≤ℤ b
    → b ≤ℤ max_int64
    → All (λ r. (pos 0 ≤ℤ r.deriv_index) × (r.deriv_index <ℤ b)) rs
    → (pos 0 ≤ℤ next_of (max_deriv_index rs)) × (next_of (max_deriv_index rs) ≤ℤ b)
unfolding max_deriv_index
next-within b [] low high h = (omega arith, low)
next-within b (r ∷ rs) low high h =
    let top = max_from r.deriv_index rs in
    let bound = max_from-ge r.deriv_index rs in
    let far = max_from-below b r.deriv_index rs h.0.1 (All-imp _ _ (λ x k. k.1) rs h.1) in
    subst (λ (z : ℤ). (pos 0 ≤ℤ z) × (z ≤ℤ b))
      (sym (next-exact top (omega (arith, h.0.0, bound.0)) (omega (arith, far, high))))
      (omega (int_laws, h.0.0, bound.0), omega (int_laws, far))

-- Where every index in use is at least 0 and below some bound, the index that `NextDerivIndex`
-- returns is at least 0 and no larger than the bound.
pub next_deriv_index_within :
    (c : Conn) (n b : ℤ)
    → pos 0 ≤ℤ b
    → b ≤ℤ max_int64
    → All (λ r. (pos 0 ≤ℤ r.deriv_index) × (r.deriv_index <ℤ b)) c.tables.invoices
    → (next_deriv_index c).0 ≡ ok n
    → (pos 0 ≤ℤ n) × (n ≤ℤ b)
next_deriv_index_within c n b low high h e =
    rw (next_index-above c n e) (next-within b c.tables.invoices low high h)
