-- ===== src/Payments/Store/Batch.antt =====
-- A batch of upserts: running it a second time changes no row.
use btcpay_gate.Base.{
  ◌≡◌, refl, sym, ap, ◌∙◌, inl, inr, true, false, List, [], ◌∷◌, map, arith, All, Any, All-imp,
  All-and, All-always, Bool-cases, if◌then◌else◌,
}
use btcpay_gate.Payments.Store.Tables.{ObservationRow, same_key, excluded, upsert}
use btcpay_gate.Payments.Store.Upsert.{
  same_key_self, same_key-right, same_key-excluded, UniqueKeys, touch, touch_all, upsert_rows,
  NoMatch, touch_all-excluded, upsert-keeps, upsert-UniqueKeys, upsert-payload,
}

-- What holds before a batch of every row that the batch does not name holds after it.
upsert_rows-untouched :
    (us : List ObservationRow) (Q : ObservationRow → Type 0) (rows : List ObservationRow)
    → All Q rows
    → All (λ r. NoMatch us r → Q r) (upsert_rows us rows)
upsert_rows-untouched [] Q rows h = All-imp Q _ (λ r q _. q) rows h
upsert_rows-untouched (u ∷ us) Q rows h =
    All-imp _ _ (λ r k n. k n.1 n.0) _
      (upsert_rows-untouched us (λ r. same_key r u ≡ false → Q r) (upsert u rows)
        (upsert-keeps (λ r. same_key r u ≡ false → Q r) u rows (All-imp Q _ (λ r q _. q) rows h)
          (λ e. cc (same_key_self u)) (λ r hit q e. cc (same_key-excluded u r u).0)))

-- After a batch, going over a row with it once more changes nothing.
upsert_rows-fixed :
    (us rows : List ObservationRow)
    → UniqueKeys rows
    → All (λ r. touch_all us r ≡ r) (upsert_rows us rows)
unfolding touch_all touch
upsert_rows-fixed [] rows h = All-always _ (λ r. refl) rows
upsert_rows-fixed (u ∷ us) rows h = All-imp _ _ settled (upsert_rows us (upsert u rows)) (
    All-and _ _ (upsert_rows us (upsert u rows))
      (upsert_rows-fixed us (upsert u rows) (upsert-UniqueKeys u rows h))
      (upsert_rows-untouched us (λ r. same_key r u ≡ true → excluded u r ≡ r) (upsert u rows)
        (upsert-payload u rows h)))
  where
    settled :
        (r : ObservationRow)
        → (touch_all us r ≡ r) × (NoMatch us r → same_key r u ≡ true → excluded u r ≡ r)
        → touch_all us (if same_key r u then excluded u r else r) ≡ r
    settled r (fixed, last) = elim (Bool-cases (same_key r u)) [
      | inl hit ↦ rw hit (elim (touch_all-excluded us u r) [
        | inl none_later ↦ ap (touch_all us) (last none_later hit) ∙ fixed
        | inr overwritten ↦ overwritten ∙ fixed
      ])
      | inr miss ↦ rw miss fixed
    ]

-- The table has a row with the key.
abbrev HasKey : ObservationRow → List ObservationRow → Type 0
HasKey u rows = Any (λ r. same_key r u ≡ true) rows

HasKey-upsert_self : (u : ObservationRow) (rows : List ObservationRow) → HasKey u (upsert u rows)
unfolding upsert
HasKey-upsert_self u [] = inl (same_key_self u)
HasKey-upsert_self u (r ∷ rows) = ground (arith, same_key-excluded u r u, HasKey-upsert_self u rows)

HasKey-upsert :
    (k u : ObservationRow) (rows : List ObservationRow) → HasKey k rows → HasKey k (upsert u rows)
unfolding upsert
HasKey-upsert k u [] h = absurd h
HasKey-upsert k u (r ∷ rows) h = ground (arith, same_key-excluded u r k, HasKey-upsert k u rows)

HasKey-upsert_rows :
    (k : ObservationRow) (us rows : List ObservationRow)
    → HasKey k rows
    → HasKey k (upsert_rows us rows)
HasKey-upsert_rows k [] rows h = h
HasKey-upsert_rows k (u ∷ us) rows h =
    HasKey-upsert_rows k us (upsert u rows) (HasKey-upsert k u rows h)

-- After a batch the table has every key of the batch.
upsert_rows-HasKeys : (us rows : List ObservationRow) → All (λ u. HasKey u (upsert_rows us rows)) us
upsert_rows-HasKeys [] rows = tt
upsert_rows-HasKeys (u ∷ us) rows = (
  HasKey-upsert_rows u us (upsert u rows) (HasKey-upsert_self u rows),
  upsert_rows-HasKeys us (upsert u rows),
)

pub upsert_rows-UniqueKeys :
    (us rows : List ObservationRow) → UniqueKeys rows → UniqueKeys (upsert_rows us rows)
upsert_rows-UniqueKeys [] rows h = h
upsert_rows-UniqueKeys (u ∷ us) rows h =
    upsert_rows-UniqueKeys us (upsert u rows) (upsert-UniqueKeys u rows h)

map-touch_miss :
    (u : ObservationRow) (rows : List ObservationRow)
    → All (λ r. same_key r u ≡ false) rows
    → map (touch u) rows ≡ rows
unfolding touch
map-touch_miss u [] h = refl
map-touch_miss u (r ∷ rows) h = ground (arith, map-touch_miss u rows h.1)

-- Where the key is there, an upsert touches its row.
upsert-touch :
    (u : ObservationRow) (rows : List ObservationRow)
    → UniqueKeys rows
    → HasKey u rows
    → upsert u rows ≡ map (touch u) rows
unfolding upsert touch
upsert-touch u [] h k = absurd k
upsert-touch u (r ∷ rows) h k = elim (Bool-cases (same_key r u)) [
  | inl hit ↦ rw hit (
      ap (λ xs. excluded u r ∷ xs)
        (sym (
          map-touch_miss u rows
            (All-imp _ _ (λ x m. sym (same_key-right r u x hit) ∙ m) rows h.0))))
  | inr miss ↦ rw miss (ap (λ xs. r ∷ xs) (upsert-touch u rows h.1 (ground arith)))
]

map-touch_all :
    (us : List ObservationRow) (u : ObservationRow) (rows : List ObservationRow)
    → map (touch_all us) (map (touch u) rows) ≡ map (touch_all (u ∷ us)) rows
unfolding touch_all
map-touch_all us u [] = refl
map-touch_all us u (r ∷ rows) = ap (λ xs. touch_all us (touch u r) ∷ xs) (map-touch_all us u rows)

map-fixed :
    (f : ObservationRow → ObservationRow) (rows : List ObservationRow)
    → All (λ r. f r ≡ r) rows
    → map f rows ≡ rows
map-fixed f [] h = refl
map-fixed f (r ∷ rows) h = λ i. h.0 i ∷ map-fixed f rows h.1 i

-- Where every key is there, a batch touches row by row.
upsert_rows-touch :
    (us rows : List ObservationRow)
    → UniqueKeys rows
    → All (λ u. HasKey u rows) us
    → upsert_rows us rows ≡ map (touch_all us) rows
upsert_rows-touch [] rows h k = sym (
    map-fixed (touch_all []) rows
      (All-always (λ r. touch_all [] r ≡ r) (λ r. unfold touch_all in refl) rows))
upsert_rows-touch (u ∷ us) rows h k =
    upsert_rows-touch us (upsert u rows) (upsert-UniqueKeys u rows h)
      (All-imp _ _ (λ v m. HasKey-upsert v u rows m) us k.1)
    ∙ (ap (map (touch_all us)) (upsert-touch u rows h k.0) ∙ map-touch_all us u rows)

-- A batch of upserts run a second time leaves the table as the first run left it.
pub upsert_rows_idem :
    (us rows : List ObservationRow)
    → UniqueKeys rows
    → upsert_rows us (upsert_rows us rows) ≡ upsert_rows us rows
upsert_rows_idem us rows h =
    upsert_rows-touch us (upsert_rows us rows) (upsert_rows-UniqueKeys us rows h)
      (upsert_rows-HasKeys us rows)
    ∙ map-fixed (touch_all us) (upsert_rows us rows) (upsert_rows-fixed us rows h)
