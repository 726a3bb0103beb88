-- ===== src/Monitor/Removed.antt =====
-- Transactions that left the chain: removed[] has the last word on an observation.
use btcpay_gate.Base.{
  ℤ, pos, ◌≡◌, refl, ap, ◌∙◌, sym, subst, Bool, true, false, List, [], ◌∷◌, ◌++◌, Option, none,
  some, String, All, All-imp, arith, if◌then◌else◌,
}
use btcpay_gate.Errors.{Result, ok}
use btcpay_gate.Rpc.Amounts.{Float64}
use btcpay_gate.Rpc.SinceBlock.{Transaction, SinceBlock, is_receive}
use btcpay_gate.Payments.State.{Invoice}
use btcpay_gate.Payments.Store.Tables.{ObservationRow, Tables, same_key, excluded, upsert}
use btcpay_gate.Payments.Store.Sql.{Conn}
use btcpay_gate.Payments.Store.Ops.{ObservationUpdate, observation_row, or_empty}
use btcpay_gate.Payments.Store.Spec.{upserted}
use btcpay_gate.Payments.Store.Upsert.{UniqueKeys, upsert-keeps, upsert-payload, upsert-UniqueKeys}
use btcpay_gate.Payments.Store.Invariant.{IsValid, upserted-UniqueKeys}
use btcpay_gate.Monitor.{observed, add_observation, poll}
use btcpay_gate.Monitor.Mapping.{by_address, mapped_to, batch}
use btcpay_gate.Monitor.Poll.{Polled, poll_all_or_nothing}

abbrev IsGone : ObservationUpdate → Type 0
IsGone u = u.observation.removed ≡ true

-- A row with the key of `k` is marked as removed.
abbrev pub IsMarked : ObservationRow → ObservationRow → Type 0
IsMarked k r = same_key r k ≡ true → r.removed ≡ pos 1

observation_row-IsGone : (u : ObservationUpdate) → IsGone u → (observation_row u).removed ≡ pos 1
unfolding observation_row
observation_row-IsGone u h = rw h refl

upsert-IsMarked :
    (k : ObservationRow) (u : ObservationUpdate) (rows : List ObservationRow)
    → IsGone u
    → All (IsMarked k) rows
    → All (IsMarked k) (upsert (observation_row u) rows)
upsert-IsMarked k u rows gone h =
    upsert-keeps (IsMarked k) (observation_row u) rows h (λ _. observation_row-IsGone u gone)
      (λ r _ _ _. unfold excluded in observation_row-IsGone u gone)

upserted-IsMarked :
    (k : ObservationRow) (us : List ObservationUpdate) (rows : List ObservationRow)
    → All IsGone us
    → All (IsMarked k) rows
    → All (IsMarked k) (upserted us rows)
upserted-IsMarked k [] rows gone h = h
upserted-IsMarked k (u ∷ us) rows gone h =
    upserted-IsMarked k us _ gone.1 (upsert-IsMarked k u rows gone.0 h)

upserted-marks :
    (us : List ObservationUpdate) (rows : List ObservationRow)
    → UniqueKeys rows
    → All IsGone us
    → All (λ u. All (IsMarked (observation_row u)) (upserted us rows)) us
upserted-marks [] rows unique gone = tt
upserted-marks (u ∷ us) rows unique gone = (
  upserted-IsMarked (observation_row u) us _ gone.1 (
      All-imp _ _
        (λ r same hit.
          sym (ap (λ x. x.removed) (same hit))
          ∙ (unfold excluded in observation_row-IsGone u gone.0))
        _ (upsert-payload (observation_row u) rows unique)),
  upserted-marks us _ (upsert-UniqueKeys (observation_row u) rows unique) gone.1,
)

upserted-append :
    (us vs : List ObservationUpdate) (rows : List ObservationRow)
    → upserted (us ++ vs) rows ≡ upserted vs (upserted us rows)
upserted-append [] vs rows = refl
upserted-append (u ∷ us) vs rows = upserted-append us vs (upsert (observation_row u) rows)

module _ (f : Float64) where
  observed-IsGone : (tx : Transaction f) (inv : Invoice) → IsGone (observed f tx true inv)
  unfolding observed
  observed-IsGone tx inv = ground arith

  add-IsGone :
      (tx : Transaction f) (b : Bool) (o : Option Invoice) (us : List ObservationUpdate)
      → All IsGone us
      → All IsGone (add_observation f (if b then mapped_to f tx true o else none) us)
  add-IsGone tx false o us h = h
  add-IsGone tx true none us h = h
  add-IsGone tx true (some inv) us h = (observed-IsGone tx inv, h)

  batch-IsGone : (t : Tables) (txs : List (Transaction f)) → All IsGone (batch f t txs true)
  batch-IsGone t [] = tt
  batch-IsGone t (tx ∷ txs) =
      add-IsGone tx (is_receive f tx) (by_address tx.address t) _ (batch-IsGone t txs)

  -- After a poll that succeeds, the node answered for the stored cursor, and each observation of
  -- an output that this answer lists under removed[], received at the address of an invoice, is
  -- marked as removed, whatever transactions[] says of the same output.
  pub removed_has_last_word :
      (node : String → ℤ → Result (SinceBlock f)) (window now : ℤ) (c c' : Conn)
      → IsValid c.tables
      → poll f node window now c ≡ (ok tt, c')
      → (since : SinceBlock f) × (node (or_empty c.tables.cursor) window ≡ ok since)
        × All
            (λ u. All (IsMarked (observation_row u)) c'.tables.observations)
            (batch f c.tables since.removed true)
  removed_has_last_word node window now c c' valid ran =
      let h : Polled f node window now c (ok tt, c') =
        subst (Polled f node window now c) ran
          (poll_all_or_nothing f node window now c valid.ids) in
      let seen = batch f c.tables h.0.transactions false in
      let gone = batch f c.tables h.0.removed true in
      (
        h.0,
        h.1,
        subst (λ rows. All (λ u. All (IsMarked (observation_row u)) rows) gone)
            (sym (ap (λ t. t.observations) h.2 ∙ upserted-append seen gone c.tables.observations))
            (upserted-marks gone _ (upserted-UniqueKeys seen c.tables.observations valid.keys)
              (batch-IsGone c.tables h.0.removed)),
      )
