-- ===== src/Monitor/Known.antt =====
-- What a poll leaves known of each output: internal/monitor/monitor.go with the observations of
-- internal/payments/store.go.
use btcpay_gate.Base.{ℤ, ◌≡◌, ap, ◌∙◌, subst, true, false, ◌++◌, String}
use btcpay_gate.Errors.{Result, ok}
use btcpay_gate.Rpc.Amounts.{Float64}
use btcpay_gate.Rpc.SinceBlock.{SinceBlock}
use btcpay_gate.Payments.Store.Tables.{Tables}
use btcpay_gate.Payments.Store.Sql.{Conn}
use btcpay_gate.Payments.Store.Ops.{or_empty}
use btcpay_gate.Payments.Store.Loop.{UniqueIds}
use btcpay_gate.Payments.Store.Outputs.{
  or_else, or_else_assoc, stored, reported, stored-upserted, reported-append,
}
use btcpay_gate.Monitor.{poll}
use btcpay_gate.Monitor.Answered.{listed, reported-batch}
use btcpay_gate.Monitor.Mapping.{batch}
use btcpay_gate.Monitor.Poll.{Polled, poll_all_or_nothing}

module _ (f : Float64) where
  -- What is known of every output after the answer, from what was known before.
  abbrev pub Learns : Tables → SinceBlock f → Tables → Type 0
  Learns t since t' =
      (txid : String) (vout : ℤ)
      → stored txid vout t'.observations
        ≡ or_else (listed f txid vout t.invoices since.removed true) (
            or_else (listed f txid vout t.invoices since.transactions false)
              (stored txid vout t.observations))

  -- Over unique ids, after a poll that succeeds the node answered for the stored cursor, and of
  -- each output the satoshi, the count of confirmations and the mark of removal that are stored
  -- are what the answer says in its last entry of category "receive" that has this txid and vout
  -- and the address of an invoice: under removed[], or else under transactions[], or else they
  -- are those from before. An entry says the amount in satoshi, its count or 0 if that is
  -- negative, and removed where it stands under removed[], has a negative count or a conflict.
  pub poll-Learns :
      (node : String → ℤ → Result (SinceBlock f)) (window now : ℤ) (c c' : Conn)
      → UniqueIds c.tables.invoices
      → poll f node window now c ≡ (ok tt, c')
      → (since : SinceBlock f) × (node (or_empty c.tables.cursor) window ≡ ok since)
        × Learns c.tables since c'.tables
  poll-Learns node window now c c' unique ran =
      let h : Polled f node window now c (ok tt, c') =
        subst (Polled f node window now c) ran (poll_all_or_nothing f node window now c unique) in
      let seen = batch f c.tables h.0.transactions false in
      let gone = batch f c.tables h.0.removed true in
      let rows = c.tables.observations in
      (
        h.0,
        h.1,
        λ txid vout.
            ap (λ (t : Tables). stored txid vout t.observations) h.2
            ∙ stored-upserted txid vout (seen ++ gone) rows
            ∙ ap (λ o. or_else o (stored txid vout rows)) (reported-append txid vout seen gone)
            ∙ or_else_assoc (reported txid vout gone) (reported txid vout seen)
                (stored txid vout rows)
            ∙ ap (λ o. or_else o (or_else (reported txid vout seen) (stored txid vout rows)))
                (reported-batch f txid vout c.tables h.0.removed true)
            ∙ ap
                (λ o.
                  or_else (listed f txid vout c.tables.invoices h.0.removed true)
                    (or_else o (stored txid vout rows)))
                (reported-batch f txid vout c.tables h.0.transactions false),
      )
