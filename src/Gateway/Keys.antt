-- ===== src/Gateway/Keys.antt =====
-- internal/webhook/webhook.go: the Idempotency-Key names one event, in every attempt.
use btcpay_gate.Base.{
  ℕ, ◌≤◌, ◌<◌, ◌^◌, ℤ, pos, ◌≡◌, ◌≢◌, sym, ap, ◌∙◌, List, [], ◌∷◌, some, Option, String, All,
  All-imp, All-and, arith,
}
use btcpay_gate.Base.Decimal.{format_int}
use btcpay_gate.Base.Numerals.{parse_int}
use btcpay_gate.Base.Readback.{parse_int-format_int}
use btcpay_gate.Payments.Store.Tables.{EventRow, empty_tables}
use btcpay_gate.Payments.Store.Invariant.{Increasing}
use btcpay_gate.Webhook.{Host, Sender, Event, event_of_row, request_for}
use btcpay_gate.Webhook.Rows.{IsSameEvent}
use btcpay_gate.Gateway.History.{GoesOn, Reach-GrowsTo}
use btcpay_gate.Gateway.Sound.{empty-IsSound, Reach-IsSound}
use btcpay_gate.Gateway.Paths.{Operation}
use btcpay_gate.Gateway.Runs.{run, run-Reach}

-- No two rows are related.
abbrev pub Pairwise : (EventRow → EventRow → Type 0) → List EventRow → Type 0
Pairwise R [] = Unit
Pairwise R (e ∷ es) = All (R e) es × Pairwise R es

GoesOn-imp :
    (R S : EventRow → EventRow → Type 0)
    → ((x y : EventRow) → R x y → S x y)
    → (xs ys : List EventRow) → GoesOn R xs ys
    → GoesOn S xs ys
GoesOn-imp R S imp [] ys h = tt
GoesOn-imp R S imp (x ∷ xs) [] h = h
GoesOn-imp R S imp (x ∷ xs) (y ∷ ys) h = (imp x y h.0, GoesOn-imp R S imp xs ys h.1)

-- The numeral of an int64 tells which one it is.
format_int-apart :
    (m n : ℕ) → m < 2 ^ 63 → n < 2 ^ 63 → m < n → format_int (pos m) ≢ format_int (pos n)
format_int-apart m n hm hn lt e = absurd (
    clash (
      number (
        sym (parse_int-format_int (pos m) (omega arith) (omega (arith, hm)))
        ∙ ap parse_int e
        ∙ parse_int-format_int (pos n) (omega arith) (omega (arith, hn)))))
  where
    or_zero : Option ℤ → ℕ
    or_zero (some (pos k)) = k
    or_zero other = 0

    number : some (pos m) ≡ some (pos n) → m ≡ n
    number h = ap or_zero h

    clash : m ≡ n → ⊥
    clash h = omega (arith, lt, h)

module _ (h : Host) (s : Sender) where
  -- The key that the request for a row carries.
  abbrev pub key_of : EventRow → String → String
  key_of e body = (request_for h s (event_of_row e) body).idempotency_key

  -- Whatever the bodies are.
  abbrev pub HasSameKey : EventRow → EventRow → Type 0
  HasSameKey e e' = (body body' : String) → key_of e' body' ≡ key_of e body

  abbrev pub HaveOtherKeys : EventRow → EventRow → Type 0
  HaveOtherKeys e e' = (body body' : String) → key_of e' body' ≢ key_of e body

  same-HasSameKey : (e e' : EventRow) → IsSameEvent e e' → HasSameKey e e'
  same-HasSameKey e e' same body body' = ap (λ (x : Event). format_int (pos x.id)) same.content

  keys_apart :
      (n : ℕ) (es : List EventRow)
      → n < 2 ^ 63
      → Increasing es
      → All (λ e. e.id ≤ n) es
      → Pairwise HaveOtherKeys es
  keys_apart n [] fits inc low = tt
  keys_apart n (e ∷ es) fits inc low = (
    All-imp _ _
        (λ x k body body' same.
          format_int-apart e.id x.id (omega (arith, fits, low.0)) (omega (arith, fits, k.1)) k.0
            (sym same))
        es (All-and _ _ es inc.0 low.1),
    keys_apart n es fits inc.1 low.1,
  )

  -- From the empty database, after any operations and again after any more, whatever the engine
  -- failed: the request for an event carries the key that it carried before, whatever the bodies
  -- are, and those for two events carry two keys, as long as the ids are below 2^63.
  pub key_names_event :
      (os more : List (Operation × List (Option String)))
      → (run more (run os empty_tables)).last_event_id < 2 ^ 63
      → let t = run os empty_tables in
        GoesOn HasSameKey t.events (run more t).events × Pairwise HaveOtherKeys (run more t).events
  key_names_event os more fits =
      let sound = Reach-IsSound (run-Reach os empty_tables empty-IsSound) empty-IsSound in
      let r = run-Reach more (run os empty_tables) sound in
      let valid = (Reach-IsSound r sound).valid in
      (
        GoesOn-imp IsSameEvent HasSameKey same-HasSameKey _ _ (Reach-GrowsTo sound r).events,
        keys_apart _ _ fits valid.numbered valid.counted,
      )
