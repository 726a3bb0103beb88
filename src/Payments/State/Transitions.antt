-- ===== src/Payments/State/Transitions.antt =====
-- The statuses that may follow one another in the life of an invoice.
use btcpay_gate.Base.{
  ℤ, ◌≡◌, refl, Bool, true, false, not, ◌&&◌, List, [], ◌∷◌, ◌++◌, arith, Bool-cases, inl, inr,
}
use btcpay_gate.Payments.State.{
  Status, pending, confirmed, expired, reorged, Invoice, Observation, eqb_status, terminal, decide,
  decide_empty, decide_live,
}
use btcpay_gate.Payments.State.Totals.{live_of, any_removed}
use btcpay_gate.Payments.State.Order.{decide-eq, is_empty}

-- Only a pending invoice expires, no invoice becomes pending again, and a reorganisation is
-- announced only of an invoice that a payment was seen for. Final statuses are last.
abbrev pub legal : Status → Status → Bool
legal pending t = not (eqb_status t pending) && not (eqb_status t reorged)
legal confirmed t = false
legal expired t = false
legal s t = not (eqb_status t s) && not (eqb_status t pending) && not (eqb_status t expired)

-- Each status of the list may follow the one before it, the first one `s`.
abbrev pub IsLife : Status → List Status → Type 0
IsLife s [] = Unit
IsLife s (t ∷ ts) = (legal s t ≡ true) × IsLife t ts

-- The last status, `s` where there is none.
abbrev pub last_of : Status → List Status → Status
last_of s [] = s
last_of s (t ∷ ts) = last_of t ts

pub last_of-append :
    (s : Status) (ss ts : List Status) → last_of s (ss ++ ts) ≡ last_of (last_of s ss) ts
last_of-append s [] ts = refl
last_of-append s (x ∷ ss) ts = last_of-append x ss ts

pub IsLife-append :
    (s : Status) (ss ts : List Status)
    → IsLife s ss
    → IsLife (last_of s ss) ts
    → IsLife s (ss ++ ts)
IsLife-append s [] ts h k = k
IsLife-append s (x ∷ ss) ts h k = (h.0, IsLife-append x ss ts h.1 k)

none_removed :
    (obs : List Observation)
    → is_empty (live_of obs) ≡ true
    → any_removed obs ≡ false
    → is_empty obs ≡ true
none_removed [] h k = refl
none_removed (o ∷ obs) h k = elim (Bool-cases o.removed) [
  | inl gone ↦ ground arith
  | inr stays ↦ ground arith
]

-- A status that a payment brought about.
abbrev pub is_touched : Status → Bool
is_touched s = not (eqb_status s pending) && not (eqb_status s expired)

legal-decide_live :
    (inv : Invoice) (total min_conf : ℤ)
    → terminal inv.status ≡ false
    → eqb_status (decide_live inv total min_conf) inv.status ≡ false
    → legal inv.status (decide_live inv total min_conf) ≡ true
unfolding decide_live terminal
legal-decide_live inv total min_conf t h = ground arith

-- An open invoice only moves the legal way, where observations are kept of one that was paid.
pub legal-decide :
    (inv : Invoice) (obs : List Observation) (now : ℤ)
    → (is_touched inv.status ≡ true → is_empty obs ≡ false)
    → terminal inv.status ≡ false
    → eqb_status (decide inv obs now) inv.status ≡ false
    → legal inv.status (decide inv obs now) ≡ true
unfolding decide_live decide_empty terminal
legal-decide inv obs now kept t h = ground (arith, decide-eq inv obs now, none_removed obs)

-- An invoice takes a status that payments bring about only where some are known.
pub touched-decide :
    (inv : Invoice) (obs : List Observation) (now : ℤ)
    → (is_touched inv.status ≡ true → is_empty obs ≡ false)
    → is_touched (decide inv obs now) ≡ true
    → is_empty obs ≡ false
unfolding decide_live decide_empty terminal
touched-decide inv obs now kept h = ground (arith, decide-eq inv obs now)
