-- ===== src/Gateway/Race.antt =====
-- Two requests at once: the index is read in one statement and the invoice stored in another, so
-- both may be given the same index, and with it the same address.
use btcpay_gate.Base.{◌≡◌, ap, ◌∙◌, ◌≢◌, inl, inr, List, [], ◌∷◌, Option, String, All, Any}
use btcpay_gate.Errors.{Result, ok, err}
use btcpay_gate.Payments.State.{Invoice}
use btcpay_gate.Payments.Store.Tables.{InvoiceRow, Tables}
use btcpay_gate.Payments.Store.Sql.{Conn}
use btcpay_gate.Payments.Store.Ops.{create_invoice}
use btcpay_gate.Payments.Store.Create.{Created, create_invoice_outcome}
use btcpay_gate.Gateway.{meeting, Reach}
use btcpay_gate.Gateway.Sound.{IsSound}
use btcpay_gate.Gateway.History.{GoesOn, IsSameInvoice, Reach-GrowsTo}

-- Some invoice has the address.
abbrev pub IsGiven : String → List InvoiceRow → Type 0
IsGiven address rs = Any (λ r. r.address ≡ address) rs

GoesOn-IsGiven :
    (address : String) (rs rs' : List InvoiceRow)
    → GoesOn IsSameInvoice rs rs'
    → IsGiven address rs
    → IsGiven address rs'
GoesOn-IsGiven address [] rs' g h = absurd h
GoesOn-IsGiven address (r ∷ rs) [] g h = absurd g
GoesOn-IsGiven address (r ∷ rs) (r' ∷ rs') g (inl h) =
    inl (ap (λ (x : InvoiceRow). x.address) g.0.terms ∙ h)
GoesOn-IsGiven address (r ∷ rs) (r' ∷ rs') g (inr h) = inr (GoesOn-IsGiven address rs rs' g.1 h)

not_free :
    (inv : Invoice) (rs : List InvoiceRow)
    → IsGiven inv.address rs
    → All (λ r. (r.id ≢ inv.id) × (r.address ≢ inv.address)) rs
    → ⊥
not_free inv [] h k = h
not_free inv (r ∷ rs) (inl h) k = k.0.1 h
not_free inv (r ∷ rs) (inr h) k = not_free inv rs h k.1

-- The invoice was refused and nothing stored.
abbrev pub IsTurnedDown : Tables → Result (Unit {0}) × Conn → Type 0
IsTurnedDown t (ok a, c) = ⊥
IsTurnedDown t (err e, c) = c.tables ≡ t

Created-IsTurnedDown :
    (inv : Invoice) (c : Conn) (r : Result (Unit {0}) × Conn)
    → IsGiven inv.address c.tables.invoices
    → Created inv c r
    → IsTurnedDown c.tables r
Created-IsTurnedDown inv c (ok a, c') given h = absurd (not_free inv c.tables.invoices given h.1)
Created-IsTurnedDown inv c (err e, c') given h = h.0

-- From a sound database on, an address that an invoice has is never given to another one: however
-- much later `CreateInvoice` stores it, and whatever came between, it fails and changes nothing.
pub given_once :
    {t t' : Tables} (inv : Invoice) (fs : List (Option String))
    → IsSound t
    → Reach t t'
    → IsGiven inv.address t.invoices
    → IsTurnedDown t' (create_invoice inv (meeting t' fs))
given_once {t} {t'} inv fs sound reach given =
    Created-IsTurnedDown inv (meeting t' fs) (create_invoice inv (meeting t' fs))
      (GoesOn-IsGiven inv.address t.invoices t'.invoices (Reach-GrowsTo sound reach).invoices given)
      (create_invoice_outcome inv (meeting t' fs))
