-- ===== src/Api/Views.antt =====
-- What a view shows of an invoice, field by field.
use btcpay_gate.Base.{ℤ, ◌≡◌, refl, String}
use btcpay_gate.Payments.State.{
  Status, pending, seen, confirming, confirmed, underpaid, expired, reorged, status_text, Invoice,
}
use btcpay_gate.Api.{InvoiceResponse}

-- The words that the API has for a status.
abbrev pub word_of : Status → String
word_of pending = "pending"
word_of seen = "seen"
word_of confirming = "confirming"
word_of confirmed = "confirmed"
word_of underpaid = "underpaid"
word_of expired = "expired"
word_of reorged = "reorged"

pub status_text-word_of : (s : Status) → status_text s ≡ word_of s
unfolding status_text
status_text-word_of pending = refl
status_text-word_of seen = refl
status_text-word_of confirming = refl
status_text-word_of confirmed = refl
status_text-word_of underpaid = refl
status_text-word_of expired = refl
status_text-word_of reorged = refl

-- The view is of the invoice, with this sum and this count.
pub record Shows (rfc3339 : ℤ → String) (inv : Invoice) (paid_sat confirmations : ℤ)
    (view : InvoiceResponse) : Type 0 where
  pub its_id : view.id ≡ inv.id
  pub its_address : view.address ≡ inv.address
  pub its_amount : view.amount_sat ≡ inv.amount_sat
  pub its_paid : view.paid_sat ≡ paid_sat
  pub its_required : view.required_conf ≡ inv.required_conf
  pub its_count : view.confirmations ≡ confirmations
  pub its_status : view.status ≡ word_of inv.status
  pub its_creation : view.created_at ≡ rfc3339 inv.created_at
  pub its_expiry : view.expires_at ≡ rfc3339 inv.expires_at
