-- ===== src/Webhook/Accepted.antt =====
-- An endpoint that accepts, and what a delivery to it hands to the HTTP client.
use btcpay_gate.Base.{
  ℤ, pos, ◌≤ℤ◌, ◌<ℤ◌, leb_ℤ, ltb_ℤ, ◌||◌, ◌≡◌, refl, ap, Option, none, some, String, false, arith,
}
use btcpay_gate.Base.Decimal.{format_int}
use btcpay_gate.Webhook.{Host, Sender, Event, Request, request_for, judged, posted, post}

-- An answer without an error, with a status code from 200 to 299.
abbrev pub IsAccepted : Option String × ℤ → Type 0
IsAccepted (text, code) = (text ≡ none) × (pos 200 ≤ℤ code) × (code <ℤ pos 300)

-- Events can be encoded, the URL can be parsed, and the endpoint accepts what it gets.
pub record Accepts (h : Host) (s : Sender) : Type 0 where
  pub encodes : (ev : Event) → (h.marshal ev).0 ≡ none
  pub parses : h.new_request s.url ≡ none
  pub answers : (q : Request) → q.url ≡ s.url → IsAccepted (h.send q)

module _ (h : Host) (s : Sender) where
  -- The post of the event hands the HTTP client a request to the URL, with the encoded event and
  -- its id as the key, and the endpoint accepts that request.
  pub record IsSent (ev : Event) (q : Request) : Type 0 where
    pub sent : post h s ev ≡ (some q, none)
    pub to : q.url ≡ s.url
    pub says : q.body ≡ (h.marshal ev).1
    pub keyed : q.idempotency_key ≡ format_int (pos ev.id)
    pub accepted : IsAccepted (h.send q)

  judged-IsAccepted : (x : Option String × ℤ) → IsAccepted x → judged h x ≡ none
  judged-IsAccepted (none, code) a =
      let inside : (ltb_ℤ code (pos 200) || leb_ℤ (pos 300) code) ≡ false =
        ground (arith, a.1, a.2) in
      rw inside refl
  judged-IsAccepted (some text, code) a = cc

  module _ (accepts : Accepts h s) where
    posted-answer :
        (ev : Event) (x : Option String × String) (made : Option String)
        → x.0 ≡ none
        → made ≡ none
        → posted h s ev x made ≡ (some (request_for h s ev x.1), none)
    posted-answer ev (none, body) none e m =
        ap (λ o. (some (request_for h s ev body), o))
          (judged-IsAccepted _ (accepts.answers (request_for h s ev body) refl))
    posted-answer ev (none, body) (some text) e m = cc
    posted-answer ev (some text, body) made e m = cc

    pub post-IsSent : (ev : Event) → (q : Request) × IsSent ev q
    post-IsSent ev = (
      request_for h s ev (h.marshal ev).1,
      record {
        sent = unfold post in posted-answer ev _ _ (accepts.encodes ev) accepts.parses;
        to = refl;
        says = refl;
        keyed = refl;
        accepted = accepts.answers _ refl;
      },
    )

    pub accepts-post : (ev : Event) → (post h s ev).1 ≡ none
    accepts-post ev = ap (λ (x : Option Request × Option String). x.1) (post-IsSent ev).1.sent
