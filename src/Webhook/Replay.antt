-- ===== src/Webhook/Replay.antt =====
-- What a signature is good for, from the sender's request to the receiver's check.
use btcpay_gate.Base.{
  ◌^◌, ℤ, pos, negsuc, ◌+ℤ◌, ◌-ℤ◌, ◌≤ℤ◌, ◌<ℤ◌, +ℤ_parts, -ℤ_parts, ◌≡◌, refl, sym, ap, subst, ◌∙◌,
  true, String, arith,
}
use btcpay_gate.Base.Word.{wrap64, wrap64_id, IsInt64}
use btcpay_gate.Base.Numerals.{parse_int}
use btcpay_gate.Base.Readback.{parse_int-format_int}
use btcpay_gate.Base.Stops.{parse_int-HasNoStop, parts_of_stop}
use btcpay_gate.Time.{second, unix, of_unix, sub_time, of_unix-unix-le}
use btcpay_gate.Webhook.{Event, Host, Sender, request_for, sign, verify}
use btcpay_gate.Webhook.Signature.{value_or, verify_iff}

opposite : (d : ℤ) → pos 0 ≤ℤ d → d <ℤ pos (2 ^ 63) → wrap64 (pos 0 -ℤ d) ≡ pos 0 -ℤ d
opposite (pos n) low high = wrap64_id (pos 0 -ℤ pos n) (unfold ◌-ℤ◌ in ground arith)
opposite (negsuc n) low high = absurd (omega (arith, low))

age_within :
    (t now tolerance : ℤ)
    → pos 0 ≤ℤ tolerance
    → tolerance <ℤ pos (2 ^ 63)
    → t ≤ℤ now +ℤ tolerance
    → now +ℤ pos second ≤ℤ t +ℤ tolerance
    → (pos 0 -ℤ tolerance ≤ℤ sub_time now (of_unix (unix t)))
      × (sub_time now (of_unix (unix t)) ≤ℤ tolerance)
unfolding sub_time
age_within t now tolerance low high early late =
    let w = of_unix-unix-le t in
    ground (
      arith,
      w.0,
      w.1,
      +ℤ_parts (of_unix (unix t)) (pos second),
      +ℤ_parts now tolerance,
      +ℤ_parts now (pos second),
      +ℤ_parts t tolerance,
      -ℤ_parts (pos 0) tolerance,
      -ℤ_parts now (of_unix (unix t)),
    )

module _ (h : Host) (s : Sender) where
  -- A receiver with the same secret accepts each request that the sender makes, as long as its
  -- clock is behind the sender's by no more than the tolerance and ahead by a second less.
  pub request_verifies :
      (ev : Event) (body : String) (now tolerance : ℤ)
      → IsInt64 (unix (h.signed_at ev))
      → pos 0 ≤ℤ tolerance
      → tolerance <ℤ pos (2 ^ 63)
      → h.signed_at ev ≤ℤ now +ℤ tolerance
      → now +ℤ pos second ≤ℤ h.signed_at ev +ℤ tolerance
      → let r = request_for h s ev body in
        verify parse_int h.hmac_hex s.secret r.timestamp r.body r.signature now tolerance ≡ true
  request_verifies ev body now tolerance dated low high early late =
      let t = h.signed_at ev in
      let r = request_for h s ev body in
      let w = age_within t now tolerance low high early late in
      (verify_iff parse_int h.hmac_hex s.secret r.timestamp r.body r.signature now tolerance).1 (
        unix t,
        parse_int-format_int (unix t) (omega (arith, dated.0, dated.1))
            (omega (arith, dated.0, dated.1)),
        rw (opposite tolerance low high) w.0,
        w.1,
        refl,
      )

  -- If the HMAC under the secret has no collisions, what a receiver accepts with the signature of
  -- a request is that request's timestamp and body, and only while its clock is no further from
  -- the second of the signing than the tolerance: a captured signature serves no other body, and
  -- not its own one at a later time.
  pub signature_serves_once :
      ((a b : String) → h.hmac_hex s.secret a ≡ h.hmac_hex s.secret b → a ≡ b)
      → (ev : Event) (body timestamp other : String) (now tolerance : ℤ)
      → IsInt64 (unix (h.signed_at ev))
      → let r = request_for h s ev body in
        verify parse_int h.hmac_hex s.secret timestamp other r.signature now tolerance ≡ true
        → (timestamp ≡ r.timestamp)
          × (other ≡ body)
          × (wrap64 (pos 0 -ℤ tolerance) ≤ℤ sub_time now (of_unix (unix (h.signed_at ev))))
          × (sub_time now (of_unix (unix (h.signed_at ev))) ≤ℤ tolerance)
  unfolding sign
  signature_serves_once distinct ev body timestamp other now tolerance dated good =
      let t = h.signed_at ev in
      let r = request_for h s ev body in
      let k =
        (verify_iff parse_int h.hmac_hex s.secret timestamp other r.signature now tolerance).0
          good in
      let own =
        parse_int-format_int (unix t) (omega (arith, dated.0, dated.1))
          (omega (arith, dated.0, dated.1)) in
      let same =
        parts_of_stop timestamp r.timestamp other body (parse_int-HasNoStop timestamp k.0 k.1)
          (parse_int-HasNoStop r.timestamp (unix t) own) (distinct _ _ k.4) in
      let dated_so = ap (value_or (unix t)) (sym k.1 ∙ ap parse_int same.0 ∙ own) in
      let w =
        subst
          (λ x.
            (wrap64 (pos 0 -ℤ tolerance) ≤ℤ sub_time now (of_unix x))
            × (sub_time now (of_unix x) ≤ℤ tolerance))
          dated_so (k.2, k.3) in
      (same.0, same.1, w.0, w.1)
