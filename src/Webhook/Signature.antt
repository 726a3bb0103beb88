-- ===== src/Webhook/Signature.antt =====
-- The check that a receiver makes of a delivery.
use btcpay_gate.Base.{
  ℤ, pos, ◌-ℤ◌, ◌≤ℤ◌, ltb_ℤ, ◌||◌, ◌≡◌, refl, ◌↔◌, sym, subst, ap, true, false, Option, none, some,
  String, ◌==◌, arith, eq_iff, if◌then◌else◌,
}
use btcpay_gate.Base.Word.{wrap64}
use btcpay_gate.Time.{of_unix, sub_time}
use btcpay_gate.Webhook.{sign, checked, verify}

abbrev pub value_or : ℤ → Option ℤ → ℤ
value_or d none = d
value_or d (some x) = x

not_none : (x : ℤ) → none ≡ some x → ⊥
not_none x h = cc

module _ (parse_int : String → Option ℤ) (hmac_hex : String → String → String) where
  judged_iff :
      (low age high : ℤ) (mac signature : String)
      → ((if ltb_ℤ age low || ltb_ℤ high age then false else mac == signature) ≡ true)
        ↔ ((low ≤ℤ age) × (age ≤ℤ high) × (mac ≡ signature))
  judged_iff low age high mac signature = ground (arith, eq_iff mac signature)

  checked_iff :
      (secret timestamp body signature : String) (now tolerance : ℤ) (o : Option ℤ)
      → (checked hmac_hex secret timestamp body signature now tolerance o ≡ true) ↔ (
          (ts : ℤ) × (o ≡ some ts)
          × (wrap64 (pos 0 -ℤ tolerance) ≤ℤ sub_time now (of_unix ts))
          × (sub_time now (of_unix ts) ≤ℤ tolerance)
          × (sign hmac_hex secret timestamp body ≡ signature))
  checked_iff secret timestamp body signature now tolerance none =
      (λ h. cc, λ h. absurd (not_none h.0 h.1))
  checked_iff secret timestamp body signature now tolerance (some t) =
      let low = wrap64 (pos 0 -ℤ tolerance) in
      let mac = sign hmac_hex secret timestamp body in
      let j = judged_iff low (sub_time now (of_unix t)) tolerance mac signature in
      (
        λ h. (let k = j.0 h in (t, refl, k.0, k.1, k.2)),
        λ h. j.1 (
            subst
              (λ x.
                (low ≤ℤ sub_time now (of_unix x))
                × (sub_time now (of_unix x) ≤ℤ tolerance)
                × (mac ≡ signature))
              (sym (ap (value_or t) h.1)) (h.2, h.3, h.4)),
      )

  -- A receiver accepts exactly the signature that `Sign` makes of this body under this secret
  -- and timestamp, and only while the timestamp, read as Unix seconds, is at most the tolerance
  -- away from its clock.
  pub verify_iff :
      (secret timestamp body signature : String) (now tolerance : ℤ)
      → (verify parse_int hmac_hex secret timestamp body signature now tolerance ≡ true) ↔ (
          (ts : ℤ) × (parse_int timestamp ≡ some ts)
          × (wrap64 (pos 0 -ℤ tolerance) ≤ℤ sub_time now (of_unix ts))
          × (sub_time now (of_unix ts) ≤ℤ tolerance)
          × (sign hmac_hex secret timestamp body ≡ signature))
  verify_iff secret timestamp body signature now tolerance =
      unfold verify in
      checked_iff secret timestamp body signature now tolerance (parse_int timestamp)
