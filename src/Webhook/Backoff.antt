-- ===== src/Webhook/Backoff.antt =====
-- How long a failed delivery waits.
use btcpay_gate.Base.{
  ℕ, suc, ◌*◌, ◌^◌, ◌≤◌, ltb, ℤ, pos, negsuc, ◌+ℤ◌, ◌*ℤ◌, ◌≤ℤ◌, ◌<ℤ◌, leb_ℤ, ltb_ℤ, ap, inl, inr,
  Bool-cases, ◌≡◌, refl, true, false, some, String, arith, if◌then◌else◌,
}
use Prim.Native.String.{◌++◌ as str_append}
use native.Mathlib.Nat.{pow-le-pow_right}
use btcpay_gate.Base.Word.{wrap64, wrap64_id}
use btcpay_gate.Time.{second, unix}
use btcpay_gate.Payments.Store.Tables.{EventRow}
use btcpay_gate.Webhook.{Host, Sender, units, backoff, event_of_row, verdict_row, mark_failed}

-- The seconds of the comment in the source: 10, 20, 40, … and then an hour.
abbrev pub delay : ℕ → ℕ
delay k = if ltb 3600 (10 * 2 ^ k) then 3600 else 10 * 2 ^ k

module _ (h : Host) where
  power_bound : (k : ℕ) → k ≤ 29 → 2 ^ k ≤ 2 ^ 29
  power_bound k small = pow-le-pow_right (omega arith) small

  units-small : (k : ℕ) → k ≤ 29 → units h (pos (suc k)) ≡ pos (10 * 2 ^ k)
  units-small k small = ground (arith, power_bound k small)

  nanoseconds : (n : ℕ) → pos n *ℤ pos second ≡ pos (n * second)
  unfolding ◌*ℤ◌
  nanoseconds n = ground arith

  capped :
      (n : ℕ)
      → n ≤ 2 ^ 29
      → (let d = wrap64 (pos (10 * n) *ℤ pos second) in
          if ltb_ℤ (pos (3600 * second)) d then pos (3600 * second) else d)
        ≡ pos ((if ltb 3600 (10 * n) then 3600 else 10 * n) * second)
  capped n small =
      rw (nanoseconds (10 * n), wrap64_id (pos (10 * n * second)) (omega arith)) (ground arith)

  -- Up to the thirtieth failure the wait is ten seconds, doubled by each failure, or an hour
  -- where that is less.
  pub backoff-delay : (k : ℕ) → k ≤ 29 → backoff h (pos (suc k)) ≡ pos (delay k * second)
  unfolding backoff
  backoff-delay k small = rw (units-small k small) (capped (2 ^ k) (power_bound k small))

unix-later : (t : ℤ) (n : ℕ) → unix (t +ℤ pos (n * second)) ≡ unix t +ℤ pos n
unfolding unix ◌+ℤ◌
unix-later (pos m) n = ground arith
unix-later (negsuc m) n = ground arith

next_int : (n : ℕ) → pos n +ℤ pos 1 ≡ pos (suc n)
unfolding ◌+ℤ◌
next_int n = ground arith

one_more : (n : ℕ) → n ≤ 29 → wrap64 (pos n +ℤ pos 1) ≡ pos (suc n)
one_more n small = rw (next_int n) (wrap64_id (pos (suc n)) (omega arith))

-- When a failed event is due again, after `n` failures before this one.
abbrev pub due_again : ℤ → ℤ → ℕ → ℤ
due_again max_tries failed_at n =
    if leb_ℤ max_tries (pos (suc n)) then pos 2_147_483_647 else unix failed_at +ℤ pos (delay n)

abbrev pub reason : ℤ → ℕ → String → String
reason max_tries n text =
    if leb_ℤ max_tries (pos (suc n)) then str_append "giving up: " text else text

module _ (h : Host) (s : Sender) (p : EventRow) (text : String) (n : ℕ) (count : p.attempts ≡ pos n)
    (small : n ≤ 29) where
  retry_row :
      pos (suc n) <ℤ s.max_tries
      → verdict_row h s p (some text) p ≡ record p {
        attempts = pos (suc n);
        last_error = text;
        next_try_at = unix (h.failed_at (event_of_row p)) +ℤ pos (delay n);
      }
  unfolding mark_failed
  retry_row left =
      let keep_trying : leb_ℤ s.max_tries (pos (suc n)) ≡ false = ground arith in
      rw (count, one_more n small, keep_trying, backoff-delay h n small)
        (ap (λ z. record p { attempts = pos (suc n); last_error = text; next_try_at = z })
          (unix-later (h.failed_at (event_of_row p)) (delay n)))

  last_row :
      s.max_tries ≤ℤ pos (suc n)
      → verdict_row h s p (some text) p ≡ record p {
        attempts = pos (suc n);
        last_error = str_append "giving up: " text;
        next_try_at = pos 2_147_483_647;
      }
  unfolding mark_failed
  last_row spent =
      let stop : leb_ℤ s.max_tries (pos (suc n)) ≡ true = ground arith in
      rw (count, one_more n small, stop) refl

  -- A failed post, the last one allowed or not.
  pub failed_row : verdict_row h s p (some text) p ≡ record p {
    attempts = pos (suc n);
    last_error = reason s.max_tries n text;
    next_try_at = due_again s.max_tries (h.failed_at (event_of_row p)) n;
  }
  failed_row = elim (Bool-cases (leb_ℤ s.max_tries (pos (suc n)))) [
    | inl stop ↦ rw stop (last_row (ground arith))
    | inr go_on ↦ rw go_on (retry_row (ground arith))
  ]
