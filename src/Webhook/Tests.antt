-- ===== src/Webhook/Tests.antt =====
-- Delivery on concrete data: one event, an endpoint that fails, and an engine that stops.
use btcpay_gate.Base.{
  ℕ, ℤ, pos, negsuc, ◌*◌, ◌+ℤ◌, ◌-ℤ◌, ◌*ℤ◌, ◌≤◌, ◌≤ℤ◌, leb_ℤ, ltb_ℤ, ◌≡◌, refl, ◌↔◌, true, Any, inl,
  Option, none, some, [], ◌∷◌, String, arith,
}
use Prim.Native.String.{◌++◌ as str_append}
use btcpay_gate.Base.Word.{wrap64}
use btcpay_gate.Time.{second, unix, of_unix, sub_time}
use btcpay_gate.Base.Decimal.{format_int}
use btcpay_gate.Errors.{ok}
use btcpay_gate.Payments.State.{confirmed}
use btcpay_gate.Payments.Store.Tables.{EventRow, empty_tables}
use btcpay_gate.Payments.Store.Sql.{Conn, ◌>>=◌, query, exec}
use btcpay_gate.Webhook.{
  Event, request_for, Request, post, Host, Sender, backoff, sign, verify, is_due, deliver_due,
  deliver_all, deliver_one, due_batch,
}
use btcpay_gate.Webhook.Updates.{sweep}
use btcpay_gate.Webhook.Pass.{sent_row}
use btcpay_gate.Webhook.Honest.{deliver_due_prefix}
use btcpay_gate.Webhook.Backoff.{delay, backoff-delay, due_again}
use btcpay_gate.Webhook.Failed.{failed, failed_post_waits}
use btcpay_gate.Webhook.Accepted.{Accepts}
use btcpay_gate.Webhook.Signature.{verify_iff}
use btcpay_gate.Webhook.Replay.{request_verifies, signature_serves_once}
use btcpay_gate.Base.Numerals.{parse_int}
use text.Mathlib.TextLemmas.{append_cancel_left}

-- A toy code in place of the HMAC, and an endpoint that answers 503.
abbrev pub host : Host
host = record {
  marshal = λ e. (none, e.invoice_id);
  new_request = λ url. none;
  hmac_hex = λ secret message. str_append secret message;
  send = λ r. (none, pos 503);
  signed_at = λ e. pos (1000 * second);
  failed_at = λ e. pos (1001 * second);
  too_large = λ k. negsuc 0;
}

abbrev pub sender : Sender
sender = record {
  url = "https://shop.example/hook";
  secret = "topsecret";
  interval = pos (5 * second);
  max_tries = pos 3;
}

abbrev pub queued : EventRow
queued = record {
  id = 1;
  invoice_id = "inv_a";
  status = confirmed;
  paid_sat = pos 1000;
  confirmations = pos 2;
  created_at = pos 900;
  delivered = pos 0;
  attempts = pos 0;
  next_try_at = pos 900;
  last_error = "";
}

abbrev pub outbox : Conn
outbox = record {
  tables = record empty_tables {
    events = queued ∷ record queued { id = 2 } ∷ [];
    last_event_id = 2;
  };
  faults = none ∷ none ∷ some "disk I/O error" ∷ [];
}

deliver_due_prefix_example :
    (k : ℕ) × (k ≤ 50)
    × ((deliver_due host sender (pos (1000 * second)) outbox).1.tables ≡ record outbox.tables {
      events =
          sweep (sent_row host sender) (is_due (unix (pos (1000 * second)))) k outbox.tables.events;
    })
deliver_due_prefix_example =
    deliver_due_prefix host sender (pos (1000 * second)) outbox ((omega arith, tt), (tt, tt))

backoff-delay_example : backoff host (pos 12) ≡ pos (delay 11 * second)
backoff-delay_example = backoff-delay host 11 (omega arith)

-- The thirty-first failure is retried at once: the wait has wrapped around to the past.
backoff_wraps : ltb_ℤ (backoff host (pos 31)) (pos 0) ≡ true
unfolding backoff wrap64 ◌*ℤ◌
backoff_wraps = refl

abbrev tired : EventRow
tired = record queued { attempts = pos 2 }

-- The outbox holds the tired event alone.
abbrev weary : Conn
weary = record { tables = record empty_tables { events = tired ∷ [] }; faults = [] }

abbrev wearied : Conn
wearied = (deliver_due host sender (pos (2000 * second)) weary).1

wearied_passes : deliver_due host sender (pos (2000 * second)) weary ≡ (ok tt, wearied)
unfolding deliver_due deliver_all deliver_one due_batch query exec ◌>>=◌ unix
wearied_passes = refl

failed_post_waits_example :
    Any (λ e. e ≡ failed host sender tired "endpoint returned 503" 2) wearied.tables.events
    × ((later : ℤ)
        → is_due later (failed host sender tired "endpoint returned 503" 2)
          ≡ leb_ℤ (due_again (pos 3) (pos (1001 * second)) 2) later)
unfolding post unix format_int
failed_post_waits_example =
    failed_post_waits host sender tired "endpoint returned 503" 2 (pos (2000 * second)) weary
      wearied refl (tt, tt) (omega arith) wearied_passes (inl refl) refl refl refl (omega arith)

-- A reader of one timestamp in place of `ParseInt`.
abbrev read_thousand : String → Option ℤ
read_thousand text = some (pos 1000)

verify_iff_example :
    (verify read_thousand host.hmac_hex "k" "1000" "body" "k1000.body"
        (pos (1010 * second))
        (pos (300 * second))
      ≡ true)
    ↔ ((ts : ℤ) × (read_thousand "1000" ≡ some ts)
        × (wrap64 (pos 0 -ℤ pos (300 * second)) ≤ℤ sub_time (pos (1010 * second)) (of_unix ts))
        × (sub_time (pos (1010 * second)) (of_unix ts) ≤ℤ pos (300 * second))
        × (sign host.hmac_hex "k" "1000" "body" ≡ "k1000.body"))
verify_iff_example =
    verify_iff read_thousand host.hmac_hex "k" "1000" "body" "k1000.body" (pos (1010 * second))
      (pos (300 * second))

abbrev pub kind_host : Host
kind_host = record host { send = λ r. (none, pos 204) }

pub kind_host_accepts : Accepts kind_host sender
kind_host_accepts = record {
  encodes = λ ev. refl;
  parses = refl;
  answers = λ q to. (refl, omega arith, omega arith);
}

abbrev paid_event : Event
paid_event = record {
  id = 1;
  invoice_id = "inv_a";
  status = confirmed;
  paid_sat = pos 1000;
  confirmations = pos 2;
  created_at = pos 900;
}

-- Two seconds on the way, and five minutes of tolerance.
abbrev arrival : ℤ
arrival = pos (1002 * second)

abbrev five_minutes : ℤ
five_minutes = pos (300 * second)

request_verifies_example :
    let r = request_for host sender paid_event "inv_a" in
    verify parse_int host.hmac_hex sender.secret r.timestamp r.body r.signature arrival five_minutes
    ≡ true
unfolding unix ◌+ℤ◌
request_verifies_example =
    request_verifies host sender paid_event "inv_a" arrival five_minutes (omega arith, omega arith)
      (omega arith) (omega arith) (omega arith) (omega arith)

abbrev captured : Request
captured = request_for host sender paid_event "inv_a"

signature_serves_once_example :
    (captured.timestamp ≡ captured.timestamp)
    × (captured.body ≡ captured.body)
    × (wrap64 (pos 0 -ℤ five_minutes)
        ≤ℤ sub_time arrival (of_unix (unix (host.signed_at paid_event))))
    × (sub_time arrival (of_unix (unix (host.signed_at paid_event))) ≤ℤ five_minutes)
unfolding unix ◌+ℤ◌
signature_serves_once_example =
    signature_serves_once host sender (append_cancel_left sender.secret) paid_event "inv_a"
      captured.timestamp captured.body arrival five_minutes (omega arith, omega arith)
      (request_verifies host sender paid_event "inv_a" arrival five_minutes
        (omega arith, omega arith) (omega arith) (omega arith) (omega arith) (omega arith))
