-- ===== src/Webhook.antt =====
-- internal/webhook/webhook.go: delivery of the events of the outbox to the merchant.
pub mod Accepted
pub mod Backoff
pub mod Signature
pub mod Replay
pub mod Updates
pub mod Pass
pub mod Failed
pub mod Honest
pub mod Rows
pub mod Drain
pub mod Tests
use btcpay_gate.Base.{
  ℕ, zero, suc, ◌*◌, ◌^◌, ◌/◌, ◌-◌, ltb, eqb, ℤ, pos, negsuc, ◌+ℤ◌, ◌-ℤ◌, ◌*ℤ◌, leb_ℤ, ltb_ℤ, eqb_ℤ,
  Bool, true, false, ◌&&◌, ◌||◌, Option, none, some, List, [], ◌∷◌, keep, take, String, ◌==◌,
  if◌then◌else◌,
}
use Prim.Native.String.{◌++◌ as str_append}
use btcpay_gate.Base.Word.{wrap64}
use btcpay_gate.Base.Decimal.{format_int}
use btcpay_gate.Time.{second, unix, of_unix, sub_time}
use btcpay_gate.Errors.{Result, ok, err}
use btcpay_gate.Payments.State.{Status}
use btcpay_gate.Payments.Store.Tables.{EventRow, Tables}
use btcpay_gate.Payments.Store.Sql.{Conn, Sql, pure, ◌>>=◌, ◌>>◌, query, exec}

pub record Event : Type 0 where
  pub id : ℕ
  pub invoice_id : String
  pub status : Status
  pub paid_sat : ℤ
  pub confirmations : ℤ
  pub created_at : ℤ

-- The parts of `Config` and `Sender` that decide anything.
pub record Sender : Type 0 where
  pub url : String
  pub secret : String
  pub interval : ℤ
  pub max_tries : ℤ

-- `New`: five seconds and twelve tries by default.
unfoldable pub new : Sender → Sender
new cfg = record {
  url = cfg.url;
  secret = cfg.secret;
  interval = if eqb_ℤ cfg.interval (pos 0) then pos (5 * second) else cfg.interval;
  max_tries = if eqb_ℤ cfg.max_tries (pos 0) then pos 12 else cfg.max_tries;
}

-- The request of `post`, with the headers that it sets.
pub record Request : Type 0 where
  pub url : String
  pub body : String
  pub timestamp : String
  pub signature : String
  pub idempotency_key : String

-- What the program calls: encoding/json and net/http (an error's text, or the body, nothing and
-- the status code), the HMAC in hexadecimal, the clock when an event is signed and when its failure
-- is recorded, and the conversion to int64 of a float64 that does not fit, which Go leaves to the
-- machine.
pub record Host : Type 0 where
  pub marshal : Event → Option String × String
  pub new_request : String → Option String
  pub hmac_hex : String → String → String
  pub send : Request → Option String × ℤ
  pub signed_at : Event → ℤ
  pub failed_at : Event → ℤ
  pub too_large : ℕ → ℤ

-- `Sign`: the HMAC over "timestamp.body".
unfoldable pub sign : (String → String → String) → String → String → String → String
sign hmac_hex secret timestamp body = hmac_hex secret (str_append timestamp (str_append "." body))

module _ (h : Host) where
  -- `time.Duration(10*math.Pow(2, float64(attempt-1)))`: exact where it fits, cut toward zero.
  abbrev pub units : ℤ → ℤ
  units (pos (suc k)) = if ltb (10 * 2 ^ k) (2 ^ 63) then pos (10 * 2 ^ k) else h.too_large k
  units (pos zero) = pos 5
  units (negsuc k) = pos (10 / 2 ^ (suc (suc k)))

  -- `backoff`.
  unfoldable pub backoff : ℤ → ℤ
  backoff attempt =
      let d = wrap64 (units attempt *ℤ pos second) in
      if ltb_ℤ (pos (3600 * second)) d then pos (3600 * second) else d

  abbrev pub request_for : Sender → Event → String → Request
  request_for s ev body =
      let ts = format_int (unix (h.signed_at ev)) in
      record {
        url = s.url;
        body = body;
        timestamp = ts;
        signature = sign h.hmac_hex s.secret ts body;
        idempotency_key = format_int (pos ev.id);
      }

  -- The outcome of `http.Do`: the text of an error, or a status code that is judged.
  abbrev pub judged : Option String × ℤ → Option String
  judged (some text, code) = some text
  judged (none, code) =
      if ltb_ℤ code (pos 200) || leb_ℤ (pos 300) code
      then some (str_append "endpoint returned " (format_int code))
      else none

  abbrev pub posted :
      Sender → Event → Option String × String → Option String → Option Request × Option String
  posted s ev (some text, body) made = (none, some text)
  posted s ev (none, body) (some text) = (none, some text)
  posted s ev (none, body) none = let q = request_for s ev body in (some q, judged (h.send q))

  -- `post`: the request that it hands to the HTTP client, if it comes to that, and the text of its
  -- error, if it has one.
  unfoldable pub post : Sender → Event → Option Request × Option String
  post s ev = posted s ev (h.marshal ev) (h.new_request s.url)

-- UPDATE events SET … WHERE id = ?.
unfoldable pub update_event : ℕ → (EventRow → EventRow) → List EventRow → List EventRow
update_event id f [] = []
update_event id f (e ∷ es) = (if eqb e.id id then f e else e) ∷ update_event id f es

-- WHERE delivered = 0 AND next_try_at <= ?.
abbrev pub is_due : ℤ → EventRow → Bool
is_due now e = eqb_ℤ e.delivered (pos 0) && leb_ℤ e.next_try_at now

-- SELECT … ORDER BY id LIMIT 50; the rows stand in the order of their ids.
unfoldable pub due_batch : ℤ → List EventRow → List EventRow
due_batch now es = take 50 (keep (is_due now) es)

abbrev pub event_of_row : EventRow → Event
event_of_row e = record {
  id = e.id;
  invoice_id = e.invoice_id;
  status = e.status;
  paid_sat = e.paid_sat;
  confirmations = e.confirmations;
  created_at = e.created_at;
}

-- The three UPDATE statements of `DeliverDue`, on the row.
unfoldable pub mark_delivered : EventRow → EventRow
mark_delivered e = record e { delivered = pos 1; attempts = e.attempts +ℤ pos 1; last_error = "" }

unfoldable pub mark_failed : ℤ → String → ℤ → EventRow → EventRow
mark_failed attempts text next e = record e {
  attempts = attempts;
  last_error = text;
  next_try_at = next;
}

-- `math.MaxInt32`.
abbrev pub max_int32 : ℤ
max_int32 = pos (2 ^ 31 - 1)

module _ (h : Host) (s : Sender) where
  -- What the round for the event `p` writes, once `post` has answered.
  abbrev pub verdict_row : EventRow → Option String → EventRow → EventRow
  verdict_row p none = mark_delivered
  verdict_row p (some text) =
      let attempts = wrap64 (p.attempts +ℤ pos 1) in
      if leb_ℤ s.max_tries attempts
      then mark_failed attempts (str_append "giving up: " text) max_int32
      else mark_failed attempts text (unix (h.failed_at (event_of_row p) +ℤ backoff h attempts))

  -- One round of the loop of `DeliverDue`.
  unfoldable pub deliver_one : EventRow → Sql (Unit {0})
  deliver_one p = exec (λ t. record t {
    events = update_event p.id (verdict_row p (post h s (event_of_row p)).1) t.events;
  })

  unfoldable pub deliver_all : List EventRow → Sql (Unit {0})
  deliver_all [] = pure tt
  deliver_all (p ∷ ps) = do deliver_one p; deliver_all ps

  -- `DeliverDue`, begun at `now`.
  unfoldable pub deliver_due : ℤ → Sql (Unit {0})
  deliver_due now =
      if s.url == ""
      then pure tt
      else do batch ← query (λ t. due_batch (unix now) t.events); deliver_all batch

-- `Run`: a pass at each tick until the context is done; a failed pass is only logged.
unfoldable pub sender_run : Host → Sender → List ℤ → Conn → Conn
sender_run h s [] c = c
sender_run h s (now ∷ ticks) c = sender_run h s ticks (deliver_due h s now c).1

abbrev checked :
    (String → String → String) → String → String → String → String → ℤ → ℤ → Option ℤ → Bool
checked hmac_hex secret timestamp body signature now tolerance none = false
checked hmac_hex secret timestamp body signature now tolerance (some ts) =
    let age = sub_time now (of_unix ts) in
    if ltb_ℤ age (wrap64 (pos 0 -ℤ tolerance)) || ltb_ℤ tolerance age
    then false
    else sign hmac_hex secret timestamp body == signature

-- `Verify`; `parse_int` is `strconv.ParseInt(_, 10, 64)`.
unfoldable pub verify :
    (String → Option ℤ)
    → (String → String → String)
    → String
    → String
    → String
    → String
    → ℤ
    → ℤ
    → Bool
verify parse_int hmac_hex secret timestamp body signature now tolerance =
    checked hmac_hex secret timestamp body signature now tolerance (parse_int timestamp)
