-- ===== src/Api/Tests.antt =====
-- Requests on concrete data.
use mathlib.Core.List.{Perm}
use mathlib.Core.List.Perm
use btcpay_gate.Base.{ℤ, pos, ◌*◌, true, none, some, List, String, arith}
use btcpay_gate.Time.{second}
use btcpay_gate.Health.{State}
use btcpay_gate.Errors.{Result, ok}
use btcpay_gate.Payments.State.{Observation}
use btcpay_gate.Payments.Store.Ops.{invoice_row}
use btcpay_gate.Payments.Tests.StoreRuns.{shop, noon}
use btcpay_gate.Api.{Server, CreateRequest, create_handler, get_handler}
use btcpay_gate.Api.Issue.{Answered, create_handler-Answered}
use btcpay_gate.Api.Lookup.{Shown, get_handler-Shown}

abbrev pub server : Server
server = record { default_conf = pos 2; default_ttl = pos (1800 * second) }

abbrev pub order : CreateRequest
order = record { amount_sat = pos 2500; required_conf = some (pos 1); ttl_seconds = none }

abbrev pub address_at : ℤ → Result String
address_at index = ok "bc1qnew"

abbrev pub clock_text : ℤ → String
clock_text t = "2026-01-01T00:00:00Z"

create_handler-Answered_example :
    Answered clock_text server address_at "inv_new" noon
      (some order)
      shop
      (create_handler clock_text server address_at "inv_new" noon (some order) shop)
create_handler-Answered_example =
    create_handler-Answered clock_text server address_at "inv_new" noon (some order) shop
      (omega arith) (unfold invoice_row in omega arith)

abbrev as_stored : List Observation → List Observation
as_stored os = os

as_stored-Perm : (os : List Observation) → Perm (as_stored os) os
as_stored-Perm os = Perm.refl os

get_handler-Shown_example :
    Shown clock_text as_stored "inv_a" shop (get_handler clock_text as_stored "inv_a" shop)
get_handler-Shown_example = get_handler-Shown clock_text as_stored as_stored-Perm "inv_a" shop

-- A poll a minute ago, and a limit of five.
abbrev polled : State
polled = record {
  max_age = pos (300 * second);
  last_success = pos (1000 * second);
  wallet_loaded = true;
}

abbrev in_seconds : ℤ → String
in_seconds d = "1m0s"
