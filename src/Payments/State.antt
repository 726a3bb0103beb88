-- ===== src/Payments/State.antt =====
-- internal/payments/state.go: statuses, invoices, observations, and the transition rule.
-- int64 amounts are integers whose sums wrap; instants are nanoseconds since the Unix epoch.
pub mod Totals
pub mod Verdict
pub mod Order
pub mod Settled
pub mod Transitions
pub mod Bags
pub mod Exact
pub mod Weakest
pub mod Sorting
use btcpay_gate.Base.{
  ℕ, ℤ, pos, ◌+ℤ◌, ltb_ℤ, leb_ℤ, ◌^◌, ◌-◌, Bool, true, false, not, ◌&&◌, ◌||◌, List, [], ◌∷◌, ◌++◌,
  String, eqb, if◌then◌else◌, ◌≡◌, arith,
}
use btcpay_gate.Base.Word.{wrap64}
use btcpay_gate.Time.{before}

pub data Status : Type 0 where
  pending seen confirming confirmed underpaid expired reorged : Status

-- The text of a status, as the database, the API and the webhook write it.
unfoldable pub status_text : Status → String
status_text pending = "pending"
status_text seen = "seen"
status_text confirming = "confirming"
status_text confirmed = "confirmed"
status_text underpaid = "underpaid"
status_text expired = "expired"
status_text reorged = "reorged"

abbrev tag : Status → ℕ
tag pending = 0
tag seen = 1
tag confirming = 2
tag confirmed = 3
tag underpaid = 4
tag expired = 5
tag reorged = 6

-- `==` on statuses.
abbrev pub eqb_status : Status → Status → Bool
eqb_status s t = eqb (tag s) (tag t)

-- `Status.Terminal`.
unfoldable pub terminal : Status → Bool
terminal s = eqb_status s confirmed || eqb_status s expired

pub record Invoice : Type 0 where
  pub id : String
  pub address : String
  pub deriv_index : ℤ
  pub amount_sat : ℤ
  pub required_conf : ℤ
  pub status : Status
  pub created_at : ℤ
  pub expires_at : ℤ

pub record Observation : Type 0 where
  pub txid : String
  pub vout : ℤ
  pub amount_sat : ℤ
  pub confirmations : ℤ
  pub removed : Bool

-- `total += o.AmountSat` on int64.
abbrev pub add_sat : ℤ → ℤ → ℤ
add_sat total amount = wrap64 (total +ℤ amount)

-- The first loop of `Decide`: the live observations, and whether any was removed.
unfoldable pub collect : List Observation → List Observation → Bool → List Observation × Bool
collect [] live removed_any = (live, removed_any)
collect (o ∷ obs) live removed_any =
    collect obs (if o.removed then live else live ++ o ∷ [])
      (if o.removed then true else removed_any)

-- `int64(1<<62 - 1)`.
abbrev pub sentinel : ℤ
sentinel = pos (2 ^ 62 - 1)

-- The second loop of `Decide`: the total, and the weakest confirmation count.
unfoldable pub tally : List Observation → ℤ → ℤ → ℤ × ℤ
tally [] total min_conf = (total, min_conf)
tally (o ∷ live) total min_conf =
    tally live (add_sat total o.amount_sat)
      (if ltb_ℤ o.confirmations min_conf then o.confirmations else min_conf)

-- `Decide` where nothing is live.
unfoldable pub decide_empty : Invoice → Bool → ℤ → Status
decide_empty inv removed_any now =
    if removed_any && not (eqb_status inv.status pending) && not (eqb_status inv.status expired)
    then reorged
    else if not (before now inv.expires_at)
    then expired
    else pending

-- `Decide` on the total and the weakest confirmation count of the live observations.
unfoldable pub decide_live : Invoice → ℤ → ℤ → Status
decide_live inv total min_conf =
    if leb_ℤ min_conf (pos 0)
    then seen
    else if ltb_ℤ min_conf inv.required_conf
    then confirming
    else if ltb_ℤ total inv.amount_sat
    then underpaid
    else confirmed

-- `Decide` after its first loop.
unfoldable pub decide_from : Invoice → List Observation → Bool → ℤ → Status
decide_from inv [] removed_any now = decide_empty inv removed_any now
decide_from inv (o ∷ live) removed_any now =
    let (total, min_conf) = tally (o ∷ live) (pos 0) sentinel in decide_live inv total min_conf

-- `Decide`.
unfoldable pub decide : Invoice → List Observation → ℤ → Status
decide inv obs now =
    if terminal inv.status
    then inv.status
    else let (live, removed_any) = collect obs [] false in decide_from inv live removed_any now

unfoldable pub paid_from : List Observation → ℤ → ℤ
paid_from [] total = total
paid_from (o ∷ obs) total = paid_from obs (if o.removed then total else add_sat total o.amount_sat)

-- `Paid`.
unfoldable pub paid : List Observation → ℤ
unfolding paid_from
paid obs = paid_from obs (pos 0)

-- The loop of `MinConfirmations`, over `min` and `first`.
unfoldable pub min_conf_from : List Observation → ℤ → Bool → ℤ
min_conf_from [] min first = min
min_conf_from (o ∷ obs) min first =
    let better = not o.removed && (first || ltb_ℤ o.confirmations min) in
    min_conf_from obs (if better then o.confirmations else min) (if better then false else first)

-- `MinConfirmations`.
unfoldable pub min_confirmations : List Observation → ℤ
unfolding min_conf_from
min_confirmations obs = min_conf_from obs (pos 0) true

pub eqb_status_self : (s : Status) → eqb_status s s ≡ true
eqb_status_self s = ground arith

pub eqb_status_eq : (s t : Status) → eqb_status s t ≡ true → s ≡ t
eqb_status_eq s t h = ground arith

-- A final invoice keeps its status.
pub decide-terminal :
    (inv : Invoice) (obs : List Observation) (now : ℤ)
    → terminal inv.status ≡ true
    → decide inv obs now ≡ inv.status
unfolding decide
decide-terminal inv obs now h = ground (arith)
