-- ===== src/Command/Tests.antt =====
-- The configuration on a concrete environment.
use btcpay_gate.Base.{
  ℕ, ltb, ◌||◌, pos_part, ◌≤ℤ◌, ◌⊎◌, ◌∙◌, All, sym, subst, ap, arith, inl, inr, some, List, [], ◌∷◌,
  Bool, false, ℤ, pos, ◌≡◌, ◌↔◌, Option, none, String, ◌==◌, if◌then◌else◌,
}
use btcpay_gate.Errors.{Error, message, ok}
use btcpay_gate.Rpc.Calls.{Param, imports, Carriage, HttpClient, Json}
use btcpay_gate.Wallet.Watched.{KeepsWord}
use btcpay_gate.Monitor.Tests.{exact}
use btcpay_gate.Command.{read_config}
use btcpay_gate.Command.Startup.{Process, client_of, node_of, wired, start}
use btcpay_gate.Command.Core.{IsCore, EndsBy, behind}
use btcpay_gate.Command.Keeping.{node_of-KeepsWord}
use btcpay_gate.Command.Ready.{Started, start-Started}
use btcpay_gate.Command.Ending.{
  Ending, returned, ClosesLast, StopsFirst, IsFailure, listeners, way_out, exit_status,
  way_out-ClosesLast,
}

abbrev pub unread : String → Option ℤ
unread text = none

-- A shop without webhooks, and a node whose state is the range that it watches.
abbrev pub shop_env : String → String
shop_env key =
    if key == "WALLET_DESCRIPTOR"
    then "wpkh(xpub/0/*)"
    else if key == "BITCOIND_RPC_USER" || key == "BITCOIND_RPC_PASSWORD"
    then "gate"
    else ""

abbrev answer : Carriage
answer = record {
  marshalled = none;
  built = none;
  sent = none;
  read = none;
  status = pos 200;
  raw = [];
}

abbrev end_asked : List ℤ → ℕ
end_asked (a ∷ b ∷ []) = pos_part b
end_asked other = 0

abbrev wider : ℕ → ℕ → ℕ
wider n end = if ltb n end then end else n

abbrev watched_after : List (Param exact) → ℕ → ℕ
watched_after (imports (req ∷ []) ∷ []) n = wider n (end_asked req.range)
watched_after other n = n

abbrev pub core : ℤ → HttpClient exact ℕ
core timeout = record { post = λ url user password req n. (answer, watched_after req.params n) }

abbrev pub answers : Json exact
answers = record {
  text = λ b. "";
  response = λ b. some (none, "[]");
  info = λ raw. inr (record { chain = "main"; blocks = pos 0 });
  string = λ raw. inr raw;
  strings = λ raw. inr (raw ∷ []);
  descriptor_info = λ raw. inr (record { descriptor = "wpkh(xpub/0/*)#x"; checksum = "x" });
  descriptors = λ raw. inr [];
  import_results = λ raw. inr [];
  since_block = λ raw. inl raw;
}

-- A search that knows the marker of a range only.
abbrev pub has : String → String → Bool
has text part = part == "/*"

watched_after-ge : (ps : List (Param exact)) (n : ℕ) → pos n ≤ℤ pos (watched_after ps n)
watched_after-ge (imports (req ∷ []) ∷ []) n = ground arith
watched_after-ge other n = omega arith

widest : (n : ℕ) (to : ℤ) → to ≤ℤ pos (wider n (pos_part to))
widest n to = ground arith

abbrev right_or : {A : Type 0} → A → String ⊎ A → A
right_or b (inl text) = b
right_or b (inr a) = a

abbrev head_or : String → List String → String
head_or b [] = b
head_or b (a ∷ rest) = a

abbrev raw_or : String → Option (Option (ℤ × String) × String) → String
raw_or b none = b
raw_or b (some (o, raw)) = raw

pub shop_core :
    IsCore answers
      (behind (client_of core (read_config shop_env unread unread)))
      (read_config shop_env unread unread).descriptor
      "wpkh(xpub/0/*)#x"
      pos
      (λ i. "[]")
shop_core = record {
  never_negative = λ n. omega arith;
  widens = λ q n m. watched_after-ge q.params n;
  lists = λ q n ds m says.
      subst (All (EndsBy answers (pos (watched_after q.params n)))) (ap (right_or ds) says.decodes)
        tt;
  reaches = λ q i to n rs m params desc active internal range says good.
      subst (λ ps. to ≤ℤ pos (watched_after ps n)) (sym params)
        (subst (λ ends. to ≤ℤ pos (wider n (end_asked ends))) (sym range) (widest n to));
  derives = λ q from to n a rest m params says.
      sym (ap (λ v. head_or a (right_or (a ∷ rest) v)) says.decodes)
      ∙ sym (ap (raw_or says.result) says.answers);
  completes = λ q n info m params says. sym (ap (λ v. (right_or info v).descriptor) says.decodes);
}

node_of-KeepsWord_example :
    KeepsWord
      (node_of answers has has (λ s. s) (client_of core (read_config shop_env unread unread)))
      "wpkh(xpub/0/*)#x"
      pos
      (λ i. "[]")
node_of-KeepsWord_example =
    node_of-KeepsWord answers (client_of core (read_config shop_env unread unread))
      (read_config shop_env unread unread).descriptor "wpkh(xpub/0/*)#x" pos (λ i. "[]") shop_core
      has has (λ s. s)

abbrev pub no_error : String → Option String
no_error path = none

start-Started_example :
    Started shop_env unread unread core answers has has
      (λ s. s)
      "wpkh(xpub/0/*)#x"
      pos
      (λ i. "[]")
      shop_core
      (start answers has has (λ s. s) core no_error no_error shop_env unread unread 0)
start-Started_example =
    start-Started shop_env unread unread core answers has has (λ s. s) "wpkh(xpub/0/*)#x" pos
      (λ i. "[]") shop_core no_error no_error 0

-- The shop listens for its metrics too, and the first shutdown runs out of time.
abbrev two_ports : Process exact ℕ
two_ports =
    record (wired core (read_config shop_env unread unread)
      (record { descriptor = "wpkh(xpub/0/*)#x"; gap_end = pos 1000; step = pos 1000 })) {
        metrics_listen = some ":9090";
      }

abbrev overdue : String → Option String
overdue address = if address == ":8080" then some "context deadline exceeded" else none

abbrev is_quiet : Error → Bool
is_quiet e = false

abbrev crash : Ending
crash = returned (some (message "listen tcp :9090: address already in use"))

way_out-ClosesLast_example :
    ClosesLast is_quiet (listeners two_ports) (way_out is_quiet overdue two_ports crash)
    × (StopsFirst is_quiet (way_out is_quiet overdue two_ports crash) ↔ IsFailure is_quiet crash)
    × ((exit_status is_quiet (ok two_ports) crash ≡ pos 1) ↔ IsFailure is_quiet crash)
way_out-ClosesLast_example = way_out-ClosesLast is_quiet two_ports overdue crash
