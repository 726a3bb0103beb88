-- ===== src/Gateway/Tests.antt =====
-- The process on concrete operations: a request, a poll that sees the payment, and a failing post.
pub mod Lives
pub mod Keys
pub mod Depth
pub mod Paid
pub mod Sale
use btcpay_gate.Base.{
  ℕ, pos, ◌+ℤ◌, ◌≡◌, refl, sym, ap, inl, arith, List, [], ◌∷◌, Option, none, some, String,
}
use btcpay_gate.Payments.Store.Tables.{Tables, empty_tables, insert_invoice}
use btcpay_gate.Payments.Store.Sql.{statement}
use btcpay_gate.Payments.Store.Ops.{create_invoice, invoice_row}
use btcpay_gate.Payments.Tests.StoreRuns.{noon}
use btcpay_gate.Payments.Tests.{bill}
use btcpay_gate.Monitor.{default_window}
use btcpay_gate.Monitor.Tests.{exact, node}
use btcpay_gate.Webhook.Tests.{host, sender, queued}
use btcpay_gate.Api.Tests.{server, order, address_at, clock_text}
use btcpay_gate.Gateway.{meeting, creates, Reach, here, next}
use btcpay_gate.Gateway.Sound.{IsSound, empty-IsSound, Reach-IsSound}
use btcpay_gate.Gateway.History.{GrowsTo, Reach-GrowsTo}
use btcpay_gate.Gateway.Paths.{Operation, polls, sends, requests}
use btcpay_gate.Gateway.Runs.{run, run-IsSound}
use btcpay_gate.Errors.{Result, ok, err}
use btcpay_gate.Wallet.Watched.{KeepsWord}
use btcpay_gate.Wallet.{Node, Wallet, open_wallet, cover}
use btcpay_gate.Wallet.Tests.{own_address, fresh_core, fresh_core-KeepsWord, has, settings}
use btcpay_gate.Command.{read_config, load_config, checked_config, env, number, duration}
use btcpay_gate.Command.Startup.{Process, wired, start}
use btcpay_gate.Command.Tests.{shop_env, unread, core, answers, shop_core, no_error}
use btcpay_gate.Command
use btcpay_gate.Rpc.Client.{call}
use btcpay_gate.Rpc.Wallets.{
  create_watch_only_wallet, is_already_exists, active_range_end, range_end_from,
  import_ranged_descriptor,
}
use btcpay_gate.Gateway.Whole.{shop_node, shop_word, process_watches}
use btcpay_gate.Gateway.World.{Task, issues, looks, records}
use btcpay_gate.Gateway.Issued.{IsIndexed, AllWatched, invoices_watched}
use btcpay_gate.Gateway.Race.{IsGiven, IsTurnedDown, given_once}

abbrev pub request : Operation
request = requests clock_text server address_at "inv_new" noon (some order)

abbrev poll_once : Operation
poll_once = polls exact node default_window noon

abbrev send_once : Operation
send_once = sends host sender noon

abbrev pub first_bill : Tables
first_bill = (create_invoice bill (meeting empty_tables [])).1.tables

abbrev pub bill_stored : Reach empty_tables first_bill
bill_stored = next here (creates bill [] refl refl)

bill-IsGiven : IsGiven bill.address first_bill.invoices
unfolding create_invoice statement insert_invoice invoice_row
bill-IsGiven = inl refl

abbrev day_one : List (Operation × List (Option String))
day_one = (request, []) ∷ (poll_once, []) ∷ []

abbrev day_two : List (Operation × List (Option String))
day_two = (send_once, none ∷ some "disk I/O error" ∷ []) ∷ (poll_once, []) ∷ []

Reach-GrowsTo_example : GrowsTo empty_tables first_bill
Reach-GrowsTo_example = Reach-GrowsTo empty-IsSound bill_stored

run-IsSound_example :
    let t = run day_one empty_tables in
    IsSound t × IsSound (run day_two t) × GrowsTo t (run day_two t)
run-IsSound_example = run-IsSound day_one day_two

given_once_example :
    IsTurnedDown first_bill (create_invoice (record bill { id = "inv_b" }) (meeting first_bill []))
given_once_example =
    given_once (record bill { id = "inv_b" }) [] (Reach-IsSound bill_stored empty-IsSound) here
      bill-IsGiven

-- The wallet of a first start, after which the node watches a thousand addresses.
abbrev first_wallet : Wallet
first_wallet = record { descriptor = "wpkh(xpub/0/*)#check"; gap_end = pos 1000; step = pos 1000 }

first_start : open_wallet fresh_core has (λ s. s) settings 0 ≡ (ok first_wallet, 1000)
unfolding open_wallet cover
first_start = refl

abbrev tasks : List (Task × List (Option String))
tasks =
    (issues server "inv_new" noon (some order), [])
    ∷ (looks exact node default_window noon, none ∷ some "locked" ∷ [])
    ∷ (records host sender queued, [])
    ∷ (issues server "inv_next" noon none, [])
    ∷ []

first_bill-IsIndexed :
    IsIndexed fresh_core clock_text "wpkh(xpub/0/*)#check" pos own_address fresh_core-KeepsWord 1
      first_bill 1000
unfolding create_invoice statement insert_invoice invoice_row
first_bill-IsIndexed = record {
  sound = Reach-IsSound bill_stored empty-IsSound;
  counted = ((omega arith, omega arith), tt);
  watches = ((omega arith, refl), tt);
}

abbrev text_or : String → Result String → String
text_or b (ok a) = a
text_or b (err e) = b

invoices_watched_example :
    AllWatched fresh_core clock_text "wpkh(xpub/0/*)#check" pos own_address fresh_core-KeepsWord
      first_bill first_wallet 1000 tasks
invoices_watched_example =
    invoices_watched fresh_core clock_text "wpkh(xpub/0/*)#check" pos own_address
      fresh_core-KeepsWord (λ n. omega arith) has (λ s. s) settings
      (λ n e h. sym (ap (text_or e) h)) 0 1000 first_wallet first_start 1 first_bill
      first_bill-IsIndexed tasks (unfold ◌+ℤ◌ in omega arith)

-- The shop's process, of which the node watches as far as it was asked to.
abbrev process : Process exact ℕ
process =
    wired core (read_config shop_env unread unread)
      (record { descriptor = "wpkh(xpub/0/*)#x"; gap_end = pos 1000; step = pos 1000 })

process_starts :
    start answers Command.Tests.has Command.Tests.has
      (λ s. s)
      core
      no_error
      no_error
      shop_env
      unread
      unread
      0
    ≡ (ok process, 1000)
unfolding start load_config checked_config env number duration open_wallet cover call
    is_already_exists create_watch_only_wallet active_range_end range_end_from
    import_ranged_descriptor
process_starts = refl

abbrev own_node : Node ℕ
own_node =
    shop_node shop_env unread unread core answers Command.Tests.has Command.Tests.has (λ s. s)
      "wpkh(xpub/0/*)#x" pos (λ i. "[]") shop_core

abbrev own_word : KeepsWord own_node "wpkh(xpub/0/*)#x" pos (λ i. "[]")
own_word =
    shop_word shop_env unread unread core answers Command.Tests.has Command.Tests.has (λ s. s)
      "wpkh(xpub/0/*)#x" pos (λ i. "[]") shop_core

nothing-IsIndexed :
    IsIndexed own_node clock_text "wpkh(xpub/0/*)#x" pos (λ i. "[]") own_word 0 empty_tables 1000
nothing-IsIndexed = record { sound = empty-IsSound; counted = tt; watches = tt }

process_watches_example :
    AllWatched own_node clock_text "wpkh(xpub/0/*)#x" pos
      (λ i. "[]")
      own_word
      empty_tables
      process.wallet
      1000
      tasks
process_watches_example =
    process_watches shop_env unread unread core answers Command.Tests.has Command.Tests.has (λ s. s)
      "wpkh(xpub/0/*)#x" pos (λ i. "[]") shop_core clock_text no_error no_error 0 1000 process
      process_starts 0 empty_tables nothing-IsIndexed tasks (unfold ◌+ℤ◌ in omega arith)
