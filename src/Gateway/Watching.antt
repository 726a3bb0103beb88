-- ===== src/Gateway/Watching.antt =====
-- Database, wallet and node together: internal/api, internal/payments, internal/webhook and
-- internal/wallet. An address that nobody watches is the worst failure that the service has.
use btcpay_gate.Base.{
  ℕ, suc, ◌^◌, ℤ, pos, ◌+ℤ◌, ◌≤ℤ◌, ◌<ℤ◌, int_laws, ◌≡◌, refl, sym, subst, ap, ◌∙◌, List, Option,
  none, some, String, All-imp, arith,
}
use btcpay_gate.Errors.{Result, ok, err}
use btcpay_gate.Payments.Store.Tables.{Tables}
use btcpay_gate.Payments.Store.Sql.{Conn}
use btcpay_gate.Payments.Store.Ops.{next_deriv_index}
use btcpay_gate.Payments.Store.Indexes.{next_deriv_index_within}
use btcpay_gate.Wallet.{Node, Wallet, address_at}
use btcpay_gate.Wallet.Watched.{KeepsWord, Derived, address_at-Derived}
use btcpay_gate.Wallet.Grows.{Grows, address_at-Grows}
use btcpay_gate.Webhook.Rows.{Recorded, deliver_one-Recorded}
use btcpay_gate.Api.{
  Server, CreateRequest, Checked, refused, terms, checked, index_answer, checked_answer,
  create_handler,
}
use btcpay_gate.Api.Issue.{next_deriv_index-Reads}
use btcpay_gate.Rpc.Amounts.{Float64}
use btcpay_gate.Rpc.SinceBlock.{SinceBlock}
use btcpay_gate.Monitor.{poll}
use btcpay_gate.Monitor.Mapping.{update_of}
use btcpay_gate.Monitor.Poll.{Polled, poll_all_or_nothing}
use btcpay_gate.Gateway.{meeting, delivers, here, next}
use btcpay_gate.Gateway.Sound.{IsSound, Reach-IsSound}
use btcpay_gate.Gateway.Paths.{requests, polls, perform-Reach}
use btcpay_gate.Gateway.World.{Task, issues, looks, records, World, derivation, wallet_after, serve}
use btcpay_gate.Gateway.Indexed.{AllIndexes, address_answer-AllIndexes, settled-AllIndexes}

abbrev answer_or : String → Result String → String
answer_or b (ok a) = a
answer_or b (err e) = b

module _ {N : Type 0} (node : Node N) (rfc3339 : ℤ → String) where
  module _ (d : String) (watched : N → ℤ) (address : ℤ → String)
      (word : KeepsWord node d watched address) (stride : ℤ) (wide : pos 0 <ℤ stride) where
    -- The index lies in the range of the descriptor that the node watches, and the address is the
    -- descriptor's at that index.
    abbrev pub IsKept : N → ℤ → String → Type 0
    IsKept n i a = (i <ℤ watched n) × (a ≡ address i)

    -- After `k` tasks: the wallet believes no more than the node watches, and each invoice has an
    -- index below `k`, and the address of the descriptor there, which the node watches.
    pub record IsWatched (k : ℕ) (x : World N) : Type 0 where
      pub sound : IsSound x.tables
      pub its : x.wallet.descriptor ≡ d
      pub step : x.wallet.step ≡ stride
      pub gap : pos 0 ≤ℤ x.wallet.gap_end
      pub sane : x.wallet.gap_end ≤ℤ watched x.node
      pub counted : AllIndexes (λ i a. (pos 0 ≤ℤ i) × (i <ℤ pos k)) x.tables
      pub watches : AllIndexes (IsKept x.node) x.tables

    -- The wallet after a derivation.
    record IsServed (index : ℤ) (w : Wallet) (n : N) (r : Result String × Wallet × N) : Type 0 where
      its : r.1.descriptor ≡ w.descriptor
      step : r.1.step ≡ w.step
      gap : w.gap_end ≤ℤ r.1.gap_end
      grows : watched n ≤ℤ watched r.2
      sane : r.1.gap_end ≤ℤ watched r.2
      inside : (a : String) → r.0 ≡ ok a → IsKept r.2 index a

    Derived-IsServed :
        (index : ℤ) (w : Wallet) (n : N) (r : Result String × Wallet × N)
        → Grows node d watched address word w n r
        → Derived node d watched address word index r
        → IsServed index w n r
    Derived-IsServed index w n (ok a, w', n') g s = record {
      its = g.its;
      step = g.step;
      gap = g.gap;
      grows = g.watches;
      sane = s.2.1;
      inside = λ b e. (omega (arith, s.1, s.2.1), ap (answer_or b) (sym e) ∙ s.0);
    }
    Derived-IsServed index w n (err e, w', n') g s = record {
      its = g.its;
      step = g.step;
      gap = g.gap;
      grows = g.watches;
      sane = s.1;
      inside = λ b e. cc;
    }

    module _ (k : ℕ) (x : World N) (h : IsWatched k x)
        (room : pos k +ℤ stride <ℤ pos (2 ^ 63)) where
      -- The two conditions on indexes, one task later.
      counted_later : AllIndexes (λ i a. (pos 0 ≤ℤ i) × (i <ℤ pos (suc k))) x.tables
      counted_later = All-imp _ _ (λ r c. (c.0, omega (arith, c.1))) x.tables.invoices h.counted

      watches_later : (n : N) → watched x.node ≤ℤ watched n → AllIndexes (IsKept n) x.tables
      watches_later n far =
          All-imp _ _ (λ r c. (omega (arith, c.0, far), c.1)) x.tables.invoices h.watches

      served :
          (index : ℤ)
          → index ≤ℤ pos k
          → IsServed index x.wallet x.node (address_at node index x.wallet x.node)
      served index low =
          let fits : index +ℤ x.wallet.step <ℤ pos (2 ^ 63) =
            rw h.step (omega (int_laws, low, room)) in
          let goes : pos 0 <ℤ x.wallet.step = rw h.step wide in
          Derived-IsServed index x.wallet x.node (address_at node index x.wallet x.node)
            (address_at-Grows node d watched address word index x.wallet x.node h.its h.gap goes
              fits)
            (address_at-Derived node d watched address word index x.wallet x.node h.gap goes fits
              (h.its, h.sane))

      abbrev Later : Tables → Wallet × N → Type 0
      Later t (w, n) = IsWatched (suc k) (record { tables = t; wallet = w; node = n })

      kept :
          (t : Tables)
          → ((P : ℤ → String → Type 0) → AllIndexes P x.tables → AllIndexes P t)
          → IsSound t
          → Later t (x.wallet, x.node)
      kept t keeps sound = record {
        sound = sound;
        its = h.its;
        step = h.step;
        gap = h.gap;
        sane = h.sane;
        counted = keeps (λ i a. (pos 0 ≤ℤ i) × (i <ℤ pos (suc k))) counted_later;
        watches = keeps (IsKept x.node) h.watches;
      }

      unchanged : (t : Tables) → t ≡ x.tables → IsSound t → Later t (x.wallet, x.node)
      unchanged t same = kept t (λ P. subst (AllIndexes P) (sym same))

      module _ (id : String) (now amount conf ttl : ℤ) where
        derived-Later :
            (r : Result ℤ × Conn)
            → r.1.tables ≡ x.tables
            → ((i : ℤ) → r.0 ≡ ok i → (pos 0 ≤ℤ i) × (i ≤ℤ pos k))
            → let t =
                (index_answer rfc3339
                  (λ i. (address_at node i x.wallet x.node).0)
                  id
                  now
                  amount
                  conf
                  ttl
                  r).1.tables in
              IsSound t → Later t (derivation node r x.wallet x.node)
        derived-Later (err e, c) same low sound = unchanged c.tables same sound
        derived-Later (ok i, c) same low sound =
            let v = served i (low i refl).1 in
            let r = address_at node i x.wallet x.node in
            record {
              sound = sound;
              its = v.its ∙ h.its;
              step = v.step ∙ h.step;
              gap = omega (arith, h.gap, v.gap);
              sane = v.sane;
              counted =
                  address_answer-AllIndexes (λ i a. (pos 0 ≤ℤ i) × (i <ℤ pos (suc k))) rfc3339
                    (λ i. (address_at node i x.wallet x.node).0) id now amount conf ttl i r.0 c
                    (subst (AllIndexes (λ i a. (pos 0 ≤ℤ i) × (i <ℤ pos (suc k)))) (sym same)
                      counted_later)
                    (λ a e. ((low i refl).0, omega (arith, (low i refl).1)));
              watches =
                  address_answer-AllIndexes (IsKept r.2) rfc3339
                    (λ i. (address_at node i x.wallet x.node).0) id now amount conf ttl i r.0 c
                    (subst (AllIndexes (IsKept r.2)) (sym same) (watches_later r.2 v.grows))
                    v.inside;
            }

      checked-Later :
          (id : String) (now amount : ℤ) (v : Checked) (fs : List (Option String))
          → let c = meeting x.tables fs in
            let t =
              (checked_answer rfc3339
                (λ i. (address_at node i x.wallet x.node).0)
                id
                now
                amount
                v
                c).1.tables in
            IsSound t → Later t (wallet_after node v c x.wallet x.node)
      checked-Later id now amount (refused text) fs sound = unchanged x.tables refl sound
      checked-Later id now amount (terms conf ttl) fs sound =
          let c = meeting x.tables fs in
          derived-Later id now amount conf ttl (next_deriv_index c) (next_deriv_index-Reads.at c)
            (λ i e.
              next_deriv_index_within c i (pos k) (omega arith) (omega (int_laws, room, wide))
                h.counted e)
            sound

      issues-Later :
          (s : Server) (id : String) (now : ℤ) (body : Option CreateRequest)
          (fs : List (Option String))
          → IsSound (serve node rfc3339 (issues s id now body) fs x).tables
          → IsWatched (suc k) (serve node rfc3339 (issues s id now body) fs x)
      unfolding create_handler
      issues-Later s id now none fs sound = unchanged x.tables refl sound
      issues-Later s id now (some req) fs sound =
          checked-Later id now req.amount_sat (checked s req) fs sound

      Polled-Later :
          (f : Float64) (answer : String → ℤ → Result (SinceBlock f)) (window now : ℤ) (c : Conn)
          (r : Result (Unit {0}) × Conn)
          → c.tables ≡ x.tables
          → Polled f answer window now c r
          → IsSound r.1.tables
          → Later r.1.tables (x.wallet, x.node)
      Polled-Later f answer window now c (err e, c') same p sound =
          unchanged c'.tables (p.0 ∙ same) sound
      Polled-Later f answer window now c (ok a, c') same p sound =
          kept c'.tables
            (λ P i. subst (AllIndexes P) (sym p.2) (
              settled-AllIndexes P (update_of f c.tables p.0) now c.tables
                (subst (AllIndexes P) (sym same) i)))
            sound

      records-Later : (t : Tables) → Recorded x.tables t → IsSound t → Later t (x.wallet, x.node)
      records-Later t r sound = kept t (λ P. subst (AllIndexes P) (sym r.2)) sound

      pub serve-IsWatched :
          (task : Task) (fs : List (Option String))
          → IsWatched (suc k) (serve node rfc3339 task fs x)
      serve-IsWatched (issues s id now body) fs = issues-Later s id now body fs (
          Reach-IsSound
            (perform-Reach
              (requests rfc3339 s (λ i. (address_at node i x.wallet x.node).0) id now body)
              (meeting x.tables fs) h.sound.valid.ids)
            h.sound)
      serve-IsWatched (looks f answer window now) fs =
          let c = meeting x.tables fs in
          Polled-Later f answer window now c (poll f answer window now c) refl
            (poll_all_or_nothing f answer window now c h.sound.valid.ids)
            (Reach-IsSound (perform-Reach (polls f answer window now) c h.sound.valid.ids) h.sound)
      serve-IsWatched (records g s p) fs =
          records-Later _ (deliver_one-Recorded g s p x.tables fs)
            (Reach-IsSound (next here (delivers g s p fs refl)) h.sound)
