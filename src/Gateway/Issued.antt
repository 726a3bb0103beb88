-- ===== src/Gateway/Issued.antt =====
-- No invoice is issued with an address that nobody watches: every task after every other.
use btcpay_gate.Base.{
  ℕ, suc, ◌+◌, ◌^◌, ℤ, pos, ◌+ℤ◌, ◌≤ℤ◌, ◌<ℤ◌, int_laws, ◌≡◌, refl, subst, List, [], ◌∷◌, length,
  Option, String, All, All-imp, All-and, Bool, arith,
}
use btcpay_gate.Payments.Store.Tables.{Tables}
use btcpay_gate.Errors.{ok}
use btcpay_gate.Wallet.{Node, Wallet, Config, open_wallet}
use btcpay_gate.Wallet.Opening.{Opened, open_wallet-Opened}
use btcpay_gate.Wallet.Watched.{KeepsWord}
use btcpay_gate.Gateway.Sound.{IsSound}
use btcpay_gate.Gateway.World.{Task, World, serve, serve_all, opening}
use btcpay_gate.Gateway.Indexed.{AllIndexes}
use btcpay_gate.Gateway.Watching.{IsWatched, serve-IsWatched}

module _ {N : Type 0} (node : Node N) (rfc3339 : ℤ → String) where
  module _ (d : String) (watched : N → ℤ) (address : ℤ → String)
      (word : KeepsWord node d watched address) (stride : ℤ) (wide : pos 0 <ℤ stride) where
    -- One task at a time, as long as the number of tasks and the step fit an int together.
    serve_all-IsWatched :
        (tasks : List (Task × List (Option String))) (k : ℕ) (x : World N)
        → IsWatched node rfc3339 d watched address word stride wide k x
        → pos (k + length tasks) +ℤ stride <ℤ pos (2 ^ 63)
        → IsWatched node rfc3339 d watched address word stride wide
            (k + length tasks)
            (serve_all node rfc3339 tasks x)
    serve_all-IsWatched [] k x h room =
        subst (λ m. IsWatched node rfc3339 d watched address word stride wide m x) (omega arith) h
    serve_all-IsWatched ((task, fs) ∷ tasks) k x h room =
        subst
          (λ m.
            IsWatched node rfc3339 d watched address word stride wide m
              (serve_all node rfc3339 tasks (serve node rfc3339 task fs x)))
          (omega arith)
          (serve_all-IsWatched tasks (suc k) (serve node rfc3339 task fs x)
            (serve-IsWatched node rfc3339 d watched address word stride wide k x h
              (omega (int_laws, room)) task fs)
            (omega (int_laws, room)))

  module _ (d : String) (watched : N → ℤ) (address : ℤ → String)
      (word : KeepsWord node d watched address) where
    -- A sound database with indexes below `k`, each of which the node watches and has the address
    -- of the descriptor there.
    pub record IsIndexed (k : ℕ) (t : Tables) (n : N) : Type 0 where
      pub sound : IsSound t
      pub counted : AllIndexes (λ i a. (pos 0 ≤ℤ i) × (i <ℤ pos k)) t
      pub watches : AllIndexes (λ i a. (i <ℤ watched n) × (a ≡ address i)) t

    -- After the tasks the database is sound, and the address of each invoice is the descriptor's at
    -- its index, up to which the node watches the addresses of the descriptor.
    abbrev pub AllWatched : Tables → Wallet → N → List (Task × List (Option String)) → Type 0
    AllWatched t w n tasks =
        let x = serve_all node rfc3339 tasks (opening t w n) in
        IsSound x.tables
        × All
            (λ r.
              (pos 0 ≤ℤ r.deriv_index)
              × (r.deriv_index <ℤ watched x.node)
              × (r.address ≡ address r.deriv_index))
            x.tables.invoices

    module _ (k : ℕ) (t : Tables) (w : Wallet) (n : N)
        (tasks : List (Task × List (Option String))) where
      pub opening-AllWatched :
          IsIndexed k t n
          → (wide : pos 0 <ℤ w.step) → w.step ≤ℤ w.gap_end
          → w.descriptor ≡ d
          → w.gap_end ≤ℤ watched n
          → pos (k + length tasks) +ℤ w.step <ℤ pos (2 ^ 63)
          → AllWatched t w n tasks
      opening-AllWatched h wide first its sane room =
          let start : IsWatched node rfc3339 d watched address word w.step wide k (opening t w n) =
            record {
              sound = h.sound;
              its = its;
              step = refl;
              gap = omega (arith, wide, first);
              sane = sane;
              counted = h.counted;
              watches = h.watches;
            } in
          let done =
            serve_all-IsWatched d watched address word w.step wide tasks k (opening t w n) start
              room in
          (
            done.sound,
            All-imp _ _ (λ r c. (c.0.0, c.1.0, c.1.1)) _ (All-and _ _ _ done.counted done.watches),
          )

  -- If the node keeps its word on the descriptor that it completes the configured one to, and
  -- never watches less than nothing: from a wallet that `Open` returned and a sound database on,
  -- with indexes below some number that the node watches, and their addresses, after any requests,
  -- polls and posts, whatever the engine and the node fail, the database is sound and each invoice
  -- has the address of the descriptor at its index, and an index below the end of the range of the
  -- descriptor that the node watches, as long as that number, the number of tasks and the step fit
  -- an int together.
  pub invoices_watched :
      (d : String) (watched : N → ℤ) (address : ℤ → String)
      (word : KeepsWord node d watched address)
      → ((n : N) → pos 0 ≤ℤ watched n)
      → (contains : String → String → Bool) (quote : String → String) (cfg : Config)
      → ((n : N) (e : String) → (node.get_descriptor_info cfg.descriptor n).0 ≡ ok e → e ≡ d)
      → (n n' : N) (w : Wallet) → open_wallet node contains quote cfg n ≡ (ok w, n')
      → (k : ℕ) (t : Tables) → IsIndexed d watched address word k t n'
      → (tasks : List (Task × List (Option String)))
      → pos (k + length tasks) +ℤ w.step <ℤ pos (2 ^ 63)
      → AllWatched d watched address word t w n' tasks
  invoices_watched d watched address word watching contains quote cfg canonical n n' w opens k t h
        tasks room =
      let o =
        subst (Opened node d watched address word contains cfg.descriptor) opens (
          open_wallet-Opened node d watched address word contains quote cfg watching canonical n) in
      opening-AllWatched d watched address word k t w n' tasks h o.1 o.2 o.3.0 o.3.1 room
