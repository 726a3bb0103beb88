-- ===== src/Command/Core.antt =====
-- bitcoin-core behind the client of internal/rpc: what it documents of its answers, and what a call
-- that succeeds was answered.
use btcpay_gate.Base.{
  ℤ, pos, ◌≤ℤ◌, ◌≡◌, refl, ap, ◌⊎◌, inl, inr, true, false, Option, none, some, List, [], ◌∷◌, All,
  String,
}
use btcpay_gate.Errors.{Result, ok, err}
use btcpay_gate.Rpc.Amounts.{Float64}
use btcpay_gate.Rpc.Client.{endpoint, Exchange, failing, result_of, answered, call}
use btcpay_gate.Rpc.Wallets.{DescriptorEntry, ImportResult}
use btcpay_gate.Rpc.Calls.{
  str, bounds, imports, ImportRequest, Request, Carriage, Client, Json, DescriptorInfo, exchange_of,
}

-- What a posted request comes to, at the endpoint of the client and under its credentials.
abbrev pub behind : {f : Float64} {N : Type 0} → Client f N → Request f → N → Carriage × N
behind c = c.http.post (endpoint c.url c.wallet) c.user c.password

module _ {f : Float64} (json : Json f) where
  -- The answer arrived and was read, is no error, and its result is this.
  pub record Says {A : Type 0} (decode : String → String ⊎ A) (y : Carriage) (a : A) : Type 0 where
    pub marshalled : y.marshalled ≡ none
    pub built : y.built ≡ none
    pub sent : y.sent ≡ none
    pub read : y.read ≡ none
    pub result : String
    pub answers : json.response y.raw ≡ some (none, result)
    pub decodes : decode result ≡ inr a

  -- An entry of listdescriptors: an active receiving range ends at most there.
  abbrev pub EndsBy : ℤ → DescriptorEntry → Type 0
  EndsBy end e =
      e.active ≡ true
      → e.is_internal ≡ false
      → (from to : ℤ) → e.range ≡ some (from ∷ to ∷ [])
      → to ≤ℤ end

  module _ {N : Type 0} (post : Request f → N → Carriage × N) (plain d : String) (watched : N → ℤ)
      (address : ℤ → String) where
    -- What bitcoin-core documents, for a wallet whose only active receiving descriptor is `d`, of
    -- which it watches so many addresses: listdescriptors, importdescriptors and deriveaddresses
    -- never narrow the range; no active receiving entry that listdescriptors shows ends past it; an
    -- active import of `d` that no result of importdescriptors calls failed reaches its end;
    -- deriveaddresses answers the addresses of the descriptor, and getdescriptorinfo completes
    -- the plain descriptor to `d`.
    pub record IsCore : Type 0 where
      pub never_negative : (n : N) → pos 0 ≤ℤ watched n
      pub widens :
          (q : Request f) (n : N)
          → (q.method ≡ "listdescriptors")
            ⊎ ((q.method ≡ "importdescriptors") ⊎ (q.method ≡ "deriveaddresses"))
          → watched n ≤ℤ watched (post q n).1
      pub lists :
          (q : Request f) (n : N) (ds : List DescriptorEntry)
          → q.method ≡ "listdescriptors"
          → Says json.descriptors (post q n).0 ds
          → All (EndsBy (watched (post q n).1)) ds
      pub reaches :
          (q : Request f) (i : ImportRequest) (to : ℤ) (n : N) (rs : List ImportResult)
          → q.method ≡ "importdescriptors"
          → q.params ≡ imports (i ∷ []) ∷ []
          → i.desc ≡ d
          → i.active ≡ true
          → i.is_internal ≡ false
          → i.range ≡ pos 0 ∷ to ∷ []
          → Says json.import_results (post q n).0 rs
          → All (λ r. r.success ≡ true) rs
          → to ≤ℤ watched (post q n).1
      pub derives :
          (q : Request f) (from to : ℤ) (n : N) (a : String) (rest : List String)
          → q.method ≡ "deriveaddresses"
          → q.params ≡ str d ∷ bounds from to ∷ []
          → Says json.strings (post q n).0 (a ∷ rest)
          → a ≡ address from
      pub completes :
          (q : Request f) (n : N) (info : DescriptorInfo)
          → q.method ≡ "getdescriptorinfo"
          → q.params ≡ str plain ∷ []
          → Says json.descriptor_info (post q n).0 info
          → info.descriptor ≡ d

  -- A call succeeds only with an answer that says its result.
  failing_ok :
      {A : Type 0} (o : Option String) (context : String) (r : Result A) (a : A)
      → failing o context r ≡ ok a
      → (o ≡ none) × (r ≡ ok a)
  failing_ok none context r a h = (refl, h)
  failing_ok (some text) context r a h = cc

  abbrev Decodes :
      {A : Type 0} → (String → String ⊎ A) → Option (Option (ℤ × String) × String) → A → Type 0
  Decodes decode o a = (raw : String) × (o ≡ some (none, raw)) × (decode raw ≡ inr a)

  abbrev pub value_or : {A : Type 0} → A → Result A → A
  value_or b (ok a) = a
  value_or b (err e) = b

  result_ok :
      {A : Type 0} (method : String) (v : String ⊎ A) (a : A)
      → result_of method v ≡ ok a
      → v ≡ inr a
  result_ok method (inl text) a h = cc
  result_ok method (inr b) a h = ap inr (ap (value_or a) h)

  answered_ok :
      {A : Type 0} (method : String) (x : Exchange A) (o : Option (Option (ℤ × String) × String))
      (a : A)
      → answered method x o ≡ ok a
      → Decodes x.decode o a
  answered_ok method x none a h = cc
  answered_ok method x (some (some (code, text), raw)) a h = cc
  answered_ok method x (some (none, raw)) a h = (raw, refl, result_ok method (x.decode raw) a h)

  pub call-Says :
      {A : Type 0} (method : String) (decode : String → String ⊎ A) (y : Carriage) (a : A)
      → call method (exchange_of json decode y) ≡ ok a
      → Says decode y a
  unfolding call
  call-Says method decode y a h =
      let m = failing_ok _ _ _ a h in
      let b = failing_ok _ _ _ a m.1 in
      let s = failing_ok _ _ _ a b.1 in
      let r = failing_ok _ _ _ a s.1 in
      let k = answered_ok method (exchange_of json decode y) (json.response y.raw) a r.1 in
      record {
        marshalled = m.0;
        built = b.0;
        sent = s.0;
        read = r.0;
        result = k.0;
        answers = k.1;
        decodes = k.2;
      }
