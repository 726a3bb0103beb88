-- ===== src/Rpc/Calls.antt =====
-- internal/rpc/client.go and calls.go: the client, its requests, and each call on a node that
-- may change with it.
use btcpay_gate.Base.{ℕ, ◌*◌, ℤ, pos, ◌⊎◌, inr, Bool, true, false, Option, List, [], ◌∷◌, String}
use btcpay_gate.Time.{second}
use btcpay_gate.Errors.{Result}
use btcpay_gate.Rpc.Amounts.{Float64}
use btcpay_gate.Rpc.SinceBlock.{SinceBlock}
use btcpay_gate.Rpc.Client.{endpoint, Exchange, call}
use btcpay_gate.Rpc.Wallets.{DescriptorEntry, ImportResult}
use btcpay_gate.Rpc.Wallets

-- `importRequest`; an empty label is left out.
pub record ImportRequest : Type 0 where
  pub desc : String
  pub active : Bool
  pub range : List ℤ
  pub timestamp : String
  pub is_internal : Bool
  pub label : String

-- What the calls pass as parameters.
pub data Param (f : Float64) : Type 0 where
  str : String → Param f
  flag : Bool → Param f
  int : ℤ → Param f
  bounds : ℤ → ℤ → Param f
  imports : List ImportRequest → Param f
  coins : f.Value → Param f

-- `request`.
pub record Request (f : Float64) : Type 0 where
  pub jsonrpc : String
  pub id : String
  pub method : String
  pub params : List (Param f)

-- What the libraries and the node make of a posted request: the text of the error of each step, if
-- it has one, the status, and the bytes of the body.
pub record Carriage : Type 0 where
  pub marshalled : Option String
  pub built : Option String
  pub sent : Option String
  pub read : Option String
  pub status : ℤ
  pub raw : List ℕ

-- `http.Client`, with the node behind it: a request goes to an endpoint under a user and a password.
pub record HttpClient (f : Float64) (N : Type 0) : Type 0 where
  pub post : String → String → String → Request f → N → Carriage × N

-- `Client`, with the HTTP client that it holds.
pub record Client (f : Float64) (N : Type 0) : Type 0 where
  pub url : String
  pub user : String
  pub password : String
  pub wallet : String
  pub http : HttpClient f N

module _ {f : Float64} {N : Type 0} where
  -- `WithWallet`.
  abbrev pub with_wallet : String → Client f N → Client f N
  with_wallet name c = record c { wallet = name }

  -- `WithHTTPClient`.
  abbrev pub with_http_client : HttpClient f N → Client f N → Client f N
  with_http_client h c = record c { http = h }

  abbrev pub with_options : List (Client f N → Client f N) → Client f N → Client f N
  with_options [] c = c
  with_options (o ∷ os) c = with_options os (o c)

  -- `New`; `http_client` makes the `http.Client` with a timeout.
  abbrev pub new :
      (ℤ → HttpClient f N) → String → String → String → List (Client f N → Client f N) → Client f N
  new http_client url user password opts = with_options opts (record {
    url = url;
    user = user;
    password = password;
    wallet = "";
    http = http_client (pos (30 * second));
  })

pub record BlockchainInfo : Type 0 where
  pub chain : String
  pub blocks : ℤ

pub record DescriptorInfo : Type 0 where
  pub descriptor : String
  pub checksum : String

-- `json.Unmarshal` into a response, as error and result unless it is not JSON, and into each type
-- of result: the text of its error, or the value. `text` is Go's conversion of bytes to a string.
pub record Json (f : Float64) : Type 0 where
  pub text : List ℕ → String
  pub response : List ℕ → Option (Option (ℤ × String) × String)
  pub info : String → String ⊎ BlockchainInfo
  pub string : String → String ⊎ String
  pub strings : String → String ⊎ List String
  pub descriptor_info : String → String ⊎ DescriptorInfo
  pub descriptors : String → String ⊎ List DescriptorEntry
  pub import_results : String → String ⊎ List ImportResult
  pub since_block : String → String ⊎ SinceBlock f

abbrev pub exchange_of :
    {f : Float64} {A : Type 0} → Json f → (String → String ⊎ A) → Carriage → Exchange A
exchange_of json decode y = record {
  marshalled = y.marshalled;
  built = y.built;
  sent = y.sent;
  read = y.read;
  status = y.status;
  raw = y.raw;
  text = json.text;
  response = json.response y.raw;
  decode = decode;
}

-- A call without a place for its result.
abbrev nothing : String → String ⊎ Unit {0}
nothing raw = inr tt

module _ {f : Float64} {N : Type 0} (json : Json f) (c : Client f N) where
  abbrev pub carriage : String → List (Param f) → N → Carriage × N
  carriage method params n =
      c.http.post (endpoint c.url c.wallet) c.user c.password
        (record { jsonrpc = "1.0"; id = "btcpay-gate"; method = method; params = params }) n

  -- `Call`, with what it posts.
  abbrev pub call_on :
      {A : Type 0} → (String → String ⊎ A) → String → List (Param f) → N → Result A × N
  call_on decode method params n =
      let (y, n') = carriage method params n in (call method (exchange_of json decode y), n')

  -- `GetBlockchainInfo`.
  abbrev pub get_blockchain_info : N → Result BlockchainInfo × N
  get_blockchain_info = call_on json.info "getblockchaininfo" []

  -- `GetBestBlockHash`.
  abbrev pub get_best_block_hash : N → Result String × N
  get_best_block_hash = call_on json.string "getbestblockhash" []

  -- `CreateWatchOnlyWallet`; `contains` is `strings.Contains` on the message in lower case.
  abbrev pub create_watch_only_wallet :
      (String → String → Bool) → String → N → Result (Unit {0}) × N
  create_watch_only_wallet contains name =
      Wallets.create_watch_only_wallet contains
        (call_on nothing "createwallet"
          (str name ∷ flag true ∷ flag true ∷ str "" ∷ flag false ∷ flag true ∷ flag true ∷ []))
        (call_on nothing "loadwallet" (str name ∷ flag true ∷ []))

  -- `GetDescriptorInfo`.
  abbrev pub get_descriptor_info : String → N → Result DescriptorInfo × N
  get_descriptor_info descriptor =
      call_on json.descriptor_info "getdescriptorinfo" (str descriptor ∷ [])

  -- `ActiveRangeEnd`.
  abbrev pub active_range_end : N → Result ℤ × N
  active_range_end n =
      let (r, n') = call_on json.descriptors "listdescriptors" [] n in
      (Wallets.active_range_end r, n')

  -- `ImportRangedDescriptor`.
  abbrev pub import_ranged_descriptor : String → ℤ → ℤ → N → Result (Unit {0}) × N
  import_ranged_descriptor descriptor from to n =
      let req : ImportRequest = record {
        desc = descriptor;
        active = true;
        range = from ∷ to ∷ [];
        timestamp = "now";
        is_internal = false;
        label = "";
      } in
      let (r, n') = call_on json.import_results "importdescriptors" (imports (req ∷ []) ∷ []) n in
      (Wallets.import_ranged_descriptor r, n')

  -- `DeriveAddresses`.
  abbrev pub derive_addresses : String → ℤ → ℤ → N → Result (List String) × N
  derive_addresses descriptor from to =
      call_on json.strings "deriveaddresses" (str descriptor ∷ bounds from to ∷ [])

  -- `ListSinceBlock`.
  abbrev pub list_since_block : String → ℤ → N → Result (SinceBlock f) × N
  list_since_block hash min_conf =
      call_on json.since_block "listsinceblock"
        (str hash ∷ int min_conf ∷ flag true ∷ flag true ∷ [])

  -- `GenerateToAddress`.
  abbrev pub generate_to_address : ℤ → String → N → Result (List String) × N
  generate_to_address blocks address =
      call_on json.strings "generatetoaddress" (int blocks ∷ str address ∷ [])

  -- `SendToAddress`.
  abbrev pub send_to_address : String → f.Value → N → Result String × N
  send_to_address address btc = call_on json.string "sendtoaddress" (str address ∷ coins btc ∷ [])

  -- `InvalidateBlock`.
  abbrev pub invalidate_block : String → N → Result (Unit {0}) × N
  invalidate_block hash = call_on nothing "invalidateblock" (str hash ∷ [])

  -- `GetNewAddress`.
  abbrev pub get_new_address : N → Result String × N
  get_new_address = call_on json.string "getnewaddress" []
