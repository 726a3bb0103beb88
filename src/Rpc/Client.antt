-- ===== src/Rpc/Client.antt =====
-- internal/rpc/client.go: one JSON-RPC call, and the errors that it returns.
use btcpay_gate.Base.{
  ℕ, leb, length, take, List, ℤ, ◌≡◌, refl, ◌↔◌, ◌⊎◌, inl, inr, Option, none, some, String, ◌==◌,
  if◌then◌else◌,
}
use Prim.Native.String.{◌++◌ as str_append}
use btcpay_gate.Base.Decimal.{format_int}
use btcpay_gate.Errors.{rpc_error, message, wrapped, as_rpc_error, Result, ok, err}

-- `endpoint`.
unfoldable pub endpoint : String → String → String
endpoint url wallet = if wallet == "" then url else str_append url (str_append "/wallet/" wallet)

-- `truncate`; `text` is Go's conversion of bytes to a string.
unfoldable pub truncate : (List ℕ → String) → List ℕ → ℕ → String
truncate text b n = if leb (length b) n then text b else str_append (text (take n b)) "…"

-- What the libraries make of one call: the text of the error of each step, if it has one, the
-- status, the bytes of the body and their conversion, the body decoded as error and result unless
-- it is not JSON, and the result decoded; a call without a place for the result decodes it to
-- nothing.
pub record Exchange (A : Type 0) : Type 0 where
  pub marshalled : Option String
  pub built : Option String
  pub sent : Option String
  pub read : Option String
  pub status : ℤ
  pub raw : List ℕ
  pub text : List ℕ → String
  pub response : Option (Option (ℤ × String) × String)
  pub decode : String → String ⊎ A

-- bitcoin-core answered with this error.
abbrev pub IsRefused : ℤ × String → Option (Option (ℤ × String) × String) → Type 0
IsRefused e none = ⊥
IsRefused e (some (none, raw)) = ⊥
IsRefused e (some (some f, raw)) = f ≡ e

module _ {A : Type 0} where
  -- A step that fails ends the call, with its error wrapped.
  abbrev pub failing : Option String → String → Result A → Result A
  failing none context r = r
  failing (some text) context r = err (wrapped context (message text))

  abbrev pub result_of : String → String ⊎ A → Result A
  result_of method (inl text) =
      err (wrapped (str_append "decode " (str_append method " result")) (message text))
  result_of method (inr a) = ok a

  -- The end of `Call`: the body decides, and the status only where the body is not JSON.
  abbrev pub answered : String → Exchange A → Option (Option (ℤ × String) × String) → Result A
  answered method x none = err (
      message (
        str_append "call " (
          str_append method (
            str_append ": http "
              (str_append (format_int x.status) (str_append ": " (truncate x.text x.raw 200)))))))
  answered method x (some (some (code, text), raw)) = err (wrapped method (rpc_error code text))
  answered method x (some (none, raw)) = result_of method (x.decode raw)

  -- `Call`.
  unfoldable pub call : String → Exchange A → Result A
  call method x = failing x.marshalled (str_append "marshal " method) (
      failing x.built (str_append "build request " method) (
        failing x.sent (str_append "call " method) (
          failing x.read (str_append "read " (str_append method " response"))
            (answered method x x.response))))

  -- The error of bitcoin-core that a result carries, through any wrapping.
  abbrev pub carried : Result A → Option (ℤ × String)
  carried (ok a) = none
  carried (err e) = as_rpc_error e

  -- The request reached bitcoin-core and its answer was read.
  abbrev pub IsDelivered : Exchange A → Type 0
  IsDelivered x = (x.marshalled ≡ none) × (x.built ≡ none) × (x.sent ≡ none) × (x.read ≡ none)

  failing_iff :
      (o : Option String) (context : String) (r : Result A) (e : ℤ × String)
      → (carried (failing o context r) ≡ some e) ↔ ((o ≡ none) × (carried r ≡ some e))
  unfolding as_rpc_error
  failing_iff none context r e = (λ h. (refl, h), λ h. h.1)
  failing_iff (some text) context r e = (λ h. cc, λ h. cc)

  decoded_iff :
      (method raw : String) (d : String ⊎ A) (e : ℤ × String)
      → (carried (result_of method d) ≡ some e) ↔ ⊥
  unfolding as_rpc_error
  decoded_iff method raw (inl text) e = (λ h. cc, λ h. absurd h)
  decoded_iff method raw (inr a) e = (λ h. cc, λ h. absurd h)

  answered_iff :
      (method : String) (x : Exchange A) (o : Option (Option (ℤ × String) × String))
      (e : ℤ × String)
      → (carried (answered method x o) ≡ some e) ↔ IsRefused e o
  unfolding as_rpc_error
  answered_iff method x none e = (λ h. cc, λ h. absurd h)
  answered_iff method x (some (none, raw)) e = decoded_iff method raw (x.decode raw) e
  answered_iff method x (some (some (code, text), raw)) e = (λ h. cc, λ h. cc)

  -- The result of a call carries an error of bitcoin-core, with its code and text, exactly when
  -- the request was delivered and its answer read and that is the error in the answer: no other
  -- failure is mistaken for one, and the wrapping loses none.
  pub call_code_iff :
      (method : String) (x : Exchange A) (e : ℤ × String)
      → (carried (call method x) ≡ some e) ↔ (IsDelivered x × IsRefused e x.response)
  unfolding call
  call_code_iff method x e =
      let s₁ = answered method x x.response in
      let s₂ = failing x.read (str_append "read " (str_append method " response")) s₁ in
      let s₃ = failing x.sent (str_append "call " method) s₂ in
      let s₄ = failing x.built (str_append "build request " method) s₃ in
      let a = failing_iff x.marshalled (str_append "marshal " method) s₄ e in
      let b = failing_iff x.built (str_append "build request " method) s₃ e in
      let c = failing_iff x.sent (str_append "call " method) s₂ e in
      let d = failing_iff x.read (str_append "read " (str_append method " response")) s₁ e in
      let l = answered_iff method x x.response e in
      (
        λ h.
            (let p = a.0 h in
              let q = b.0 p.1 in
              let r = c.0 q.1 in let s = d.0 r.1 in ((p.0, q.0, r.0, s.0), l.0 s.1)),
        λ h. a.1 (h.0.0, b.1 (h.0.1, c.1 (h.0.2, d.1 (h.0.3, l.1 h.1)))),
      )
