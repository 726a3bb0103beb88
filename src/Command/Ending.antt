-- ===== src/Command/Ending.antt =====
-- cmd/paygate/main.go: how `run` ends, what `shutdown` does then, and the exit status of `main`.
use btcpay_gate.Base.{
  ℤ, pos, ◌≡◌, refl, sym, ap, ◌∙◌, Bool, true, false, Option, none, some, List, [], ◌∷◌, ◌++◌,
  String, if◌then◌else◌, ◌↔◌, Bool-cases, inl, inr,
}
use btcpay_gate.Errors.{Error, Result, ok, err}
use btcpay_gate.Rpc.Amounts.{Float64}
use btcpay_gate.Command.Startup.{Process}

-- What ends the wait of `run`: the signal, or the end of a goroutine with or without an error.
pub data Ending : Type 0 where
  signalled : Ending
  returned : Option Error → Ending

-- What is done on the way out: the signals are let go, the server at an address is shut down, an
-- error is logged, and the store is closed.
pub data Effect : Type 0 where
  stops : Effect
  shuts : String → Effect
  logs : String → Option String → Effect
  closes : Effect

abbrev pub logged_error : String → Option String → List Effect
logged_error text none = []
logged_error text (some e) = logs text (some e) ∷ []

-- `shutdown` of the server and of the metrics server, if there is one; `close` is the text of the
-- error of `http.Server.Shutdown`, if it has one.
module _ (close : String → Option String) where
  abbrev pub metrics_shutdown : Option String → List Effect
  metrics_shutdown none = []
  metrics_shutdown (some address) = shuts address ∷ logged_error "metrics shutdown" (close address)

  unfoldable pub shutdown : String → Option String → List Effect
  shutdown listen metrics =
      shuts listen
      ∷ (logged_error "http shutdown" (close listen)
          ++ (metrics_shutdown metrics ++ logs "stopped" none ∷ []))

-- `errors.Is(err, context.Canceled)` is a parameter.
module _ (is_canceled : Error → Bool) where
  -- An error that is not a cancellation.
  abbrev pub failure : Option Error → Option Error
  failure none = none
  failure (some e) = if is_canceled e then none else some e

  -- What the wait of `run` comes to.
  abbrev pub awaited : Ending → Option Error
  awaited signalled = none
  awaited (returned o) = failure o

  -- `stop()` where an error ends the wait.
  abbrev pub stopped_early : Option Error → List Effect
  stopped_early none = []
  stopped_early (some e) = stops ∷ []

  module _ {f : Float64} {N : Type 0} where
    abbrev pub run_error : Result (Process f N) → Ending → Option Error
    run_error (ok p) ending = awaited ending
    run_error (err e) ending = some e

    -- `main`: the exit status, where `run` ended that way if it came to its goroutines.
    unfoldable pub exit_status : Result (Process f N) → Ending → ℤ
    exit_status started ending = elim (failure (run_error started ending)) [
      | none ↦ pos 0
      | some e ↦ pos 1
    ]

    -- What `run` does once its wait is over, and what it deferred, the last first.
    unfoldable pub way_out : (String → Option String) → Process f N → Ending → List Effect
    way_out close p ending =
        stopped_early (awaited ending)
        ++ shutdown close p.listen p.metrics_listen
        ++ closes ∷ stops ∷ []

-- The addresses that a process listens at.
abbrev pub listeners : {f : Float64} {N : Type 0} → Process f N → List String
listeners p = elim p.metrics_listen [
  | none ↦ p.listen ∷ []
  | some address ↦ p.listen ∷ address ∷ []
]

-- The servers that are shut down, in order.
abbrev pub shut_in : List Effect → List String
shut_in [] = []
shut_in (shuts address ∷ es) = address ∷ shut_in es
shut_in (e ∷ es) = shut_in es

-- The store is still open.
abbrev pub IsOpen : List Effect → Type 0
IsOpen [] = Unit
IsOpen (closes ∷ es) = ⊥
IsOpen (e ∷ es) = IsOpen es

shut_in-append : (xs ys : List Effect) → shut_in (xs ++ ys) ≡ shut_in xs ++ shut_in ys
shut_in-append [] ys = refl
shut_in-append (shuts address ∷ xs) ys = ap (λ l. address ∷ l) (shut_in-append xs ys)
shut_in-append (stops ∷ xs) ys = shut_in-append xs ys
shut_in-append (logs text o ∷ xs) ys = shut_in-append xs ys
shut_in-append (closes ∷ xs) ys = shut_in-append xs ys

IsOpen-append : (xs ys : List Effect) → IsOpen xs → IsOpen ys → IsOpen (xs ++ ys)
IsOpen-append [] ys h k = k
IsOpen-append (shuts address ∷ xs) ys h k = IsOpen-append xs ys h k
IsOpen-append (stops ∷ xs) ys h k = IsOpen-append xs ys h k
IsOpen-append (logs text o ∷ xs) ys h k = IsOpen-append xs ys h k
IsOpen-append (closes ∷ xs) ys h k = absurd h

-- Effects that shut down these servers and leave the store open.
abbrev pub ShutsAll : List String → List Effect → Type 0
ShutsAll addresses es = (shut_in es ≡ addresses) × IsOpen es

ShutsAll-append :
    (ls ms : List String) (xs ys : List Effect)
    → ShutsAll ls xs
    → ShutsAll ms ys
    → ShutsAll (ls ++ ms) (xs ++ ys)
ShutsAll-append ls ms xs ys h k =
    (shut_in-append xs ys ∙ (λ i. h.0 i ++ k.0 i), IsOpen-append xs ys h.1 k.1)

logged_error-ShutsAll : (text : String) (o : Option String) → ShutsAll [] (logged_error text o)
logged_error-ShutsAll text none = (refl, tt)
logged_error-ShutsAll text (some e) = (refl, tt)

module _ (close : String → Option String) where
  logged_error-ShutsAll_one :
      (address text : String)
      → ShutsAll (address ∷ []) (shuts address ∷ logged_error text (close address))
  logged_error-ShutsAll_one address text =
      let h = logged_error-ShutsAll text (close address) in (ap (λ l. address ∷ l) h.0, h.1)

  shutdown-ShutsAll :
      (listen : String) (metrics : Option String)
      → ShutsAll
          (elim metrics [ none ↦ listen ∷ [] | some m ↦ listen ∷ m ∷ [] ])
          (shutdown close listen metrics)
  unfolding shutdown
  shutdown-ShutsAll listen none =
      ShutsAll-append (listen ∷ []) [] (shuts listen ∷ logged_error "http shutdown" (close listen))
        (logs "stopped" none ∷ []) (logged_error-ShutsAll_one listen "http shutdown") (refl, tt)
  shutdown-ShutsAll listen (some m) =
      ShutsAll-append (listen ∷ []) (m ∷ [])
        (shuts listen ∷ logged_error "http shutdown" (close listen))
        (metrics_shutdown close (some m) ++ logs "stopped" none ∷ [])
        (logged_error-ShutsAll_one listen "http shutdown")
        (ShutsAll-append (m ∷ []) [] (shuts m ∷ logged_error "metrics shutdown" (close m))
          (logs "stopped" none ∷ []) (logged_error-ShutsAll_one m "metrics shutdown") (refl, tt))

module _ (is_canceled : Error → Bool) where
  -- The wait ended with an error that is not a cancellation.
  abbrev pub IsFailure : Ending → Type 0
  IsFailure ending = (e : Error) × (ending ≡ returned (some e)) × (is_canceled e ≡ false)

  abbrev error_of : Ending → Error → Error
  error_of (returned (some e)) other = e
  error_of ending other = other

  -- The signals are let go before anything else.
  abbrev pub StopsFirst : List Effect → Type 0
  StopsFirst (stops ∷ es) = Unit
  StopsFirst es = ⊥

  -- The process shuts down what it listens at, and only then closes the store; the signals are let
  -- go at the very end.
  abbrev pub ClosesLast : List String → List Effect → Type 0
  ClosesLast addresses es =
      (front : List Effect) × (es ≡ front ++ closes ∷ stops ∷ []) × ShutsAll addresses front

  stopped_early-ShutsAll : (o : Option Error) → ShutsAll [] (stopped_early is_canceled o)
  stopped_early-ShutsAll none = (refl, tt)
  stopped_early-ShutsAll (some e) = (refl, tt)

  module _ {f : Float64} {N : Type 0} (p : Process f N) where
    exit_quiet :
        (e : Error)
        → is_canceled e ≡ true
        → exit_status is_canceled (ok p) (returned (some e)) ≡ pos 0
    unfolding exit_status
    exit_quiet e h = rw (exit_status, h) refl

    exit_loud :
        (e : Error)
        → is_canceled e ≡ false
        → exit_status is_canceled (ok p) (returned (some e)) ≡ pos 1
    unfolding exit_status
    exit_loud e h = rw (exit_status, h, h) refl

    exit_status_iff :
        (ending : Ending) → (exit_status is_canceled (ok p) ending ≡ pos 1) ↔ IsFailure ending
    unfolding exit_status
    exit_status_iff signalled = (λ h. cc, λ h. cc)
    exit_status_iff (returned none) = (λ h. cc, λ h. cc)
    exit_status_iff (returned (some e)) = elim (Bool-cases (is_canceled e)) [
      | inl quiet ↦ (
        λ h. absurd (apart (sym (exit_quiet e quiet) ∙ h)),
        λ h. absurd (loud_quiet (sym h.2 ∙ (ap is_canceled (sym (same h.0 h.1)) ∙ quiet))),
      )
      | inr loud ↦ (λ h. (e, refl, loud), λ h. exit_loud e loud)
    ]
      where
        apart : pos 0 ≡ pos 1 → ⊥
        apart x = cc

        loud_quiet : false ≡ true → ⊥
        loud_quiet x = cc

        same : (x : Error) → returned (some e) ≡ returned (some x) → e ≡ x
        same x h = ap (λ g. error_of g e) h

    -- The error of the wait decides it, since a shutdown begins with a server.
    early_iff :
        (close : String → Option String) (o : Option Error)
        → StopsFirst (
            stopped_early is_canceled o
            ++ shutdown close p.listen p.metrics_listen
            ++ closes ∷ stops ∷ [])
          ↔ ((e : Error) × (o ≡ some e))
    unfolding shutdown
    early_iff close none = (λ h. absurd h, λ h. cc)
    early_iff close (some e) = (λ h. (e, refl), λ h. tt)

    awaited_iff :
        (ending : Ending) → ((e : Error) × (awaited is_canceled ending ≡ some e)) ↔ IsFailure ending
    awaited_iff signalled = (λ h. cc, λ h. cc)
    awaited_iff (returned none) = (λ h. cc, λ h. cc)
    awaited_iff (returned (some e)) = elim (Bool-cases (is_canceled e)) [
      | inl quiet ↦
          rw quiet
            (λ h. cc, λ h. absurd (apart (sym h.2 ∙ (ap is_canceled (sym (same h.0 h.1)) ∙ quiet))))
      | inr loud ↦ rw loud (λ h. (e, refl, loud), λ h. (e, refl))
    ]
      where
        apart : false ≡ true → ⊥
        apart x = cc

        same : (x : Error) → returned (some e) ≡ returned (some x) → e ≡ x
        same x h = ap (λ g. error_of g e) h

    -- However the wait of `run` ends, and whatever the shutdown of a server answers: each server that
    -- the process started is shut down once, the public one first, then the store is closed, and
    -- letting the signals go comes last. They are let go at the very beginning too, and `main` exits
    -- with 1, exactly when the wait ended with an error that is not a cancellation.
    pub way_out-ClosesLast :
        (close : String → Option String) (ending : Ending)
        → ClosesLast (listeners p) (way_out is_canceled close p ending)
          × (StopsFirst (way_out is_canceled close p ending) ↔ IsFailure ending)
          × ((exit_status is_canceled (ok p) ending ≡ pos 1) ↔ IsFailure ending)
    unfolding way_out
    way_out-ClosesLast close ending =
        let early = early_iff close (awaited is_canceled ending) in
        let failed = awaited_iff ending in
        (
          (
            stopped_early is_canceled (awaited is_canceled ending)
                ++ shutdown close p.listen p.metrics_listen,
            refl,
            ShutsAll-append [] (listeners p)
                (stopped_early is_canceled (awaited is_canceled ending)) _
                (stopped_early-ShutsAll (awaited is_canceled ending))
                (shutdown-ShutsAll close p.listen p.metrics_listen),
          ),
          (λ h. failed.0 (early.0 h), λ h. early.1 (failed.1 h)),
          exit_status_iff ending,
        )
