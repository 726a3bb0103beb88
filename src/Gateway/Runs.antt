-- ===== src/Gateway/Runs.antt =====
-- Whole operations one after the other, from the empty database on.
use btcpay_gate.Base.{List, [], ◌∷◌, Option, String}
use btcpay_gate.Payments.Store.Tables.{Tables, empty_tables}
use btcpay_gate.Gateway.{meeting, Reach, here}
use btcpay_gate.Gateway.Sound.{IsSound, empty-IsSound, Reach-IsSound}
use btcpay_gate.Gateway.History.{GrowsTo, Reach-GrowsTo}
use btcpay_gate.Gateway.Paths.{Operation, perform, perform-Reach, Reach-trans}

-- The database after some operations, each with the faults that it meets.
abbrev pub run : List (Operation × List (Option String)) → Tables → Tables
run [] t = t
run ((o, fs) ∷ os) t = run os (perform o (meeting t fs))

pub run-Reach :
    (os : List (Operation × List (Option String))) (t : Tables) → IsSound t → Reach t (run os t)
run-Reach [] t s = here
run-Reach ((o, fs) ∷ os) t s =
    let step = perform-Reach o (meeting t fs) s.valid.ids in
    Reach-trans step (run-Reach os _ (Reach-IsSound step s))

-- From the empty database, after any operations and again after any more, whatever the engine
-- failed: the database is sound, and the later one goes on from the earlier one.
pub run-IsSound :
    (os more : List (Operation × List (Option String)))
    → let t = run os empty_tables in IsSound t × IsSound (run more t) × GrowsTo t (run more t)
run-IsSound os more =
    let s = Reach-IsSound (run-Reach os empty_tables empty-IsSound) empty-IsSound in
    let r = run-Reach more (run os empty_tables) s in (s, Reach-IsSound r s, Reach-GrowsTo s r)
