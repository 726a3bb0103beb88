-- ===== src/Time.antt =====
-- Instants and durations of Go's package time, in nanoseconds. An instant is counted from the
-- Unix epoch; the monotonic reading that Go keeps beside it is the same clock here.
use btcpay_gate.Base.{
  ℤ, pos, negsuc, ◌+ℤ◌, ◌-ℤ◌, ltb_ℤ, eqb_ℤ, ℕ, ◌+◌, ◌-◌, ◌*◌, ◌/◌, ◌^◌, ◌≡◌, Bool, arith,
  if◌then◌else◌, ◌≤ℤ◌, ◌<ℤ◌,
}

-- `time.Second`.
abbrev pub second : ℕ
second = 1_000_000_000

-- `t.Unix()`: whole seconds, rounded down.
unfoldable pub unix : ℤ → ℤ
unix (pos n) = pos (n / second)
unix (negsuc n) = negsuc (n / second)

-- `time.Unix(s, 0)`.
unfoldable pub of_unix : ℤ → ℤ
of_unix (pos s) = pos (s * second)
of_unix (negsuc s) = negsuc (s * second + (second - 1))

-- `t.Before(u)`.
abbrev pub before : ℤ → ℤ → Bool
before t u = ltb_ℤ t u

-- The zero `time.Time`: the first of January of the year 1.
abbrev pub zero_time : ℤ
zero_time = negsuc (62_135_596_800 * second - 1)

-- `t.IsZero()`.
abbrev pub is_zero : ℤ → Bool
is_zero t = eqb_ℤ t zero_time

-- The ends of an int64.
abbrev pub max_int64 : ℤ
max_int64 = pos (2 ^ 63 - 1)

abbrev pub min_int64 : ℤ
min_int64 = negsuc (2 ^ 63 - 1)

-- `t.Sub(u)`: a difference that does not fit is the nearest duration that does.
unfoldable pub sub_time : ℤ → ℤ → ℤ
sub_time t u =
    let d = t -ℤ u in
    if ltb_ℤ max_int64 d then max_int64 else if ltb_ℤ d min_int64 then min_int64 else d

pub unix-of_unix : (s : ℤ) → unix (of_unix s) ≡ s
unfolding unix of_unix
unix-of_unix (pos s) = ground arith
unix-of_unix (negsuc s) = ground arith

-- Truncation to seconds never moves an instant forward, and by less than a second back.
pub of_unix-unix-le : (t : ℤ) → (of_unix (unix t) ≤ℤ t) × (t <ℤ of_unix (unix t) +ℤ pos second)
unfolding unix of_unix ◌+ℤ◌
of_unix-unix-le (pos n) = (omega arith, ground arith)
of_unix-unix-le (negsuc n) = (omega arith, ground arith)
