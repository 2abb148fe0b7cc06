-- ===== src/Prelude/Dates.antt =====
-- A `Date` is its number of milliseconds since 1970.
use Prim.Native.Nat.{ℕ, ◌*◌}

abbrev pub Date : Type 0
Date = ℕ

-- `24 * 60 * 60 * 1000`.
abbrev pub day_ms : ℕ
day_ms = 24 * 60 * 60 * 1000
