-- ===== src/Number.antt =====
-- The numbers of JavaScript that the program tests: NaN, the infinities and the integers.
-- Fractions, the sign of zero and the rounding of integers past 2 ^ 53 are left out.
use asset_tracker.Prelude.{ℕ, ◌+◌, ◌*◌, Bool, true, false, ltb}

-- `negative n` is -(n + 1).
pub data Number : Type 0 where
  nan neg_infinity infinity : Number
  whole negative : ℕ → Number

-- Number.isFinite
abbrev pub is_finite : Number → Bool
is_finite (whole n) = true
is_finite (negative n) = true
is_finite _ = false

-- `a < b`; every comparison with NaN is false.
abbrev pub lt : Number → Number → Bool
lt nan _ = false
lt _ nan = false
lt neg_infinity neg_infinity = false
lt neg_infinity _ = true
lt infinity _ = false
lt (whole m) (whole n) = ltb m n
lt (whole m) infinity = true
lt (whole m) neg_infinity = false
lt (whole m) (negative n) = false
lt (negative m) (negative n) = ltb n m
lt (negative m) (whole n) = true
lt (negative m) infinity = true
lt (negative m) neg_infinity = false

-- `a * 1000`
abbrev pub times_1000 : Number → Number
times_1000 (whole n) = whole (n * 1000)
times_1000 (negative n) = negative (n * 1000 + 999)
times_1000 a = a
