-- ===== src/Base/Word.antt =====
-- Machine integers as bit patterns below 2 ^ 64 (i64, u64) or 2 ^ 16 (i16, u16), with the
-- wrap-around of a release build. `x as i64` of a u64 keeps the pattern, so it is not written.
use Prim.Native.Nat.{ℕ, ◌+◌, ◌*◌, ◌%◌, ◌^◌}
use mathlib.Core.Bool.{Bool, ◌&&◌}
use atomic_websocket.Base.Tests.{ltb, leb}

-- `a + b` and `a * b` on u64 and on i64.
abbrev pub add64 : ℕ → ℕ → ℕ
add64 a b = (a + b) % 2 ^ 64

abbrev pub mul64 : ℕ → ℕ → ℕ
mul64 a b = (a * b) % 2 ^ 64

-- `a < b` on i64: the order of the patterns once the sign bit is flipped.
abbrev pub lt_i64 : ℕ → ℕ → Bool
lt_i64 a b = ltb ((a + 2 ^ 63) % 2 ^ 64) ((b + 2 ^ 63) % 2 ^ 64)

abbrev pub le_i64 : ℕ → ℕ → Bool
le_i64 a b = leb ((a + 2 ^ 63) % 2 ^ 64) ((b + 2 ^ 63) % 2 ^ 64)

-- `0 < p` on i16.
abbrev pub pos_i16 : ℕ → Bool
pos_i16 p = ltb 0 p && ltb p (2 ^ 15)
