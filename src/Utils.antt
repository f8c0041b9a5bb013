-- ===== src/Utils.antt =====
-- include/dottorrent/utils.hpp: the integer helpers. `std::countl_zero` is that of the C++ library, on
-- 64 bits.
pub mod Log
pub mod Examples
use dottorrent.Base.{
  ℕ, zero, suc, ◌+◌, ◌-◌, ◌*◌, ◌/◌, ◌%◌, ◌^◌, Bool, not, ltb, ◌==◌, if◌then◌else◌, Run, ok, expects,
  ◌>>=◌, ◌>>◌,
}

-- The leading zeros of a number of the given bits.
unfoldable pub countl_zero : ℕ → ℕ → ℕ
countl_zero zero x = 0
countl_zero (suc bits) x = if ltb x (2 ^ bits) then suc (countl_zero bits x) else 0

unfoldable pub div_ceil : ℕ → ℕ → Run ℕ
div_ceil x y = do expects (not (y == 0)); ok (x / y + (if x % y == 0 then 0 else 1))

unfoldable pub log2_floor : ℕ → ℕ
log2_floor x = if x == 0 then 0 else 63 - countl_zero 64 x

-- `2*x - 1` is computed in 64 bits.
unfoldable pub log2_ceil : ℕ → ℕ
log2_ceil x = log2_floor ((2 * x + 2 ^ 64 - 1) % 2 ^ 64)
