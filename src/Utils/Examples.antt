-- ===== src/Utils/Examples.antt =====
-- Numbers beside and on a power of two.
use dottorrent.Base.{◌≡◌, refl}
use dottorrent.Utils.{countl_zero, log2_floor, log2_ceil}

log2_test : log2_ceil 1025 ≡ 11
unfolding log2_ceil log2_floor countl_zero
log2_test = refl

-- For zero the doubled number wraps.
log2_zero_test : log2_ceil 0 ≡ 63
unfolding log2_ceil log2_floor countl_zero
log2_zero_test = refl
