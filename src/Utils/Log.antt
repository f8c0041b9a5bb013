-- ===== src/Utils/Log.antt =====
-- The two logarithms against powers of two.
use dottorrent.Base.{
  ℕ, zero, suc, ◌+◌, ◌-◌, ◌*◌, ◌%◌, ◌^◌, ◌≤◌, ◌<◌, ◌≡◌, arith, ltb, ltb→lt, Bool-cases, inl, inr,
}
use dottorrent.Base.Pow.{pow_step, pow_pos, pow_lt_cancel}
use dottorrent.Utils.{countl_zero, log2_floor, log2_ceil}

-- The place of the first digit of a positive number is what the leading zeros leave of its bits.
countl_zero_lem :
    (bits x : ℕ)
    → 0 < x
    → x < 2 ^ bits
    → (k : ℕ) × (countl_zero bits x + suc k ≡ bits) × (2 ^ k ≤ x) × (x < 2 ^ suc k)
unfolding countl_zero
countl_zero_lem zero x p h = absurd (omega arith)
countl_zero_lem (suc bits) x p h = elim (Bool-cases (ltb x (2 ^ bits))) [
  | inl e ↦
      let (k, place, lo, hi) = countl_zero_lem bits x p (ltb→lt x (2 ^ bits) e) in
      (k, rw e (omega (arith, place)), lo, hi)
  | inr e ↦ (bits, rw e (omega arith), ground arith, h)
]

-- For every positive 64-bit number, `log2_floor` is the exponent of the greatest power of two that
-- is not larger.
pub log2_floor_lem :
    (x : ℕ) → 0 < x → x < 2 ^ 64 → (2 ^ log2_floor x ≤ x) × (x < 2 ^ suc (log2_floor x))
unfolding log2_floor
log2_floor_lem x p h =
    let (k, place, lo, hi) = countl_zero_lem 64 x p h in
    let found : log2_floor x ≡ k = ground (arith, place) in rw found (lo, hi)

-- No other number has these bounds.
pub log2_floor_unique : (x k : ℕ) → x < 2 ^ 64 → 2 ^ k ≤ x → x < 2 ^ suc k → log2_floor x ≡ k
log2_floor_unique x k h lo hi =
    let (lo', hi') = log2_floor_lem x (omega (arith, pow_pos k)) h in
    let above : k < suc (log2_floor x) = pow_lt_cancel k (suc (log2_floor x)) (omega arith) in
    let below : log2_floor x < suc k = pow_lt_cancel (log2_floor x) (suc k) (omega arith) in
    omega arith

-- For every number from 1 to 2^63, `log2_ceil` is the exponent of the least power of two that is
-- not smaller.
pub log2_ceil_lem : (x : ℕ) → 0 < x → x ≤ 2 ^ 63 → (x ≤ 2 ^ log2_ceil x) × (2 ^ log2_ceil x < 2 * x)
unfolding log2_ceil
log2_ceil_lem x p h =
    let y = 2 * x - 1 in
    let same : (2 * x + 2 ^ 64 - 1) % 2 ^ 64 ≡ y = omega arith in
    let (lo, hi) = log2_floor_lem y (omega arith) (omega arith) in
    rw same (omega (arith, pow_step (log2_floor y)), omega arith)
