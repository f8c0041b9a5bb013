-- ===== src/Base/Decimal.antt =====
-- Decimal numbers as `std::to_string` and `fmt::format` print them and `std::from_chars` reads them:
-- functions of the C++ library and of fmt, for unsigned 64-bit numbers.
use Prim.Native.Nat.{ℕ, zero, suc, ◌+◌, ◌-◌, ◌*◌, ◌/◌, ◌%◌, ◌^◌, ◌<◌}
use mathlib.Core.Bool.{Bool, true, ◌&&◌}
use mathlib.Core.List.{[], ◌∷◌}
use mathlib.Core.Logic.{◌≢◌, inl, inr}
use mathlib.Core.Path.{◌≡◌, refl, ◌∙◌, ap}
use native.Mathlib.Omega.{arith}
use dottorrent.Base.Lists.{Bytes, All}
use dottorrent.Base.Tests.{ltb, leb, if◌then◌else◌, Bool-cases, ltb→lt, lt→ltb}

-- The digits of a number in front of `out`, with fuel for the digits but one.
unfoldable pub digits_before : ℕ → ℕ → Bytes → Bytes
digits_before zero n out = (b'0' + n % 10) ∷ out
digits_before (suc fuel) n out =
    let rest = digits_before fuel (n / 10) ((b'0' + n % 10) ∷ out) in
    if ltb n 10 then (b'0' + n % 10) ∷ out else rest

-- 2^64 has 20 digits.
unfoldable pub to_decimal : ℕ → Bytes
unfolding digits_before
to_decimal n = digits_before 19 n []

abbrev pub is_digit : ℕ → Bool
is_digit c = leb b'0' c && leb c b'9'

-- The value of the digits behind those of `n`, and what follows them.
unfoldable pub read_digits : Bytes → ℕ → ℕ × Bytes
read_digits [] n = (n, [])
read_digits (c ∷ s) n = if is_digit c then read_digits s (n * 10 + (c - b'0')) else (n, c ∷ s)

-- The result of `std::from_chars`: the value or the error, with the unread rest.
pub data Parsed : Type 0 where
  value : ℕ → Bytes → Parsed
  no_number : Bytes → Parsed
  too_large : Bytes → Parsed

unfoldable pub from_chars : Bytes → Parsed
from_chars [] = no_number []
from_chars (c ∷ s) =
    if is_digit c
    then (let r = read_digits (c ∷ s) 0 in
        if ltb r.0 (2 ^ 64) then value r.0 r.1 else too_large r.1)
    else no_number (c ∷ s)

digit-read :
    (n : ℕ) (out : Bytes) → read_digits ((b'0' + n % 10) ∷ out) (n / 10) ≡ read_digits out n
unfolding read_digits
digit-read n out = ground arith

digits-read :
    (fuel n : ℕ) (out : Bytes)
    → n < 10 ^ suc fuel
    → read_digits (digits_before fuel n out) 0 ≡ read_digits out n
unfolding digits_before
digits-read zero n out h =
    let small : n / 10 ≡ 0 = omega arith in
    ap (read_digits ((b'0' + n % 10) ∷ out)) (omega arith) ∙ digit-read n out
digits-read (suc fuel) n out h = elim (Bool-cases (ltb n 10)) [
  | inl e ↦
      rw e
        (ap (read_digits ((b'0' + n % 10) ∷ out)) (omega (arith, ltb→lt n 10 e)) ∙ digit-read n out)
  | inr e ↦ rw e (
      digits-read fuel (n / 10) ((b'0' + n % 10) ∷ out) (omega (arith, ten fuel))
      ∙ digit-read n out)
]
  where
    ten : (k : ℕ) → 10 ^ suc (suc k) ≡ 10 * 10 ^ suc k
    ten k = omega arith

abbrev pub IsDigits : Bytes → Type 0
IsDigits = All (λ c. is_digit c ≡ true)

digits_before-IsDigits :
    (fuel n : ℕ) (out : Bytes) → IsDigits out → IsDigits (digits_before fuel n out)
unfolding digits_before
digits_before-IsDigits zero n out h = (ground arith, h)
digits_before-IsDigits (suc fuel) n out h =
    let d : is_digit (b'0' + n % 10) ≡ true = ground arith in
    elim (Bool-cases (ltb n 10)) [
      | inl e ↦ rw e (d, h)
      | inr e ↦ rw e (digits_before-IsDigits fuel (n / 10) ((b'0' + n % 10) ∷ out) (d, h))
    ]

pub to_decimal-IsDigits : (n : ℕ) → IsDigits (to_decimal n)
unfolding to_decimal
to_decimal-IsDigits n = digits_before-IsDigits 19 n [] tt

digits_before-ne-nil : (fuel n : ℕ) (out : Bytes) → digits_before fuel n out ≢ []
unfolding digits_before
digits_before-ne-nil zero n out h = cc
digits_before-ne-nil (suc fuel) n out h = elim (Bool-cases (ltb n 10)) [
  | inl e ↦ cc (rw e at h)
  | inr e ↦ digits_before-ne-nil fuel (n / 10) ((b'0' + n % 10) ∷ out) (rw e at h)
]

pub to_decimal-ne-nil : (n : ℕ) → to_decimal n ≢ []
unfolding to_decimal
to_decimal-ne-nil n = digits_before-ne-nil 19 n []

from_chars_digits :
    (s : Bytes) (n : ℕ)
    → s ≢ []
    → IsDigits s
    → read_digits s 0 ≡ (n, [])
    → n < 2 ^ 64
    → from_chars s ≡ value n []
unfolding from_chars
from_chars_digits [] n ne h r b = absurd (ne refl)
from_chars_digits (c ∷ s) n ne (hc, hs) r b = rw (hc, r) (rw (lt→ltb n (2 ^ 64) b) refl)

-- Every 64-bit number is read back from its decimal print.
pub from_chars-to_decimal : (n : ℕ) → n < 2 ^ 64 → from_chars (to_decimal n) ≡ value n []
unfolding to_decimal
from_chars-to_decimal n h =
    from_chars_digits (to_decimal n) n (to_decimal-ne-nil n) (to_decimal-IsDigits n)
      (digits-read 19 n [] (omega arith) ∙ (unfold read_digits in refl)) h
