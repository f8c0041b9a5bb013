-- ===== src/Hex/Digits.antt =====
-- Single characters and bytes: the lookup table against the value of a digit, and a byte against its
-- two digits. Each fact about one byte is checked at all of them.
use dottorrent.Base.{
  ℕ, ◌+◌, ◌-◌, ◌*◌, ◌/◌, ◌%◌, ◌<◌, ◌≤◌, ◌≡◌, refl, ap, Bool, true, false, not, ◌&&◌, ◌||◌, none,
  some, [], ◌∷◌, arith, Bytes, ltb, leb, ◌==◌, ==_iff, if◌then◌else◌, holds_below,
  holds_below_sound, Run, ok, undefined,
}
use dottorrent.Hex.{hex_to_int, hex_to_byte, byte_to_hex, byte_to_hex_uppercase}

-- The hexadecimal digits of either case.
unfoldable pub is_hex_digit : ℕ → Bool
is_hex_digit c = leb b'0' c && leb c b'9' || (leb b'a' c && leb c b'f' || leb b'A' c && leb c b'F')

-- The value of a hexadecimal digit, and 255 for another character.
unfoldable pub digit_value : ℕ → ℕ
digit_value c =
    if leb b'0' c && leb c b'9'
    then c - b'0'
    else if leb b'a' c && leb c b'f'
    then c - b'a' + 10
    else if leb b'A' c && leb c b'F'
    then c - b'A' + 10
    else 255

-- The two digits of a number below 16.
abbrev pub lower_digit : ℕ → ℕ
lower_digit n = if ltb n 10 then b'0' + n else b'a' + n - 10

abbrev pub upper_digit : ℕ → ℕ
upper_digit n = if ltb n 10 then b'0' + n else b'A' + n - 10

-- A capital hexadecimal digit as a small one.
abbrev pub to_lower : ℕ → ℕ
to_lower c = if leb b'A' c && leb c b'F' then c + 32 else c

agrees : Run ℕ → ℕ → Bool
agrees (ok v) w = v == w
agrees _ w = false

agrees_sound : (r : Run ℕ) (w : ℕ) → agrees r w ≡ true → r ≡ ok w
unfolding agrees
agrees_sound (ok v) w h = ap ok ((==_iff v w).0 h)
agrees_sound _ w h = cc

is_pair : Bytes → ℕ → ℕ → Bool
is_pair (a ∷ b ∷ []) c d = a == c && b == d
is_pair _ c d = false

is_pair_sound : (s : Bytes) (c d : ℕ) → is_pair s c d ≡ true → s ≡ c ∷ d ∷ []
unfolding is_pair
is_pair_sound (a ∷ b ∷ []) c d h = ground arith
is_pair_sound (a ∷ b ∷ x ∷ s) c d h = cc
is_pair_sound (a ∷ []) c d h = cc
is_pair_sound [] c d h = cc

table_check : holds_below (λ c. agrees (hex_to_int c) (digit_value c)) 128 ≡ true
unfolding holds_below agrees hex_to_int digit_value
table_check = refl

lower_check :
    holds_below (λ v. is_pair (byte_to_hex v) (lower_digit (v / 16)) (lower_digit (v % 16))) 256
    ≡ true
unfolding holds_below is_pair byte_to_hex
lower_check = refl

upper_check :
    holds_below
      (λ v. is_pair (byte_to_hex_uppercase v) (upper_digit (v / 16)) (upper_digit (v % 16)))
      256
    ≡ true
unfolding holds_below is_pair byte_to_hex_uppercase
upper_check = refl

-- At every character below 128 the table holds the value of the digit, or 255.
pub hex_to_int_lem : (c : ℕ) → c < 128 → hex_to_int c ≡ ok (digit_value c)
hex_to_int_lem c h = agrees_sound _ _ (holds_below_sound _ 128 c h table_check)

pub hex_to_int_negative : (c : ℕ) → 128 ≤ c → hex_to_int c ≡ undefined
unfolding hex_to_int
hex_to_int_negative c h = ground arith

pub byte_to_hex_lem :
    (v : ℕ) → v < 256 → byte_to_hex v ≡ lower_digit (v / 16) ∷ lower_digit (v % 16) ∷ []
byte_to_hex_lem v h = is_pair_sound _ _ _ (holds_below_sound _ 256 v h lower_check)

pub byte_to_hex_uppercase_lem :
    (v : ℕ) → v < 256 → byte_to_hex_uppercase v ≡ upper_digit (v / 16) ∷ upper_digit (v % 16) ∷ []
byte_to_hex_uppercase_lem v h = is_pair_sound _ _ _ (holds_below_sound _ 256 v h upper_check)

pub digit_value_255 : (c : ℕ) → (digit_value c == 255) ≡ not (is_hex_digit c)
unfolding digit_value is_hex_digit
digit_value_255 c = ground arith

pub digit_value-lt : (c : ℕ) → is_hex_digit c ≡ true → digit_value c < 16
unfolding digit_value is_hex_digit
digit_value-lt c h = ground arith

both_digits {ℓ} :
    {A : Type ℓ} (x y : Bool) (r : A)
    → (if not x || not y then ok none else ok (some r)) ≡ ok (if x && y then some r else none)
both_digits true true r = refl
both_digits true false r = refl
both_digits false y r = refl

-- What a pair of characters is decoded to.
pub hex_to_byte_lem :
    (a b : ℕ)
    → a < 128
    → b < 128
    → hex_to_byte a b
      ≡ ok (
          if is_hex_digit a && is_hex_digit b
          then some (digit_value a * 16 + digit_value b)
          else none)
unfolding hex_to_byte
hex_to_byte_lem a b ha hb =
    rw (hex_to_int_lem a ha, hex_to_int_lem b hb)
      (rw (digit_value_255 a, digit_value_255 b) (both_digits _ _ _))

pub digit_value-lower_digit : (n : ℕ) → n < 16 → digit_value (lower_digit n) ≡ n
unfolding digit_value
digit_value-lower_digit n h = ground arith

pub digit_value-upper_digit : (n : ℕ) → n < 16 → digit_value (upper_digit n) ≡ n
unfolding digit_value
digit_value-upper_digit n h = ground arith

pub lower_digit-digit_value :
    (c : ℕ) → is_hex_digit c ≡ true → lower_digit (digit_value c) ≡ to_lower c
unfolding digit_value is_hex_digit
lower_digit-digit_value c h = ground arith

pub lower_digit_hex :
    (n : ℕ) → n < 16 → (is_hex_digit (lower_digit n) ≡ true) × (lower_digit n < 128)
unfolding is_hex_digit
lower_digit_hex n h = ground arith

pub upper_digit_hex :
    (n : ℕ) → n < 16 → (is_hex_digit (upper_digit n) ≡ true) × (upper_digit n < 128)
unfolding is_hex_digit
upper_digit_hex n h = ground arith
