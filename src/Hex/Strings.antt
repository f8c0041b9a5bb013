-- ===== src/Hex/Strings.antt =====
-- `from_hexadecimal_string<N>` and `to_hexadecimal_string`.
use dottorrent.Base.{
  ℕ, ◌+◌, ◌-◌, ◌*◌, ◌/◌, ◌%◌, ◌<◌, ◌≡◌, refl, ap, ◌∙◌, Bool, true, ◌&&◌, none, some, [], ◌∷◌, ◌++◌,
  append-nil, append_assoc, map, arith, Bytes, length, All, ◌==◌, if◌then◌else◌, ok,
}
use dottorrent.Hex.{
  hex_to_byte, byte_to_hex, decode_pairs, from_hexadecimal_string, to_hexadecimal_string,
}
use dottorrent.Hex.Digits.{
  is_hex_digit, digit_value, lower_digit, to_lower, hex_to_byte_lem, byte_to_hex_lem,
  digit_value-lower_digit, lower_digit-digit_value, lower_digit_hex, digit_value-lt,
}

abbrev pub IsBytes : Bytes → Type 0
IsBytes = All (λ c. c < 256)

abbrev pub IsAscii : Bytes → Type 0
IsAscii = All (λ c. c < 128)

-- The whole pairs of a text are hexadecimal digits.
pub all_pairs : Bytes → Bool
all_pairs (a ∷ b ∷ s) = is_hex_digit a && is_hex_digit b && all_pairs s
all_pairs _ = true

-- The bytes that the whole pairs of a text spell.
pub pair_values : Bytes → Bytes
pair_values (a ∷ b ∷ s) = (digit_value a * 16 + digit_value b) ∷ pair_values s
pair_values _ = []

hex_to_byte_back :
    (v : ℕ) → v < 256 → hex_to_byte (lower_digit (v / 16)) (lower_digit (v % 16)) ≡ ok (some v)
hex_to_byte_back v h =
    let (d0, s0) = lower_digit_hex (v / 16) (omega arith) in
    let (d1, s1) = lower_digit_hex (v % 16) (omega arith) in
    hex_to_byte_lem _ _ s0 s1
    ∙ rw
        (
          d0,
          d1,
          digit_value-lower_digit (v / 16) (omega arith),
          digit_value-lower_digit (v % 16) (omega arith),
        )
        (ap (λ n. ok (some n)) (omega arith))

decode-byte_to_hex :
    (v : ℕ) (s out : Bytes)
    → v < 256
    → decode_pairs (byte_to_hex v ++ s) out ≡ decode_pairs s (out ++ v ∷ [])
unfolding decode_pairs
decode-byte_to_hex v s out h =
    rw (byte_to_hex_lem v h) (rw (hex_to_byte_back v h, decode_pairs) refl)

decode-to_hexadecimal_string :
    (d out : Bytes) → IsBytes d → decode_pairs (to_hexadecimal_string d) out ≡ ok (some (out ++ d))
unfolding to_hexadecimal_string
decode-to_hexadecimal_string [] out h = unfold decode_pairs in rw append-nil
decode-to_hexadecimal_string (c ∷ d) out (hc, hd) =
    decode-byte_to_hex c (to_hexadecimal_string d) out hc
    ∙ decode-to_hexadecimal_string d (out ++ c ∷ []) hd
    ∙ ap (λ s. ok (some s)) (append_assoc out (c ∷ []) d)

pub length-to_hexadecimal_string : (d : Bytes) → length (to_hexadecimal_string d) ≡ 2 * length d
unfolding to_hexadecimal_string byte_to_hex
length-to_hexadecimal_string [] = omega arith
length-to_hexadecimal_string (c ∷ d) = omega (arith, length-to_hexadecimal_string d)

-- Every string of bytes is read back from its hexadecimal print, with its own size.
pub from-to_hexadecimal_string :
    (d : Bytes)
    → IsBytes d
    → from_hexadecimal_string (length d) (to_hexadecimal_string d) ≡ ok (some d)
unfolding from_hexadecimal_string
from-to_hexadecimal_string d h =
    ground (arith, length-to_hexadecimal_string d, decode-to_hexadecimal_string d [] h)

decode_pairs_lem :
    (s out : Bytes)
    → IsAscii s
    → decode_pairs s out ≡ ok (if all_pairs s then some (out ++ pair_values s) else none)
unfolding decode_pairs all_pairs pair_values
decode_pairs_lem [] out h = rw append-nil
decode_pairs_lem (a ∷ []) out h = rw append-nil
decode_pairs_lem (a ∷ b ∷ s) out (ha, (hb, hs)) =
    rw (hex_to_byte_lem a b ha hb, decode_pairs)
      (ground (
        arith,
        decode_pairs_lem s (out ++ (digit_value a * 16 + digit_value b) ∷ []) hs,
        append_assoc out ((digit_value a * 16 + digit_value b) ∷ []) (pair_values s),
      ))

-- On ASCII text, the conversion returns for every text: the values of the pairs when the size fits and
-- each pair is two hexadecimal digits, and nothing otherwise.
pub from_hexadecimal_string_lem :
    (n : ℕ) (s : Bytes)
    → IsAscii s
    → from_hexadecimal_string n s
      ≡ ok (if length s / 2 == n && all_pairs s then some (pair_values s) else none)
unfolding from_hexadecimal_string
from_hexadecimal_string_lem n s h = ground (arith, decode_pairs_lem s [] h)

byte_to_hex-digit_values :
    (a b : ℕ)
    → is_hex_digit a ≡ true
    → is_hex_digit b ≡ true
    → byte_to_hex (digit_value a * 16 + digit_value b) ≡ to_lower a ∷ to_lower b ∷ []
byte_to_hex-digit_values a b ha hb =
    let x = digit_value a in
    let y = digit_value b in
    let hx : x < 16 = digit_value-lt a ha in
    let hy : y < 16 = digit_value-lt b hb in
    let high : (x * 16 + y) / 16 ≡ x = omega arith in
    let low : (x * 16 + y) % 16 ≡ y = omega arith in
    byte_to_hex_lem (x * 16 + y) (omega arith)
    ∙ rw (high, low, lower_digit-digit_value a ha, lower_digit-digit_value b hb) refl

all_pairs-cons :
    (a b : ℕ) (s : Bytes)
    → all_pairs (a ∷ b ∷ s) ≡ true
    → (is_hex_digit a ≡ true) × (is_hex_digit b ≡ true) × (all_pairs s ≡ true)
unfolding all_pairs
all_pairs-cons a b s h = ground arith

to-pair_values :
    (s : Bytes) (n : ℕ)
    → length s ≡ 2 * n
    → all_pairs s ≡ true
    → to_hexadecimal_string (pair_values s) ≡ map to_lower s
unfolding all_pairs pair_values to_hexadecimal_string
to-pair_values [] n e h = refl
to-pair_values (a ∷ []) n e h = absurd (omega arith)
to-pair_values (a ∷ b ∷ s) n e h =
    let (ha, hb, hs) = all_pairs-cons a b s h in
    rw (byte_to_hex-digit_values a b ha hb, to-pair_values s (n - 1) (omega arith) hs) refl

-- If an ASCII text of `2 * n` characters is accepted, the hexadecimal print of the result is the
-- text with its letters in lower case.
pub to-from_hexadecimal_string :
    (n : ℕ) (s : Bytes) {d : Bytes}
    → IsAscii s
    → length s ≡ 2 * n
    → from_hexadecimal_string n s ≡ ok (some d)
    → to_hexadecimal_string d ≡ map to_lower s
to-from_hexadecimal_string n s {d} h e r =
    let read = from_hexadecimal_string_lem n s h in
    let digits : all_pairs s ≡ true = ground (arith, r, read) in
    let values : d ≡ pair_values s = ground (arith, r, read) in
    rw values (to-pair_values s n e digits)
