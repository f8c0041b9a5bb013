-- ===== src/Hex.antt =====
-- include/dottorrent/hex.hpp: the tables between bytes and hexadecimal characters, and the two
-- conversions of whole strings. A `char` is given by its byte, from 0 to 255, and is signed, as on
-- x86-64: a byte from 128 on is a negative index of the table.
pub mod Digits
pub mod Strings
pub mod Examples
use Prim.Native.Nat.{bit_and}
use dottorrent.Base.{
  ℕ, zero, suc, ◌+◌, ◌*◌, ◌/◌, ◌^◌, ◌||◌, Option, none, some, List, [], ◌∷◌, ◌++◌, Bytes, codes,
  length, get_or, set, replicate, ltb, ◌==◌, if◌then◌else◌, Run, ok, throws, violation, undefined,
  ◌>>=◌,
}

abbrev int_to_hex_lower_case_table : Bytes
int_to_hex_lower_case_table = codes "0123456789abcdef"

abbrev int_to_hex_upper_case_table : Bytes
int_to_hex_upper_case_table = codes "0123456789ABCDEF"

-- for (a = first; rounds left; ++a) data[a] = base + (a - first)
fill_range : ℕ → ℕ → ℕ → List ℕ → List ℕ
fill_range zero a value table = table
fill_range (suc rounds) a value table = fill_range rounds (a + 1) (value + 1) (set table a value)

generate_hex_to_int_table : List ℕ
unfolding fill_range
generate_hex_to_int_table =
    fill_range 6 b'A' 10 (fill_range 6 b'a' 10 (fill_range 10 b'0' 0 (replicate 256 255)))

-- `table_[i]`: a negative index is out of bounds.
unfoldable pub hex_to_int : ℕ → Run ℕ
unfolding generate_hex_to_int_table
hex_to_int i = if ltb i 128 then ok (get_or generate_hex_to_int_table i 0) else undefined

-- `none` is the result `false`.
unfoldable pub hex_to_byte : ℕ → ℕ → Run (Option ℕ)
hex_to_byte a b = do
  upper ← hex_to_int a
  lower ← hex_to_int b
  if upper == 255 || lower == 255 then ok none else ok (some (upper * 2 ^ 4 + lower))

-- The two characters that are written for a byte.
pub byte_to_hex : ℕ → Bytes
byte_to_hex v =
    get_or int_to_hex_lower_case_table (bit_and v 0xf0 / 2 ^ 4) 0
    ∷ get_or int_to_hex_lower_case_table (bit_and v 0x0f) 0
    ∷ []

unfoldable pub byte_to_hex_uppercase : ℕ → Bytes
byte_to_hex_uppercase v =
    get_or int_to_hex_upper_case_table (bit_and v 0xf0 / 2 ^ 4) 0
    ∷ get_or int_to_hex_upper_case_table (bit_and v 0x0f) 0
    ∷ []

-- The loop over the pairs `hexdigest.substr(2 * i, 2)`, with the bytes decoded so far; a last single
-- character is not read. The first pair that fails ends it.
decode_pairs : Bytes → Bytes → Run (Option Bytes)
decode_pairs (a ∷ b ∷ rest) out = elim (hex_to_byte a b) [
  | ok (some v) ↦ decode_pairs rest (out ++ v ∷ [])
  | ok none ↦ ok none
  | throws e ↦ throws e
  | violation ↦ violation
  | undefined ↦ undefined
]
decode_pairs _ out = ok (some out)

unfoldable pub from_hexadecimal_string : ℕ → Bytes → Run (Option Bytes)
unfolding decode_pairs
from_hexadecimal_string n hexdigest =
    if length hexdigest / 2 == n then decode_pairs hexdigest [] else ok none

unfoldable pub to_hexadecimal_string : Bytes → Bytes
to_hexadecimal_string [] = []
to_hexadecimal_string (c ∷ d) = byte_to_hex c ++ to_hexadecimal_string d
