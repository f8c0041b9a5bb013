-- ===== src/Attributes.antt =====
-- The enumerations of include/dottorrent/general.hpp, and the attribute letters of a file. A bitmask
-- enumeration is its underlying number, with the operators of include/dottorrent/bitmask_operators.hpp.
pub mod Letters
pub mod Examples
use Prim.Native.Nat.{bit_and, bit_or}
use dottorrent.Base.{
  ℕ, ◌+◌, Bool, true, false, ◌||◌, List, [], ◌∷◌, ◌++◌, Bytes, ◌==◌, if◌then◌else◌, Run, ok, throws,
  violation, undefined, ◌>>=◌, invalid_argument,
}

pub data FileMode : Type 0 where
  empty single multi : FileMode

-- enum class protocol: `none` is 0, `hybrid` both versions.
abbrev pub v1 : ℕ
v1 = 1

abbrev pub v2 : ℕ
v2 = 2

abbrev pub hybrid : ℕ
hybrid = 3

-- enum class file_attributes: `none` is 0.
abbrev pub symlink : ℕ
symlink = 1

abbrev pub executable : ℕ
executable = 2

abbrev pub hidden : ℕ
hidden = 4

abbrev pub padding_file : ℕ
padding_file = 8

-- (v & flag) == flag
unfoldable pub has_flag : ℕ → ℕ → Bool
has_flag v flag = bit_and v flag == flag

-- One letter, if its flag is set.
abbrev pub letter : ℕ → ℕ → ℕ → Bytes
letter v flag c = if has_flag v flag then c ∷ [] else []

-- to_string(file_attributes)
unfoldable pub attributes_to_string : ℕ → Bytes
unfolding has_flag
attributes_to_string v =
    if v == 0
    then []
    else letter v executable b'x'
      ++ letter v symlink b'l'
      ++ letter v hidden b'h'
      ++ letter v padding_file b'p'

-- One round of the loop: the flag of a letter is added, and another letter throws.
unfoldable pub add_letter : ℕ → ℕ → Run ℕ
add_letter attributes c =
    if c == b'l'
    then ok (bit_or attributes symlink)
    else if c == b'x'
    then ok (bit_or attributes executable)
    else if c == b'h'
    then ok (bit_or attributes hidden)
    else if c == b'p'
    then ok (bit_or attributes padding_file)
    else throws invalid_argument

unfoldable pub add_letters : ℕ → Bytes → Run ℕ
add_letters attributes [] = ok attributes
add_letters attributes (c ∷ s) = do attributes' ← add_letter attributes c; add_letters attributes' s

unfoldable pub make_file_attributes : Bytes → Run ℕ
unfolding add_letters add_letter
make_file_attributes value = add_letters 0 value
