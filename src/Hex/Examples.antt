-- ===== src/Hex/Examples.antt =====
-- Texts and their bytes.
use dottorrent.Base.{
  ◌≡◌, ◌&&◌, ◌==◌, ◌/◌, refl, arith, [], ◌∷◌, Bytes, codes, length, ok, some, none, if◌then◌else◌,
}
use dottorrent.Hex.{hex_to_byte, hex_to_int, from_hexadecimal_string}
use dottorrent.Hex.Strings.{IsAscii, all_pairs, pair_values, from_hexadecimal_string_lem}

abbrev capitals : Bytes
capitals = codes "0AbF"

capitals-IsAscii : IsAscii capitals
capitals-IsAscii = (omega arith, (omega arith, (omega arith, (omega arith, tt))))

capitals_read : from_hexadecimal_string 2 capitals ≡ ok (some (10 ∷ 191 ∷ []))
unfolding from_hexadecimal_string hex_to_byte hex_to_int
capitals_read = refl

from_hexadecimal_string_lem_example :
    from_hexadecimal_string 2 capitals
    ≡ ok (
        if length capitals / 2 == 2 && all_pairs capitals
        then some (pair_values capitals)
        else none)
from_hexadecimal_string_lem_example = from_hexadecimal_string_lem 2 capitals capitals-IsAscii
