-- ===== src/InfoHash/Print.antt =====
-- Info hashes as hexadecimal text.
use dottorrent.Base.{
  ℕ, ◌*◌, ◌≡◌, refl, sym, ap, ◌∙◌, true, Bytes, length, arith, ◌==◌, ok, ◌>>=◌, some,
}
use dottorrent.Hex.{to_hexadecimal_string, from_hexadecimal_string}
use dottorrent.Hex.Strings.{IsBytes, from-to_hexadecimal_string, length-to_hexadecimal_string}
use dottorrent.Attributes.{v1, v2}
use dottorrent.InfoHash.{of_v1, of_v2, make_hash_from_hex, from_hex, get_hex}

make_hash-print :
    (size : ℕ) (d : Bytes)
    → IsBytes d
    → length d ≡ size
    → make_hash_from_hex size (to_hexadecimal_string d) ≡ ok d
unfolding make_hash_from_hex
make_hash-print size d h e =
    let fits : (length (to_hexadecimal_string d) == 2 * size) ≡ true =
      ground (arith, length-to_hexadecimal_string d, e) in
    let read : from_hexadecimal_string size (to_hexadecimal_string d) ≡ ok (some d) =
      ap (λ n. from_hexadecimal_string n (to_hexadecimal_string d)) (sym e)
      ∙ from-to_hexadecimal_string d h in
    rw (fits, read) refl

-- For a digest of 20 and one of 32 bytes, the text that `get_hex` returns for the v1 hash of the one and
-- for the v2 hash of the other is read back by `from_hex` as the same info hash.
pub from_hex-get_hex :
    (d e : Bytes)
    → IsBytes d
    → IsBytes e
    → length d ≡ 20
    → length e ≡ 32
    → ((get_hex (of_v1 d) v1 >>= from_hex v1) ≡ ok (of_v1 d))
      × ((get_hex (of_v2 e) v2 >>= from_hex v2) ≡ ok (of_v2 e))
unfolding get_hex from_hex of_v1 of_v2
from_hex-get_hex d e hd he sd se =
    (rw (make_hash-print 20 d hd sd) refl, rw (make_hash-print 32 e he se) refl)
