-- ===== src/Percent/Examples.antt =====
-- A text with a space and a percent sign, and encoded texts that are cut short or wrong.
use dottorrent.Base.{
  ◌≡◌, ◌&&◌, ◌++◌, false, true, refl, arith, [], ◌∷◌, Bytes, codes, ok, undefined,
}
use dottorrent.Hex.{byte_to_hex_uppercase}
use dottorrent.Hex.Digits.{is_hex_digit}
use dottorrent.Hex.Strings.{IsBytes}
use dottorrent.Percent.{
  percent_encode, is_unreserved, percent_decode_to, success, is_alphanumerical,
}
use dottorrent.Percent.RoundTrip.{decode-percent_encode, decode_non_hex}

abbrev text : Bytes
text = codes "a %"

text-IsBytes : IsBytes text
text-IsBytes = (omega arith, (omega arith, (omega arith, tt)))

encode_test : percent_encode text ≡ codes "a%20%25"
unfolding percent_encode is_unreserved byte_to_hex_uppercase
encode_test = refl

is_alphanumerical_z : is_alphanumerical b'z' ≡ true
unfolding is_alphanumerical
is_alphanumerical_z = refl

is_hex_digit_z : (is_hex_digit b'z' && is_hex_digit b'z') ≡ false
unfolding is_hex_digit
is_hex_digit_z = refl

decode-percent_encode_example : percent_decode_to (percent_encode text) ≡ ok (success, text)
decode-percent_encode_example = decode-percent_encode text text-IsBytes

decode_non_hex_example :
    percent_decode_to (percent_encode text ++ b'%' ∷ b'z' ∷ b'z' ∷ []) ≡ undefined
decode_non_hex_example =
    decode_non_hex text [] b'z' b'z' text-IsBytes is_alphanumerical_z is_alphanumerical_z
      is_hex_digit_z
