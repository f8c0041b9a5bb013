-- ===== src/Percent.antt =====
-- include/dottorrent/percent_encoding.hpp: percent encoding and decoding of byte strings.
pub mod Char
pub mod RoundTrip
pub mod Examples
use dottorrent.Base.{
  ℕ, ◌≤◌, ◌<◌, Bool, true, false, ◌&&◌, ◌||◌, not, Option, none, some, List, [], ◌∷◌, ◌++◌, Bytes,
  leb, ◌==◌, if◌then◌else◌, Run, ok, throws, violation, undefined, ◌>>=◌, ◌⊎◌, inl, inr, length,
}
use dottorrent.Hex.{hex_to_byte, byte_to_hex_uppercase}

unfoldable pub is_numeric : ℕ → Bool
is_numeric c = leb b'0' c && leb c b'9'

unfoldable pub is_alpha : ℕ → Bool
is_alpha c =
    let upper_case = leb b'A' c && leb c b'Z' in
    let lower_case = leb b'a' c && leb c b'z' in upper_case || lower_case

pub is_alphanumerical : ℕ → Bool
unfolding is_numeric is_alpha
is_alphanumerical c = is_numeric c || is_alpha c

unfoldable pub is_unreserved : ℕ → Bool
unfolding is_numeric is_alpha
is_unreserved c = is_numeric c || is_alpha c || c == b'-' || c == b'.' || c == b'_' || c == b'~'

-- What is written for one character.
pub percent_encode_char : ℕ → Bytes
percent_encode_char c = if is_unreserved c then c ∷ [] else b'%' ∷ byte_to_hex_uppercase c

pub percent_encode : Bytes → Bytes
unfolding percent_encode_char
percent_encode [] = []
percent_encode (c ∷ s) = percent_encode_char c ++ percent_encode s

pub data Status : Type 0 where
  success non_hex_encoded_character incomplete_encoded_character : Status

-- The variables of the decoding loop; `buffer` holds the first `buffer_offset` characters of the
-- source's buffer, and `out` what was written.
pub record Decoder : Type 0 where
  pub copy_to_buffer_status : Bool
  pub buffer : Bytes
  pub out : Bytes

-- A full buffer is decoded. The result of `hex_to_byte` is not looked at, and where that is `false`
-- the byte was never written: reading it is undefined.
pub flush : Decoder → Run Decoder
flush d = elim d.buffer [
  | (a ∷ b ∷ []) ↦ do
    r ← hex_to_byte a b
    elim r [
      | some v ↦ ok (record { copy_to_buffer_status = false; buffer = []; out = d.out ++ v ∷ [] })
      | none ↦ undefined
    ]
  | _ ↦ ok d
]

-- One round of the loop: the new variables, or the status that it returns.
pub decode_step : ℕ → Decoder → Run (Decoder ⊎ Status)
unfolding flush
decode_step c d =
    if c == b'%'
    then ok (inl (record d { copy_to_buffer_status = true }))
    else if d.copy_to_buffer_status
    then (if not (is_alphanumerical c)
        then ok (inr non_hex_encoded_character)
        else (do d' ← flush (record d { buffer = d.buffer ++ c ∷ [] }); ok (inl d')))
    else ok (inl (record d { out = d.out ++ c ∷ [] }))

pub decode_loop : Bytes → Decoder → Run (Status × Bytes)
decode_loop [] d =
    ok (if length d.buffer == 0 then success else incomplete_encoded_character, d.out)
decode_loop (c ∷ s) d = elim (decode_step c d) [
  | ok (inl d') ↦ decode_loop s d'
  | ok (inr status) ↦ ok (status, d.out)
  | throws e ↦ throws e
  | violation ↦ violation
  | undefined ↦ undefined
]

-- `percent_decode(first, last, out)`: the status, and what was written to `out`.
pub percent_decode_to : Bytes → Run (Status × Bytes)
unfolding decode_loop decode_step
percent_decode_to s =
    decode_loop s (record { copy_to_buffer_status = false; buffer = []; out = [] })

-- `percent_decode(value)` drops the status.
pub percent_decode : Bytes → Run Bytes
percent_decode s = do r ← percent_decode_to s; ok r.1
