-- ===== src/Percent/RoundTrip.antt =====
-- Whole strings: what the encoder writes, and the decoder on encoded text, complete or cut short.
use dottorrent.Base.{
  ℕ, ◌<◌, ◌≡◌, refl, ap, ◌∙◌, true, false, ◌&&◌, ◌||◌, [], ◌∷◌, ◌++◌, append-nil, append_assoc,
  arith, Bytes, ◌==◌, ok, undefined, Bool-cases, inl, inr, All, All-append,
}
use dottorrent.Hex.Digits.{is_hex_digit, upper_digit, byte_to_hex_uppercase_lem}
use dottorrent.Hex.Strings.{IsBytes}
use dottorrent.Percent.{
  is_alphanumerical, is_unreserved, percent_encode_char, percent_encode, percent_decode_to,
  percent_decode, decode_loop, success, incomplete_encoded_character,
}
use dottorrent.Percent.Char.{
  idle, decode_percent, decode_plain, decode_first_digit, decode_other_pair,
  decode-percent_encode_char,
}

-- Behind encoded text the loop goes on as if it had copied the text.
pub decode_loop-percent_encode :
    (s rest out : Bytes)
    → IsBytes s
    → decode_loop (percent_encode s ++ rest) (idle out) ≡ decode_loop rest (idle (out ++ s))
unfolding percent_encode
decode_loop-percent_encode [] rest out h = rw append-nil refl
decode_loop-percent_encode (c ∷ s) rest out (hc, hs) =
    ap (λ t. decode_loop t (idle out))
      (append_assoc (percent_encode_char c) (percent_encode s) rest)
    ∙ decode-percent_encode_char c (percent_encode s ++ rest) out hc
    ∙ decode_loop-percent_encode s rest (out ++ c ∷ []) hs
    ∙ ap (λ t. decode_loop rest (idle t)) (append_assoc out (c ∷ []) s)

-- Every string of bytes is decoded from its encoding, with status `success`.
pub decode-percent_encode :
    (s : Bytes) → IsBytes s → percent_decode_to (percent_encode s) ≡ ok (success, s)
unfolding percent_decode_to
decode-percent_encode s h =
    ap (λ t. decode_loop t (idle [])) (sym_append_nil (percent_encode s))
    ∙ decode_loop-percent_encode s [] [] h
  where
    sym_append_nil : (t : Bytes) → t ≡ t ++ []
    sym_append_nil t = rw append-nil refl

-- The function that drops the status has the same result.
pub percent_decode-percent_encode :
    (s : Bytes) → IsBytes s → percent_decode (percent_encode s) ≡ ok s
unfolding percent_decode
percent_decode-percent_encode s h = rw (decode-percent_encode s h) refl

plain_loop :
    (t out : Bytes)
    → All (λ c. (c == b'%') ≡ false) t
    → decode_loop t (idle out) ≡ ok (success, out ++ t)
plain_loop [] out h = unfold decode_loop in rw append-nil refl
plain_loop (c ∷ t) out (hc, ht) =
    decode_plain c t out hc
    ∙ plain_loop t (out ++ c ∷ []) ht
    ∙ ap (λ u. ok (success, u)) (append_assoc out (c ∷ []) t)

-- A text without percent signs is decoded to itself.
pub percent_decode-plain : (t : Bytes) → All (λ c. (c == b'%') ≡ false) t → percent_decode t ≡ ok t
unfolding percent_decode percent_decode_to
percent_decode-plain t h = rw (plain_loop t [] h) refl

-- Text of unreserved characters is written as it is.
pub percent_encode-plain : (s : Bytes) → All (λ c. is_unreserved c ≡ true) s → percent_encode s ≡ s
unfolding percent_encode percent_encode_char
percent_encode-plain [] h = refl
percent_encode-plain (c ∷ s) (hc, hs) = rw hc (ap (λ t. c ∷ t) (percent_encode-plain s hs))

-- Behind the encoding of some bytes, a percent sign and one letter or digit at the end are reported
-- as incomplete; the text before them is decoded.
pub decode_one_digit :
    (s : Bytes) (c : ℕ)
    → IsBytes s
    → is_alphanumerical c ≡ true
    → percent_decode_to (percent_encode s ++ b'%' ∷ c ∷ []) ≡ ok (incomplete_encoded_character, s)
unfolding percent_decode_to
decode_one_digit s c h k =
    decode_loop-percent_encode s (b'%' ∷ c ∷ []) [] h
    ∙ decode_percent (c ∷ []) s
    ∙ decode_first_digit c [] s k
    ∙ (unfold decode_loop in refl)

-- Behind the encoding of some bytes, a percent sign at the end is dropped, with status `success`.
pub decode_no_digit :
    (s : Bytes) → IsBytes s → percent_decode_to (percent_encode s ++ b'%' ∷ []) ≡ ok (success, s)
unfolding percent_decode_to
decode_no_digit s h =
    decode_loop-percent_encode s (b'%' ∷ []) [] h
    ∙ decode_percent [] s
    ∙ (unfold decode_loop in refl)

-- Behind the encoding of some bytes, a percent sign with two letters or digits that are not both
-- hexadecimal makes the decoder read a byte that was never written, whatever follows.
pub decode_non_hex :
    (s rest : Bytes) (a b : ℕ)
    → IsBytes s
    → is_alphanumerical a ≡ true
    → is_alphanumerical b ≡ true
    → (is_hex_digit a && is_hex_digit b) ≡ false
    → percent_decode_to (percent_encode s ++ b'%' ∷ a ∷ b ∷ rest) ≡ undefined
unfolding percent_decode_to
decode_non_hex s rest a b h ka kb n =
    decode_loop-percent_encode s (b'%' ∷ a ∷ b ∷ rest) [] h ∙ decode_other_pair a b rest s ka kb n

-- The characters of encoded text.
abbrev pub IsEncoded : ℕ → Type 0
IsEncoded c = (is_unreserved c || c == b'%') ≡ true

upper_digit-IsEncoded : (n : ℕ) → n < 16 → IsEncoded (upper_digit n)
unfolding is_unreserved
upper_digit-IsEncoded n h = ground arith

percent_encode_char-IsEncoded : (c : ℕ) → c < 256 → All IsEncoded (percent_encode_char c)
unfolding percent_encode_char
percent_encode_char-IsEncoded c h = elim (Bool-cases (is_unreserved c)) [
  | inl e ↦ rw e (rw e refl, tt)
  | inr e ↦
      rw (e, byte_to_hex_uppercase_lem c h)
        (
          unfold is_unreserved in refl,
          (upper_digit-IsEncoded _ (omega arith), (upper_digit-IsEncoded _ (omega arith), tt)),
        )
]

-- The encoding of bytes holds unreserved characters and percent signs only.
pub percent_encode-IsEncoded : (s : Bytes) → IsBytes s → All IsEncoded (percent_encode s)
unfolding percent_encode
percent_encode-IsEncoded [] h = tt
percent_encode-IsEncoded (c ∷ s) (hc, hs) =
    All-append IsEncoded (percent_encode_char c) (percent_encode s)
      (percent_encode_char-IsEncoded c hc) (percent_encode-IsEncoded s hs)
