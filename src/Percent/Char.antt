-- ===== src/Percent/Char.antt =====
-- What is written for one character, and how the decoder reads it back.
use dottorrent.Base.{
  ℕ, ◌+◌, ◌*◌, ◌/◌, ◌%◌, ◌<◌, ◌≡◌, refl, ap, ◌∙◌, true, false, ◌&&◌, none, some, [], ◌∷◌, ◌++◌,
  arith, Bytes, ◌==◌, ok, undefined, inl, inr, Bool-cases,
}
use dottorrent.Hex.{hex_to_byte}
use dottorrent.Hex.Digits.{
  is_hex_digit, digit_value, upper_digit, hex_to_byte_lem, byte_to_hex_uppercase_lem,
  digit_value-upper_digit, upper_digit_hex,
}
use dottorrent.Percent.{
  is_alphanumerical, is_unreserved, percent_encode_char, Status, Decoder, flush, decode_step,
  decode_loop,
}

-- The decoder outside an encoded character, with `out` written.
abbrev pub idle : Bytes → Decoder
idle out = record { copy_to_buffer_status = false; buffer = []; out = out }

-- The decoder behind a percent sign.
abbrev pub pending : Bytes → Bytes → Decoder
pending buffer out = record { copy_to_buffer_status = true; buffer = buffer; out = out }

pub unreserved_not_percent : (c : ℕ) → is_unreserved c ≡ true → (c == b'%') ≡ false
unfolding is_unreserved
unreserved_not_percent c h = ground arith

pub alphanumerical_not_percent : (c : ℕ) → is_alphanumerical c ≡ true → (c == b'%') ≡ false
unfolding is_alphanumerical
alphanumerical_not_percent c h = ground arith

pub hex_digit-alphanumerical : (c : ℕ) → is_hex_digit c ≡ true → is_alphanumerical c ≡ true
unfolding is_alphanumerical is_hex_digit
hex_digit-alphanumerical c h = ground arith

pub alphanumerical-lt : (c : ℕ) → is_alphanumerical c ≡ true → c < 128
unfolding is_alphanumerical
alphanumerical-lt c h = ground arith

-- One round of the loop, from what the step does.
module _ (c : ℕ) (rest : Bytes) (d : Decoder) where
  pub decode_goes_on :
      (d' : Decoder)
      → decode_step c d ≡ ok (inl d')
      → decode_loop (c ∷ rest) d ≡ decode_loop rest d'
  unfolding decode_loop
  decode_goes_on d' h = rw (h, decode_loop) refl

  pub decode_stops :
      (s : Status) → decode_step c d ≡ ok (inr s) → decode_loop (c ∷ rest) d ≡ ok (s, d.out)
  unfolding decode_loop
  decode_stops s h = rw (h, decode_loop) refl

  pub decode_undefined : decode_step c d ≡ undefined → decode_loop (c ∷ rest) d ≡ undefined
  unfolding decode_loop
  decode_undefined h = rw (h, decode_loop) refl

-- Any character but the percent sign is copied.
pub decode_plain :
    (c : ℕ) (rest out : Bytes)
    → (c == b'%') ≡ false
    → decode_loop (c ∷ rest) (idle out) ≡ decode_loop rest (idle (out ++ c ∷ []))
unfolding decode_step
decode_plain c rest out h = decode_goes_on c rest (idle out) _ (ground (arith, h))

pub decode_unreserved :
    (c : ℕ) (rest out : Bytes)
    → is_unreserved c ≡ true
    → decode_loop (c ∷ rest) (idle out) ≡ decode_loop rest (idle (out ++ c ∷ []))
decode_unreserved c rest out h = decode_plain c rest out (unreserved_not_percent c h)

pub decode_percent :
    (rest out : Bytes) → decode_loop (b'%' ∷ rest) (idle out) ≡ decode_loop rest (pending [] out)
unfolding decode_loop decode_step
decode_percent rest out = refl

pub decode_first_digit :
    (a : ℕ) (rest out : Bytes)
    → is_alphanumerical a ≡ true
    → decode_loop (a ∷ rest) (pending [] out) ≡ decode_loop rest (pending (a ∷ []) out)
unfolding decode_step flush
decode_first_digit a rest out h =
    decode_goes_on a rest (pending [] out) _ (ground (arith, alphanumerical_not_percent a h))

-- The second character of a pair: it fills the buffer.
module _ (a b : ℕ) (out : Bytes) (kb : is_alphanumerical b ≡ true) where
  pub step_second_digit :
      (v : ℕ)
      → hex_to_byte a b ≡ ok (some v)
      → decode_step b (pending (a ∷ []) out) ≡ ok (inl (idle (out ++ v ∷ [])))
  unfolding decode_step flush
  step_second_digit v h = ground (arith, alphanumerical_not_percent b kb)

  pub step_second_other :
      hex_to_byte a b ≡ ok none → decode_step b (pending (a ∷ []) out) ≡ undefined
  unfolding decode_step flush
  step_second_other h = ground (arith, alphanumerical_not_percent b kb)

-- Two hexadecimal digits behind a percent sign are the byte that they spell.
pub decode_pair :
    (a b : ℕ) (rest out : Bytes)
    → is_hex_digit a ≡ true
    → is_hex_digit b ≡ true
    → decode_loop (b'%' ∷ a ∷ b ∷ rest) (idle out)
      ≡ decode_loop rest (idle (out ++ (digit_value a * 16 + digit_value b) ∷ []))
decode_pair a b rest out ha hb =
    let ka = hex_digit-alphanumerical a ha in
    let kb = hex_digit-alphanumerical b hb in
    let read =
      hex_to_byte_lem a b (alphanumerical-lt a ka) (alphanumerical-lt b kb) ∙ rw (ha, hb) refl in
    decode_percent (a ∷ b ∷ rest) out
    ∙ decode_first_digit a (b ∷ rest) out ka
    ∙ decode_goes_on b rest (pending (a ∷ []) out) _ (step_second_digit a b out kb _ read)

-- Two letters or digits behind a percent sign that are not both hexadecimal.
pub decode_other_pair :
    (a b : ℕ) (rest out : Bytes)
    → is_alphanumerical a ≡ true
    → is_alphanumerical b ≡ true
    → (is_hex_digit a && is_hex_digit b) ≡ false
    → decode_loop (b'%' ∷ a ∷ b ∷ rest) (idle out) ≡ undefined
decode_other_pair a b rest out ka kb h =
    let read = hex_to_byte_lem a b (alphanumerical-lt a ka) (alphanumerical-lt b kb) ∙ rw h refl in
    decode_percent (a ∷ b ∷ rest) out
    ∙ decode_first_digit a (b ∷ rest) out ka
    ∙ decode_undefined b rest (pending (a ∷ []) out) (step_second_other a b out kb read)

-- The encoding of a byte is decoded to it.
pub decode-percent_encode_char :
    (c : ℕ) (rest out : Bytes)
    → c < 256
    → decode_loop (percent_encode_char c ++ rest) (idle out)
      ≡ decode_loop rest (idle (out ++ c ∷ []))
unfolding percent_encode_char
decode-percent_encode_char c rest out h = elim (Bool-cases (is_unreserved c)) [
  | inl e ↦ rw e (decode_unreserved c rest out e)
  | inr e ↦
      let (h0, s0) = upper_digit_hex (c / 16) (omega arith) in
      let (h1, s1) = upper_digit_hex (c % 16) (omega arith) in
      let v0 = digit_value-upper_digit (c / 16) (omega arith) in
      let v1 = digit_value-upper_digit (c % 16) (omega arith) in
      let back : digit_value (upper_digit (c / 16)) * 16 + digit_value (upper_digit (c % 16)) ≡ c =
        omega (arith, v0, v1) in
      rw (e, byte_to_hex_uppercase_lem c h)
        (decode_pair _ _ rest out h0 h1 ∙ ap (λ v. decode_loop rest (idle (out ++ v ∷ []))) back)
]
