-- ===== src/Magnet/Split.antt =====
-- Splitting a query string at its separators, and the pairs at the first equals sign.
use dottorrent.Base.{
  ℕ, ◌≡◌, refl, Bool, true, false, not, ◌&&◌, List, [], ◌∷◌, ◌++◌, append-nil, append_assoc, arith,
  Bytes, ◌==◌, ap, ◌∙◌, ok, throws, invalid_argument,
}
use dottorrent.Magnet.{split_loop, split_query_string, split_key_value_pair, split_at_equals}

-- A text that the character is not in.
abbrev pub lacks : ℕ → Bytes → Bool
lacks c [] = true
lacks c (d ∷ s) = not (d == c) && lacks c s

-- The parts with a separator between each two.
unfoldable pub join : ℕ → List Bytes → Bytes
join separator [] = []
join separator (part ∷ []) = part
join separator (part ∷ next ∷ parts) = part ++ separator ∷ join separator (next ∷ parts)

-- Parts that are not empty and lack the separator.
abbrev pub are_parts : ℕ → List Bytes → Bool
are_parts separator [] = true
are_parts separator ([] ∷ parts) = false
are_parts separator ((c ∷ part) ∷ parts) = lacks separator (c ∷ part) && are_parts separator parts

begun_part :
    (separator : ℕ) (begun part s : Bytes)
    → lacks separator part ≡ true
    → split_loop separator begun (part ++ s) ≡ split_loop separator (begun ++ part) s
unfolding split_loop
begun_part separator begun [] s h = rw append-nil refl
begun_part separator begun (c ∷ part) s h =
    let other : (c == separator) ≡ false = ground arith in
    step begun other
    ∙ begun_part separator (begun ++ c ∷ []) part s (ground arith)
    ∙ ap (λ t. split_loop separator t s) (append_assoc begun (c ∷ []) part)
  where
    step :
        (begun : Bytes)
        → (c == separator) ≡ false
        → split_loop separator begun (c ∷ part ++ s)
          ≡ split_loop separator (begun ++ c ∷ []) (part ++ s)
    step [] other = rw other refl
    step (b ∷ begun) other = rw other refl

at_separator :
    (separator : ℕ) (part s : Bytes)
    → split_loop separator part (separator ∷ s) ≡ part ∷ split_loop separator [] s
unfolding split_loop
at_separator separator [] s =
    let same : (separator == separator) ≡ true = ground arith in rw same refl
at_separator separator (c ∷ part) s =
    let same : (separator == separator) ≡ true = ground arith in rw same refl

split_loop-join :
    (separator : ℕ) (parts : List Bytes)
    → are_parts separator parts ≡ true
    → split_loop separator [] (join separator parts) ≡ parts
unfolding join
split_loop-join separator [] h = unfold split_loop in refl
split_loop-join separator ([] ∷ parts) h = cc
split_loop-join separator ((c ∷ part) ∷ []) h =
    ap (split_loop separator []) (sym_append_nil (c ∷ part))
    ∙ begun_part separator [] (c ∷ part) [] (ground arith)
    ∙ (unfold split_loop in refl)
  where
    sym_append_nil : (t : Bytes) → t ≡ t ++ []
    sym_append_nil t = rw append-nil refl
split_loop-join separator ((c ∷ part) ∷ next ∷ parts) h =
    begun_part separator [] (c ∷ part) (separator ∷ join separator (next ∷ parts)) (ground arith)
    ∙ at_separator separator (c ∷ part) (join separator (next ∷ parts))
    ∙ ap (λ ps. (c ∷ part) ∷ ps) (split_loop-join separator (next ∷ parts) (ground arith))

-- Parts that are not empty and lack the ampersand are split again as they were joined.
pub split_query_string-join :
    (parts : List Bytes)
    → are_parts b'&' parts ≡ true
    → split_query_string (join b'&' parts) ≡ parts
unfolding split_query_string
split_query_string-join parts h = split_loop-join b'&' parts h

split_at_equals-append :
    (before key v : Bytes)
    → lacks b'=' key ≡ true
    → split_at_equals before (key ++ b'=' ∷ v) ≡ ok (before ++ key, v)
unfolding split_at_equals
split_at_equals-append before [] v h = rw append-nil refl
split_at_equals-append before (c ∷ key) v h =
    let other : (c == b'=') ≡ false = ground arith in
    rw other (
      split_at_equals-append (before ++ c ∷ []) key v (ground arith)
      ∙ ap (λ k. ok (k, v)) (append_assoc before (c ∷ []) key))

no_equals :
    (before s : Bytes) → lacks b'=' s ≡ true → split_at_equals before s ≡ throws invalid_argument
unfolding split_at_equals
no_equals before [] h = refl
no_equals before (c ∷ s) h =
    let other : (c == b'=') ≡ false = ground arith in
    rw other (no_equals (before ++ c ∷ []) s (ground arith))

-- A key without an equals sign, the sign and any value are split into the key and the value; a text
-- without the sign throws.
pub split_key_value_pair_lem :
    (key v : Bytes)
    → lacks b'=' key ≡ true
    → (split_key_value_pair (key ++ b'=' ∷ v) ≡ ok (key, v))
      × (split_key_value_pair key ≡ throws invalid_argument)
unfolding split_key_value_pair
split_key_value_pair_lem key v h = (split_at_equals-append [] key v h, no_equals [] key h)
