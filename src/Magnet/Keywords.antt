-- ===== src/Magnet/Keywords.antt =====
-- The printer on the number of its keywords.
use dottorrent.Base.{ℕ, zero, suc, ◌≡◌, refl, ap, ◌∙◌, List, ◌∷◌, ◌++◌, Bytes, none}
use dottorrent.Percent.{percent_encode}
use dottorrent.Magnet.{MagnetUri, keyword_loop, encode_keywords, encode_magnet_uri}

loop-none :
    (rounds : ℕ) (kw : Bytes) (it : List Bytes) (out : Bytes)
    → keyword_loop rounds (kw ∷ it) out ≡ none
unfolding keyword_loop
loop-none zero kw it out = refl
loop-none (suc rounds) kw it out = loop-none rounds kw it (out ++ b'+' ∷ percent_encode kw)

two_keywords :
    (rounds : ℕ) (kw next : Bytes) (it : List Bytes)
    → encode_keywords rounds (kw ∷ next ∷ it) ≡ none
unfolding encode_keywords
two_keywords rounds kw next it = loop-none rounds next it (percent_encode kw)

-- A link with two keywords or more is not printed within any number of rounds of the loop over the
-- keywords.
pub encode_two_keywords :
    (rounds : ℕ) (m : MagnetUri) (kw next : Bytes) (it : List Bytes)
    → m.keywords ≡ kw ∷ next ∷ it
    → encode_magnet_uri rounds m ≡ none
unfolding encode_magnet_uri
encode_two_keywords rounds m kw next it h =
    let none_left : encode_keywords rounds m.keywords ≡ none =
      ap (encode_keywords rounds) h ∙ two_keywords rounds kw next it in
    rw (encode_magnet_uri, none_left) refl
