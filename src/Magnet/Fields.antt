-- ===== src/Magnet/Fields.antt =====
-- The parser on the parts of one field.
use dottorrent.Base.{
  ℕ, ◌^◌, ◌<◌, ◌≡◌, refl, sym, ap, ◌∙◌, true, false, List, [], ◌∷◌, ◌++◌, append-nil, append_assoc,
  arith, Bytes, codes, ◌==◌, ok, All,
}
use dottorrent.Base.Decimal.{to_decimal, from_chars-to_decimal, to_decimal-IsDigits, is_digit}
use dottorrent.Hex.Strings.{IsBytes}
use dottorrent.Percent.{percent_encode, is_unreserved}
use dottorrent.Percent.RoundTrip.{
  percent_decode-percent_encode, percent_decode-plain, percent_encode-plain,
}
use dottorrent.Magnet.{
  MagnetUri, split_key_value_pair, split_at_equals, apply_part, apply_parts, read_size,
  set_display_name, set_size, add_topic, add_tracker, add_web_seed, add_acceptable_source,
  set_exact_source, set_manifest, add_peer_address,
}
use dottorrent.Magnet.Text.{parts_of, part_of, topic_parts}

-- A character of a topic, which is written as it is.
abbrev pub IsPlain : ℕ → Type 0
IsPlain c = ((c == b'%') ≡ false) × ((c == b'&') ≡ false)

plain_percent : (t : Bytes) → All IsPlain t → All (λ c. (c == b'%') ≡ false) t
plain_percent [] h = tt
plain_percent (c ∷ t) ((hc, k), ht) = (hc, plain_percent t ht)

tracker_step :
    (m : MagnetUri) (v : Bytes) (ps : List Bytes)
    → IsBytes v
    → apply_parts m ((codes "tr=" ++ percent_encode v) ∷ ps) ≡ apply_parts (add_tracker m v) ps
unfolding apply_parts split_key_value_pair split_at_equals apply_part
tracker_step m v ps h = rw (percent_decode-percent_encode v h) refl

web_seed_step :
    (m : MagnetUri) (v : Bytes) (ps : List Bytes)
    → IsBytes v
    → apply_parts m ((codes "ws=" ++ percent_encode v) ∷ ps) ≡ apply_parts (add_web_seed m v) ps
unfolding apply_parts split_key_value_pair split_at_equals apply_part
web_seed_step m v ps h = rw (percent_decode-percent_encode v h) refl

source_step :
    (m : MagnetUri) (v : Bytes) (ps : List Bytes)
    → IsBytes v
    → apply_parts m ((codes "as=" ++ percent_encode v) ∷ ps)
      ≡ apply_parts (add_acceptable_source m v) ps
unfolding apply_parts split_key_value_pair split_at_equals apply_part
source_step m v ps h = rw (percent_decode-percent_encode v h) refl

peer_step :
    (m : MagnetUri) (v : Bytes) (ps : List Bytes)
    → IsBytes v
    → apply_parts m ((codes "x.pe=" ++ percent_encode v) ∷ ps)
      ≡ apply_parts (add_peer_address m v) ps
unfolding apply_parts split_key_value_pair split_at_equals apply_part
peer_step m v ps h = rw (percent_decode-percent_encode v h) refl

pub name_step :
    (m : MagnetUri) (v : Bytes) (ps : List Bytes)
    → IsBytes v
    → apply_parts m ((codes "dn=" ++ percent_encode v) ∷ ps) ≡ apply_parts (set_display_name m v) ps
unfolding apply_parts split_key_value_pair split_at_equals apply_part
name_step m v ps h = rw (percent_decode-percent_encode v h) refl

pub exact_step :
    (m : MagnetUri) (v : Bytes) (ps : List Bytes)
    → IsBytes v
    → apply_parts m ((codes "xs=" ++ percent_encode v) ∷ ps) ≡ apply_parts (set_exact_source m v) ps
unfolding apply_parts split_key_value_pair split_at_equals apply_part
exact_step m v ps h = rw (percent_decode-percent_encode v h) refl

pub manifest_step :
    (m : MagnetUri) (v : Bytes) (ps : List Bytes)
    → IsBytes v
    → apply_parts m ((codes "mt=" ++ percent_encode v) ∷ ps) ≡ apply_parts (set_manifest m v) ps
unfolding apply_parts split_key_value_pair split_at_equals apply_part
manifest_step m v ps h = rw (percent_decode-percent_encode v h) refl

topic_step :
    (m : MagnetUri) (v : Bytes) (ps : List Bytes)
    → All (λ c. (c == b'%') ≡ false) v
    → apply_parts m ((codes "xt=" ++ v) ∷ ps) ≡ apply_parts (add_topic m v) ps
unfolding apply_parts split_key_value_pair split_at_equals apply_part
topic_step m v ps h = rw (percent_decode-plain v h) refl

digit_unreserved :
    (s : Bytes) → All (λ c. is_digit c ≡ true) s → All (λ c. is_unreserved c ≡ true) s
digit_unreserved [] h = tt
digit_unreserved (c ∷ s) (hc, hs) = (of_digit c hc, digit_unreserved s hs)
  where
    of_digit : (c : ℕ) → is_digit c ≡ true → is_unreserved c ≡ true
    of_digit c h = unfold is_unreserved in ground arith

read_size-to_decimal : (n : ℕ) → n < 2 ^ 64 → read_size (to_decimal n) ≡ ok n
unfolding read_size
read_size-to_decimal n h = rw (read_size, from_chars-to_decimal n h) refl

print_decimal : (n : ℕ) → percent_encode (to_decimal n) ≡ to_decimal n
print_decimal n =
    percent_encode-plain (to_decimal n) (digit_unreserved (to_decimal n) (to_decimal-IsDigits n))

pub size_step :
    (m : MagnetUri) (n : ℕ) (ps : List Bytes)
    → n < 2 ^ 64
    → apply_parts m ((codes "xl=" ++ percent_encode (to_decimal n)) ∷ ps)
      ≡ apply_parts (set_size m n) ps
unfolding apply_parts split_key_value_pair split_at_equals apply_part
size_step m n ps h = rw (print_decimal n, read_size-to_decimal n h) refl

module _ (key : Bytes) (set : MagnetUri → Bytes → MagnetUri)
    (step : (m : MagnetUri) (v : Bytes) (ps : List Bytes)
      → IsBytes v
      → apply_parts m ((key ++ percent_encode v) ∷ ps) ≡ apply_parts (set m v) ps) where
  -- A field that is left out if it is empty.
  pub one_field :
      (m : MagnetUri) (v : Bytes) (ps : List Bytes)
      → IsBytes v
      → set m [] ≡ m
      → apply_parts m (part_of key v ++ ps) ≡ apply_parts (set m v) ps
  one_field m [] ps h unset = ap (λ n. apply_parts n ps) (sym unset)
  one_field m (c ∷ v) ps h unset = step m (c ∷ v) ps h

  -- A field of several values, with the function that adds them all.
  several_values :
      (put : MagnetUri → List Bytes → MagnetUri)
      → ((m : MagnetUri) → put m [] ≡ m)
      → ((m : MagnetUri) (v : Bytes) (vs : List Bytes) → put (set m v) vs ≡ put m (v ∷ vs))
      → (m : MagnetUri) (vs ps : List Bytes) → All IsBytes vs
      → apply_parts m (parts_of key vs ++ ps) ≡ apply_parts (put m vs) ps
  several_values put nil cons m [] ps h = ap (λ n. apply_parts n ps) (sym (nil m))
  several_values put nil cons m (v ∷ vs) ps (hv, hs) =
      step m v (parts_of key vs ++ ps) hv
      ∙ several_values put nil cons (set m v) vs ps hs
      ∙ ap (λ n. apply_parts n ps) (cons m v vs)

pub put_topics :
    (m : MagnetUri) (ts ps : List Bytes)
    → All (All IsPlain) ts
    → apply_parts m (topic_parts ts ++ ps) ≡ apply_parts (record m { topics = m.topics ++ ts }) ps
put_topics m [] ps h = ap (λ ts. apply_parts (record m { topics = ts }) ps) (padded m.topics)
  where
    padded : (ts : List Bytes) → ts ≡ ts ++ []
    padded ts = rw append-nil refl
put_topics m (t ∷ ts) ps (ht, hs) =
    topic_step m t (topic_parts ts ++ ps) (plain_percent t ht)
    ∙ put_topics (add_topic m t) ts ps hs
    ∙ (unfold add_topic in
        ap (λ us. apply_parts (record m { topics = us }) ps) (append_assoc m.topics (t ∷ []) ts))

pub put_trackers :
    (m : MagnetUri) (vs ps : List Bytes)
    → All IsBytes vs
    → apply_parts m (parts_of (codes "tr=") vs ++ ps)
      ≡ apply_parts (record m { trackers = m.trackers ++ vs }) ps
unfolding add_tracker
put_trackers =
    several_values (codes "tr=") add_tracker tracker_step
      (λ m vs. record m { trackers = m.trackers ++ vs })
      (λ m. ap (λ ts. record m { trackers = ts }) (append-nil m.trackers))
      (λ m v vs. ap (λ ts. record m { trackers = ts }) (append_assoc m.trackers (v ∷ []) vs))

pub put_web_seeds :
    (m : MagnetUri) (vs ps : List Bytes)
    → All IsBytes vs
    → apply_parts m (parts_of (codes "ws=") vs ++ ps)
      ≡ apply_parts (record m { web_seeds = m.web_seeds ++ vs }) ps
unfolding add_web_seed
put_web_seeds =
    several_values (codes "ws=") add_web_seed web_seed_step
      (λ m vs. record m { web_seeds = m.web_seeds ++ vs })
      (λ m. ap (λ ts. record m { web_seeds = ts }) (append-nil m.web_seeds))
      (λ m v vs. ap (λ ts. record m { web_seeds = ts }) (append_assoc m.web_seeds (v ∷ []) vs))

pub put_sources :
    (m : MagnetUri) (vs ps : List Bytes)
    → All IsBytes vs
    → apply_parts m (parts_of (codes "as=") vs ++ ps)
      ≡ apply_parts (record m { acceptable_sources = m.acceptable_sources ++ vs }) ps
unfolding add_acceptable_source
put_sources =
    several_values (codes "as=") add_acceptable_source source_step
      (λ m vs. record m { acceptable_sources = m.acceptable_sources ++ vs })
      (λ m. ap (λ ts. record m { acceptable_sources = ts }) (append-nil m.acceptable_sources))
      (λ m v vs.
        ap (λ ts. record m { acceptable_sources = ts })
          (append_assoc m.acceptable_sources (v ∷ []) vs))

pub put_peers :
    (m : MagnetUri) (vs ps : List Bytes)
    → All IsBytes vs
    → apply_parts m (parts_of (codes "x.pe=") vs ++ ps)
      ≡ apply_parts (record m { peer_addresses = m.peer_addresses ++ vs }) ps
unfolding add_peer_address
put_peers =
    several_values (codes "x.pe=") add_peer_address peer_step
      (λ m vs. record m { peer_addresses = m.peer_addresses ++ vs })
      (λ m. ap (λ ts. record m { peer_addresses = ts }) (append-nil m.peer_addresses))
      (λ m v vs.
        ap (λ ts. record m { peer_addresses = ts }) (append_assoc m.peer_addresses (v ∷ []) vs))
