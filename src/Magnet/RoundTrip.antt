-- ===== src/Magnet/RoundTrip.antt =====
-- The parser on what the printer writes.
use dottorrent.Base.{
  ℕ, ◌^◌, ◌<◌, ◌≡◌, ◌≢◌, refl, sym, ap, ◌∙◌, true, false, List, [], ◌∷◌, ◌++◌, append-nil, arith,
  Bytes, codes, ◌==◌, Bool-cases, inl, inr, some, ok, All,
}
use dottorrent.Base.Decimal.{to_decimal, to_decimal-IsDigits, is_digit}
use dottorrent.Hex.Strings.{IsBytes}
use dottorrent.Percent.{percent_encode, is_unreserved}
use dottorrent.Percent.RoundTrip.{percent_encode-IsEncoded, IsEncoded}
use dottorrent.Magnet.{
  MagnetUri, default_magnet, apply_parts, set_display_name, set_size, set_exact_source,
  set_manifest, encode_magnet_uri, make_magnet_uri, introducer,
}
use dottorrent.Magnet.Split.{lacks, join, are_parts, split_query_string-join}
use dottorrent.Magnet.Text.{parts_of, part_of, topic_parts, size_part, other_parts, encode_parts}
use dottorrent.Magnet.Fields.{
  IsPlain, size_step, name_step, exact_step, manifest_step, one_field, put_topics, put_trackers,
  put_web_seeds, put_sources, put_peers,
}

lacks-append : (c : ℕ) (s t : Bytes) → lacks c s ≡ true → lacks c t ≡ true → lacks c (s ++ t) ≡ true
lacks-append c [] t h k = k
lacks-append c (d ∷ s) t h k = ground (arith, lacks-append c s t)

encoded-lacks : (s : Bytes) → All IsEncoded s → lacks b'&' s ≡ true
encoded-lacks [] h = refl
encoded-lacks (c ∷ s) (hc, hs) = ground (arith, other c hc, encoded-lacks s hs)
  where
    other : (c : ℕ) → IsEncoded c → (c == b'&') ≡ false
    other c h = unfold is_unreserved in ground arith

are_parts-append :
    (ps qs : List Bytes)
    → are_parts b'&' ps ≡ true
    → are_parts b'&' qs ≡ true
    → are_parts b'&' (ps ++ qs) ≡ true
are_parts-append [] qs h k = k
are_parts-append ([] ∷ ps) qs h k = cc
are_parts-append ((c ∷ p) ∷ ps) qs h k = ground (arith, are_parts-append ps qs)

module _ (c : ℕ) (key : Bytes) (lacking : lacks b'&' (c ∷ key) ≡ true) where
  one_part : (v : Bytes) → IsBytes v → lacks b'&' ((c ∷ key) ++ percent_encode v) ≡ true
  one_part v h =
      lacks-append b'&' (c ∷ key) (percent_encode v) lacking
        (encoded-lacks (percent_encode v) (percent_encode-IsEncoded v h))

  are_parts_of : (vs : List Bytes) → All IsBytes vs → are_parts b'&' (parts_of (c ∷ key) vs) ≡ true
  are_parts_of [] h = refl
  are_parts_of (v ∷ vs) (hv, hs) = ground (arith, one_part v hv, are_parts_of vs hs)

  are_part_of : (v : Bytes) → IsBytes v → are_parts b'&' (part_of (c ∷ key) v) ≡ true
  are_part_of [] h = refl
  are_part_of (d ∷ v) h = ground (arith, one_part (d ∷ v) h)

plain-lacks : (t : Bytes) → All IsPlain t → lacks b'&' t ≡ true
plain-lacks [] h = refl
plain-lacks (c ∷ t) ((k, hc), ht) = ground (arith, hc, plain-lacks t ht)

are_topic_parts : (ts : List Bytes) → All (All IsPlain) ts → are_parts b'&' (topic_parts ts) ≡ true
are_topic_parts [] h = refl
are_topic_parts (t ∷ ts) (ht, hs) =
    ground (arith, lacks-append b'&' (codes "xt=") t refl (plain-lacks t ht), are_topic_parts ts hs)

are_size_part : (n : ℕ) → are_parts b'&' (size_part n) ≡ true
are_size_part n = elim (Bool-cases (n == 0)) [
  | inl e ↦ rw e refl
  | inr e ↦ rw e (
      ground (
        arith,
        one_part b'x' (codes "l=") refl (to_decimal n)
            (digits-IsBytes (to_decimal n) (to_decimal-IsDigits n)),
      ))
]
  where
    digits-IsBytes : (s : Bytes) → All (λ c. is_digit c ≡ true) s → IsBytes s
    digits-IsBytes [] h = tt
    digits-IsBytes (c ∷ s) (hc, hs) = (ground arith, digits-IsBytes s hs)

-- A link that can be read back: it has a topic, a size and no keywords, its topics hold neither percent
-- signs nor ampersands, and its other texts are bytes.
pub record IsLink (m : MagnetUri) : Type 0 where
  pub topic : Bytes
  pub more_topics : List Bytes
  pub some_topic : m.topics ≡ topic ∷ more_topics
  pub plain_topics : All (All IsPlain) m.topics
  pub no_keywords : m.keywords ≡ []
  pub some_size : m.size ≢ 0
  pub small_size : m.size < 2 ^ 64
  pub name_bytes : IsBytes m.display_name
  pub tracker_bytes : All IsBytes m.trackers
  pub seed_bytes : All IsBytes m.web_seeds
  pub source_bytes : All IsBytes m.acceptable_sources
  pub exact_bytes : IsBytes m.exact_source
  pub manifest_bytes : IsBytes m.manifest
  pub peer_bytes : All IsBytes m.peer_addresses

are_all_parts :
    (m : MagnetUri) → IsLink m → are_parts b'&' (topic_parts m.topics ++ other_parts m) ≡ true
are_all_parts m l =
    let p8 = parts_of (codes "x.pe=") m.peer_addresses in
    let p7 = part_of (codes "mt=") m.manifest ++ p8 in
    let p6 = part_of (codes "xs=") m.exact_source ++ p7 in
    let p5 = parts_of (codes "as=") m.acceptable_sources ++ p6 in
    let p4 = parts_of (codes "ws=") m.web_seeds ++ p5 in
    let p3 = parts_of (codes "tr=") m.trackers ++ p4 in
    let p2 = size_part m.size ++ p3 in
    let a8 = are_parts_of b'x' (codes ".pe=") refl m.peer_addresses l.peer_bytes in
    let a7 =
      are_parts-append (part_of (codes "mt=") m.manifest) p8
        (are_part_of b'm' (codes "t=") refl m.manifest l.manifest_bytes) a8 in
    let a6 =
      are_parts-append (part_of (codes "xs=") m.exact_source) p7
        (are_part_of b'x' (codes "s=") refl m.exact_source l.exact_bytes) a7 in
    let a5 =
      are_parts-append (parts_of (codes "as=") m.acceptable_sources) p6
        (are_parts_of b'a' (codes "s=") refl m.acceptable_sources l.source_bytes) a6 in
    let a4 =
      are_parts-append (parts_of (codes "ws=") m.web_seeds) p5
        (are_parts_of b'w' (codes "s=") refl m.web_seeds l.seed_bytes) a5 in
    let a3 =
      are_parts-append (parts_of (codes "tr=") m.trackers) p4
        (are_parts_of b't' (codes "r=") refl m.trackers l.tracker_bytes) a4 in
    let a2 = are_parts-append (size_part m.size) p3 (are_size_part m.size) a3 in
    let a1 =
      are_parts-append (part_of (codes "dn=") m.display_name) p2
        (are_part_of b'd' (codes "n=") refl m.display_name l.name_bytes) a2 in
    are_parts-append (topic_parts m.topics) (other_parts m)
      (are_topic_parts m.topics l.plain_topics) a1

put_size :
    (m : MagnetUri) (n : ℕ) (ps : List Bytes)
    → n ≢ 0
    → n < 2 ^ 64
    → apply_parts m (size_part n ++ ps) ≡ apply_parts (set_size m n) ps
put_size m n ps ne h =
    let some : (n == 0) ≡ false = ground (arith, ne) in rw some (size_step m n ps h)

-- The fields that are there after the parts, one state for each field.
read_parts :
    (start : ℕ) (m : MagnetUri)
    → IsLink m
    → apply_parts (default_magnet start) (topic_parts m.topics ++ other_parts m) ≡ ok m
unfolding default_magnet set_display_name set_size set_exact_source set_manifest
read_parts start m l =
    let p8 = parts_of (codes "x.pe=") m.peer_addresses in
    let p7 = part_of (codes "mt=") m.manifest ++ p8 in
    let p6 = part_of (codes "xs=") m.exact_source ++ p7 in
    let p5 = parts_of (codes "as=") m.acceptable_sources ++ p6 in
    let p4 = parts_of (codes "ws=") m.web_seeds ++ p5 in
    let p3 = parts_of (codes "tr=") m.trackers ++ p4 in
    let p2 = size_part m.size ++ p3 in
    let m0 = default_magnet start in
    let m1 : MagnetUri = record m0 { topics = m.topics } in
    let m2 : MagnetUri = record m1 { display_name = m.display_name } in
    let m3 : MagnetUri = record m2 { size = m.size } in
    let m4 : MagnetUri = record m3 { trackers = m.trackers } in
    let m5 : MagnetUri = record m4 { web_seeds = m.web_seeds } in
    let m6 : MagnetUri = record m5 { acceptable_sources = m.acceptable_sources } in
    let m7 : MagnetUri = record m6 { exact_source = m.exact_source } in
    let m8 : MagnetUri = record m7 { manifest = m.manifest } in
    let m9 : MagnetUri = record m8 { peer_addresses = m.peer_addresses } in
    put_topics m0 m.topics (other_parts m) l.plain_topics
    ∙ one_field (codes "dn=") set_display_name name_step m1 m.display_name p2 l.name_bytes refl
    ∙ put_size m2 m.size p3 l.some_size l.small_size
    ∙ put_trackers m3 m.trackers p4 l.tracker_bytes
    ∙ put_web_seeds m4 m.web_seeds p5 l.seed_bytes
    ∙ put_sources m5 m.acceptable_sources p6 l.source_bytes
    ∙ one_field (codes "xs=") set_exact_source exact_step m6 m.exact_source p7 l.exact_bytes refl
    ∙ one_field (codes "mt=") set_manifest manifest_step m7 m.manifest p8 l.manifest_bytes refl
    ∙ ap (apply_parts m8) (padded p8)
    ∙ put_peers m8 m.peer_addresses [] l.peer_bytes
    ∙ (unfold apply_parts in ap (λ kws. ok (record m9 { keywords = kws })) (sym l.no_keywords))
  where
    padded : (ps : List Bytes) → ps ≡ ps ++ []
    padded ps = rw append-nil refl

introduced :
    (start : ℕ) (ps : List Bytes)
    → are_parts b'&' ps ≡ true
    → make_magnet_uri start (introducer ++ join b'&' ps) ≡ apply_parts (default_magnet start) ps
unfolding make_magnet_uri
introduced start ps h = rw (split_query_string-join ps h) refl

-- A link of byte strings with a topic, a 64-bit size that is not zero and no keywords, whose topics
-- hold neither percent signs nor ampersands, is printed, whatever the number of rounds, and the
-- parser reads the same link back.
pub make-encode_magnet_uri :
    (rounds start : ℕ) (m : MagnetUri)
    → IsLink m
    → (text : Bytes) × (encode_magnet_uri rounds m ≡ some text)
      × (make_magnet_uri start text ≡ ok m)
make-encode_magnet_uri rounds start m l =
    let topics : topic_parts m.topics ≡ (codes "xt=" ++ l.topic) ∷ topic_parts l.more_topics =
      ap topic_parts l.some_topic in
    (
      introducer ++ join b'&' (topic_parts m.topics ++ other_parts m),
      encode_parts rounds m l.topic l.more_topics l.no_keywords l.some_topic
          ∙ ap (λ ps. some (introducer ++ join b'&' (ps ++ other_parts m))) (sym topics),
      introduced start (topic_parts m.topics ++ other_parts m) (are_all_parts m l)
          ∙ read_parts start m l,
    )
