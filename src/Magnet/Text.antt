-- ===== src/Magnet/Text.antt =====
-- What the printer of magnet links writes: parts that are joined by ampersands.
use dottorrent.Base.{
  ℕ, ◌≡◌, refl, sym, ap, ◌∙◌, true, false, not, List, [], ◌∷◌, ◌++◌, append-nil, append_assoc,
  Bytes, codes, ◌==◌, if◌then◌else◌, Bool-cases, inl, inr, some,
}
use dottorrent.Base.Decimal.{to_decimal}
use dottorrent.Percent.{percent_encode}
use dottorrent.Magnet.{
  MagnetUri, encode_topics, encode_all, encode_some, encode_keywords, encode_magnet_uri, introducer,
}
use dottorrent.Magnet.Split.{join}

-- Parts, each behind an ampersand.
abbrev pub tail : List Bytes → Bytes
tail [] = []
tail (p ∷ ps) = b'&' ∷ p ++ tail ps

tail-append : (ps qs : List Bytes) → tail (ps ++ qs) ≡ tail ps ++ tail qs
tail-append [] qs = refl
tail-append (p ∷ ps) qs =
    ap (λ t. b'&' ∷ t)
      (ap (λ t. p ++ t) (tail-append ps qs) ∙ sym (append_assoc p (tail ps) (tail qs)))

join-tail : (p : Bytes) (ps : List Bytes) → join b'&' (p ∷ ps) ≡ p ++ tail ps
unfolding join
join-tail p [] = sym_append_nil p
  where
    sym_append_nil : (t : Bytes) → t ≡ t ++ []
    sym_append_nil t = rw append-nil refl
join-tail p (q ∷ ps) = ap (λ t. p ++ b'&' ∷ t) (join-tail q ps)

-- The parts of a list of values, and of a value that is left out if it is empty.
abbrev pub parts_of : Bytes → List Bytes → List Bytes
parts_of key [] = []
parts_of key (v ∷ vs) = (key ++ percent_encode v) ∷ parts_of key vs

abbrev pub part_of : Bytes → Bytes → List Bytes
part_of key [] = []
part_of key (c ∷ s) = (key ++ percent_encode (c ∷ s)) ∷ []

abbrev pub topic_parts : List Bytes → List Bytes
topic_parts [] = []
topic_parts (t ∷ ts) = (codes "xt=" ++ t) ∷ topic_parts ts

abbrev pub size_part : ℕ → List Bytes
size_part n = if not (n == 0) then (codes "xl=" ++ percent_encode (to_decimal n)) ∷ [] else []

all_tail : (key : Bytes) (vs : List Bytes) → encode_all (b'&' ∷ key) vs ≡ tail (parts_of key vs)
unfolding encode_all
all_tail key [] = refl
all_tail key (v ∷ vs) = ap (λ t. b'&' ∷ ((key ++ percent_encode v) ++ t)) (all_tail key vs)

some_tail : (key v : Bytes) → encode_some (b'&' ∷ key) v ≡ tail (part_of key v)
unfolding encode_some
some_tail key [] = refl
some_tail key (c ∷ s) = ap (λ t. b'&' ∷ t) (padded (key ++ percent_encode (c ∷ s)))
  where
    padded : (t : Bytes) → t ≡ t ++ []
    padded t = rw append-nil refl

topics_tail : (ts : List Bytes) → encode_topics false ts ≡ tail (topic_parts ts)
unfolding encode_topics
topics_tail [] = refl
topics_tail (t ∷ ts) = ap (λ u. (codes "&xt=" ++ t) ++ u) (topics_tail ts)

size_tail :
    (n : ℕ)
    → (if not (n == 0) then codes "&xl=" ++ percent_encode (to_decimal n) else [])
      ≡ tail (size_part n)
size_tail n = elim (Bool-cases (n == 0)) [
  | inl e ↦ rw e refl
  | inr e ↦ rw e (padded (codes "&xl=" ++ percent_encode (to_decimal n)))
]
  where
    padded : (t : Bytes) → t ≡ t ++ []
    padded t = rw append-nil refl

-- The parts behind the topics.
abbrev pub other_parts : MagnetUri → List Bytes
other_parts m =
    part_of (codes "dn=") m.display_name
    ++ (size_part m.size
        ++ (parts_of (codes "tr=") m.trackers
            ++ (parts_of (codes "ws=") m.web_seeds
                ++ (parts_of (codes "as=") m.acceptable_sources
                    ++ (part_of (codes "xs=") m.exact_source
                        ++ (part_of (codes "mt=") m.manifest
                            ++ parts_of (codes "x.pe=") m.peer_addresses))))))

-- Right-nested texts with the topics of a link in front.
regroup :
    (i t a b c d e f g h : Bytes)
    → (i ++ t ++ a ++ b ++ c ++ d ++ e ++ f) ++ [] ++ (g ++ h)
      ≡ i ++ (t ++ (a ++ (b ++ (c ++ (d ++ (e ++ (f ++ (g ++ h))))))))
regroup i t a b c d e f g h = simp (append_assoc, append-nil)

first_topic :
    (ts : List Bytes) (topic : Bytes) (topics : List Bytes)
    → ts ≡ topic ∷ topics
    → encode_topics true ts ≡ (codes "xt=" ++ topic) ++ tail (topic_parts topics)
unfolding encode_topics
first_topic ts topic topics h = rw h (ap (λ u. (codes "xt=" ++ topic) ++ u) (topics_tail topics))

tail_others :
    (m : MagnetUri)
    → tail (other_parts m)
      ≡ tail (part_of (codes "dn=") m.display_name)
        ++ (tail (size_part m.size)
            ++ (tail (parts_of (codes "tr=") m.trackers)
                ++ (tail (parts_of (codes "ws=") m.web_seeds)
                    ++ (tail (parts_of (codes "as=") m.acceptable_sources)
                        ++ (tail (part_of (codes "xs=") m.exact_source)
                            ++ (tail (part_of (codes "mt=") m.manifest)
                                ++ tail (parts_of (codes "x.pe=") m.peer_addresses)))))))
tail_others m = simp tail-append

texts :
    (m : MagnetUri) (topic : Bytes) (topics : List Bytes)
    → m.topics ≡ topic ∷ topics
    → (introducer
          ++ encode_topics true m.topics
          ++ encode_some (codes "&dn=") m.display_name
          ++ (if not (m.size == 0) then codes "&xl=" ++ percent_encode (to_decimal m.size) else [])
          ++ encode_all (codes "&tr=") m.trackers
          ++ encode_all (codes "&ws=") m.web_seeds
          ++ encode_all (codes "&as=") m.acceptable_sources
          ++ encode_some (codes "&xs=") m.exact_source)
        ++ []
        ++ (encode_some (codes "&mt=") m.manifest ++ encode_all (codes "&x.pe=") m.peer_addresses)
      ≡ introducer ++ ((codes "xt=" ++ topic) ++ tail (topic_parts topics ++ other_parts m))
texts m topic topics some_topic =
    regroup introducer (encode_topics true m.topics) (encode_some (codes "&dn=") m.display_name)
      (if not (m.size == 0) then codes "&xl=" ++ percent_encode (to_decimal m.size) else [])
      (encode_all (codes "&tr=") m.trackers) (encode_all (codes "&ws=") m.web_seeds)
      (encode_all (codes "&as=") m.acceptable_sources) (encode_some (codes "&xs=") m.exact_source)
      (encode_some (codes "&mt=") m.manifest) (encode_all (codes "&x.pe=") m.peer_addresses)
    ∙ rw
        (
          first_topic m.topics topic topics some_topic,
          some_tail (codes "dn=") m.display_name,
          size_tail m.size,
          all_tail (codes "tr=") m.trackers,
          all_tail (codes "ws=") m.web_seeds,
          all_tail (codes "as=") m.acceptable_sources,
          some_tail (codes "xs=") m.exact_source,
          some_tail (codes "mt=") m.manifest,
          all_tail (codes "x.pe=") m.peer_addresses,
        )
        (ap (λ t. introducer ++ t)
          (append_assoc (codes "xt=" ++ topic) (tail (topic_parts topics)) _
            ∙ ap (λ t. (codes "xt=" ++ topic) ++ t)
                (ap (λ t. tail (topic_parts topics) ++ t) (sym (tail_others m))
                  ∙ sym (tail-append (topic_parts topics) (other_parts m)))))

-- What is printed for a link without keywords: the parts, joined by ampersands.
pub encode_parts :
    (rounds : ℕ) (m : MagnetUri) (topic : Bytes) (topics : List Bytes)
    → m.keywords ≡ []
    → m.topics ≡ topic ∷ topics
    → encode_magnet_uri rounds m
      ≡ some
          (introducer ++ join b'&' ((codes "xt=" ++ topic) ∷ (topic_parts topics ++ other_parts m)))
unfolding encode_magnet_uri
encode_parts rounds m topic topics no_keywords some_topic =
    let kt : encode_keywords rounds m.keywords ≡ some [] =
      ap (encode_keywords rounds) no_keywords ∙ (unfold encode_keywords in refl) in
    rw (encode_magnet_uri, kt)
      (ap some (
        texts m topic topics some_topic
        ∙ ap (λ t. introducer ++ t)
            (sym (join-tail (codes "xt=" ++ topic) (topic_parts topics ++ other_parts m)))))
