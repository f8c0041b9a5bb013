-- ===== src/Magnet/Examples.antt =====
-- A query of two parts, and a link with two keywords.
use dottorrent.Base.{◌≡◌, refl, List, [], ◌∷◌, Bytes, codes, ok, none, some, arith}
use dottorrent.Magnet.{MagnetUri, default_magnet, encode_magnet_uri, make_magnet_uri}
use dottorrent.Magnet.RoundTrip.{IsLink, make-encode_magnet_uri}
use dottorrent.Magnet.Keywords.{encode_two_keywords}

abbrev parts : List Bytes
parts = codes "xt=urn" ∷ codes "dn=name" ∷ []

abbrev with_keywords : MagnetUri
with_keywords = record (default_magnet 0) { keywords = codes "a" ∷ codes "b" ∷ [] }

encode_two_keywords_example : encode_magnet_uri 100 with_keywords ≡ none
encode_two_keywords_example = encode_two_keywords 100 with_keywords (codes "a") (codes "b") [] refl

abbrev link : MagnetUri
link = record {
  display_name = codes "a name";
  size = 1234;
  topics = codes "urn" ∷ codes "u" ∷ [];
  trackers = codes "t&" ∷ [];
  web_seeds = [];
  acceptable_sources = [];
  exact_source = [];
  keywords = [];
  peer_addresses = codes "h:1" ∷ [];
  manifest = [];
}

link-IsLink : IsLink link
link-IsLink = record {
  topic = codes "urn";
  more_topics = codes "u" ∷ [];
  some_topic = refl;
  plain_topics = (((refl, refl), ((refl, refl), ((refl, refl), tt))), (((refl, refl), tt), tt));
  no_keywords = refl;
  some_size = omega arith;
  small_size = omega arith;
  name_bytes =
      (omega arith, (omega arith, (omega arith, (omega arith, (omega arith, (omega arith, tt))))));
  tracker_bytes = ((omega arith, (omega arith, tt)), tt);
  seed_bytes = tt;
  source_bytes = tt;
  exact_bytes = tt;
  manifest_bytes = tt;
  peer_bytes = ((omega arith, (omega arith, (omega arith, tt))), tt);
}

make-encode_magnet_uri_example :
    (text : Bytes) × (encode_magnet_uri 1 link ≡ some text) × (make_magnet_uri 0 text ≡ ok link)
make-encode_magnet_uri_example = make-encode_magnet_uri 1 0 link link-IsLink
