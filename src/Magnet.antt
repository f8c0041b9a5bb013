-- ===== src/Magnet.antt =====
-- include/dottorrent/magnet_uri.hpp and src/magnet_uri.cpp: magnet links, their parser and their printer.
-- The keywords are an unordered set: the model has them in the order in which the set is traversed,
-- which the C++ library leaves open. The member `size_` has no initial value: what it holds is a
-- parameter of the default constructor.
pub mod Split
pub mod Keywords
pub mod Text
pub mod Fields
pub mod RoundTrip
pub mod Examples
use dottorrent.Base.{
  ℕ, zero, suc, ◌+◌, ◌-◌, Bool, true, false, not, ◌&&◌, ◌||◌, Option, none, some, List, [], ◌∷◌,
  ◌++◌, Bytes, codes, length, take, drop, ◌==◌, if◌then◌else◌, Run, ok, throws, violation,
  undefined, ◌>>=◌, ◌>>◌, expects, bytes_eq, invalid_argument, system_error,
}
use Prim.Native.Nat.{bit_and}
use dottorrent.Base.Decimal.{to_decimal, Parsed, value, no_number, too_large, from_chars}
use dottorrent.Percent.{percent_encode, percent_decode}
use dottorrent.Attributes.{v1, v2, hybrid}
use dottorrent.Announce.{AnnounceUrl}
use dottorrent.Storage.{protocol}
use dottorrent.Metafile.{Metafile, DhtNode, add_unique}

-- The loop of the two splitting functions, with the characters of the part that was begun. Nothing is
-- pushed where no part was begun at the end.
unfoldable pub split_loop : ℕ → Bytes → Bytes → List Bytes
split_loop separator [] [] = []
split_loop separator (c ∷ part) [] = (c ∷ part) ∷ []
split_loop separator part (c ∷ s) =
    let next = split_loop separator [] s in
    let longer = split_loop separator (part ++ c ∷ []) s in
    if c == separator then part ∷ next else longer

unfoldable pub split_query_string : Bytes → List Bytes
split_query_string uri_query_string = split_loop b'&' [] uri_query_string

unfoldable pub split_keywords_string : Bytes → List Bytes
split_keywords_string keywords = split_loop b'+' [] keywords

-- The key and the value, with the characters of the key before.
unfoldable pub split_at_equals : Bytes → Bytes → Run (Bytes × Bytes)
split_at_equals key [] = throws invalid_argument
split_at_equals key (c ∷ s) =
    let rest = split_at_equals (key ++ c ∷ []) s in if c == b'=' then ok (key, s) else rest

unfoldable pub split_key_value_pair : Bytes → Run (Bytes × Bytes)
unfolding split_at_equals
split_key_value_pair uri_query_string = split_at_equals [] uri_query_string

pub record MagnetUri : Type 0 where
  pub display_name : Bytes
  pub size : ℕ
  pub topics : List Bytes
  pub trackers : List Bytes
  pub web_seeds : List Bytes
  pub acceptable_sources : List Bytes
  pub exact_source : Bytes
  pub keywords : List Bytes
  pub peer_addresses : List Bytes
  pub manifest : Bytes

unfoldable pub default_magnet : ℕ → MagnetUri
default_magnet indeterminate = record {
  display_name = [];
  size = indeterminate;
  topics = [];
  trackers = [];
  web_seeds = [];
  acceptable_sources = [];
  exact_source = [];
  keywords = [];
  peer_addresses = [];
  manifest = [];
}

unfoldable pub add_topic : MagnetUri → Bytes → MagnetUri
add_topic m topic = record m { topics = m.topics ++ topic ∷ [] }

unfoldable pub add_web_seed : MagnetUri → Bytes → MagnetUri
add_web_seed m seed = record m { web_seeds = m.web_seeds ++ seed ∷ [] }

unfoldable pub add_tracker : MagnetUri → Bytes → MagnetUri
add_tracker m tracker = record m { trackers = m.trackers ++ tracker ∷ [] }

unfoldable pub add_acceptable_source : MagnetUri → Bytes → MagnetUri
add_acceptable_source m source = record m {
  acceptable_sources = m.acceptable_sources ++ source ∷ [];
}

unfoldable pub add_keyword : MagnetUri → Bytes → MagnetUri
add_keyword m keyword = record m { keywords = add_unique bytes_eq keyword m.keywords }

unfoldable pub set_size : MagnetUri → ℕ → MagnetUri
set_size m size = record m { size = size }

unfoldable pub set_display_name : MagnetUri → Bytes → MagnetUri
set_display_name m name = record m { display_name = name }

unfoldable pub set_manifest : MagnetUri → Bytes → MagnetUri
set_manifest m manifest = record m { manifest = manifest }

unfoldable pub set_exact_source : MagnetUri → Bytes → MagnetUri
set_exact_source m source = record m { exact_source = source }

unfoldable pub add_peer_address : MagnetUri → Bytes → MagnetUri
add_peer_address m peer_address = record m {
  peer_addresses = m.peer_addresses ++ peer_address ∷ [];
}

-- add_peer_address(address, port)
unfoldable pub add_peer_port : MagnetUri → Bytes → ℕ → MagnetUri
unfolding add_peer_address
add_peer_port m address port = add_peer_address m (address ++ b':' ∷ to_decimal port)

unfoldable pub add_keywords : MagnetUri → List Bytes → MagnetUri
unfolding add_keyword
add_keywords m [] = m
add_keywords m (kw ∷ kws) = add_keywords (add_keyword m kw) kws

-- The value of `xl`: what is left unread is looked at before the error code.
unfoldable pub read_size : Bytes → Run ℕ
read_size s = elim (from_chars s) [
  | value n [] ↦ ok n
  | value n (c ∷ rest) ↦ throws invalid_argument
  | no_number [] ↦ throws system_error
  | no_number (c ∷ rest) ↦ throws invalid_argument
  | too_large [] ↦ throws system_error
  | too_large (c ∷ rest) ↦ throws invalid_argument
]

-- Storing a decoded value.
abbrev pub store : (Bytes → MagnetUri) → Bytes → Run MagnetUri
store set s = do v ← percent_decode s; ok (set v)

-- One round of the loop of the parser.
unfoldable pub apply_part : MagnetUri → Bytes → Bytes → Run MagnetUri
apply_part m key v =
    if bytes_eq key (codes "dn")
    then store (set_display_name m) v
    else if bytes_eq key (codes "xl")
    then (do n ← read_size v; ok (set_size m n))
    else if bytes_eq key (codes "xt")
    then store (add_topic m) v
    else if bytes_eq key (codes "tr")
    then store (add_tracker m) v
    else if bytes_eq key (codes "ws")
    then store (add_web_seed m) v
    else if bytes_eq key (codes "as")
    then store (add_acceptable_source m) v
    else if bytes_eq key (codes "xs")
    then store (set_exact_source m) v
    else if bytes_eq key (codes "kt")
    then store (λ s. add_keywords m (split_keywords_string s)) v
    else if bytes_eq key (codes "mt")
    then store (set_manifest m) v
    else if bytes_eq key (codes "x.pe")
    then store (add_peer_address m) v
    else ok m

unfoldable pub apply_parts : MagnetUri → List Bytes → Run MagnetUri
apply_parts m [] = ok m
apply_parts m (part ∷ parts) = do
  kv ← split_key_value_pair part
  m' ← apply_part m kv.0 kv.1
  apply_parts m' parts

abbrev pub introducer : Bytes
introducer = codes "magnet:?"

-- make_magnet_uri(std::string_view)
unfoldable pub make_magnet_uri : ℕ → Bytes → Run MagnetUri
make_magnet_uri indeterminate uri =
    if not (bytes_eq (take 8 uri) introducer)
    then throws invalid_argument
    else apply_parts (default_magnet indeterminate) (split_query_string (drop 8 uri))

-- The trackers, web seeds and nodes of a metafile.
unfoldable pub add_trackers : MagnetUri → List AnnounceUrl → MagnetUri
add_trackers m [] = m
add_trackers m (tr ∷ trs) = add_trackers (add_tracker m tr.url) trs

unfoldable pub add_web_seeds : MagnetUri → List Bytes → MagnetUri
add_web_seeds m [] = m
add_web_seeds m (ws ∷ seeds) = add_web_seeds (add_web_seed m ws) seeds

unfoldable pub add_nodes : MagnetUri → List DhtNode → MagnetUri
add_nodes m [] = m
add_nodes m (dn ∷ nodes) = add_nodes (add_peer_port m dn.url dn.port) nodes

-- The topics for the versions of a metafile. The hexadecimal hashes are parameters: they are computed by
-- the bencode library and a hasher.
unfoldable pub add_topics : Bytes → Bytes → ℕ → ℕ → MagnetUri → Run MagnetUri
add_topics hex_v1 hex_v2 storage_protocol wanted m =
    let topic_v1 = codes "urn:btih:" ++ hex_v1 in
    let topic_v2 = codes "urn:btmh:1220" ++ hex_v2 in
    let with_v1 = if bit_and wanted v1 == v1 then add_topic m topic_v1 else m in
    if storage_protocol == hybrid
    then ok (if bit_and wanted v2 == v2 then add_topic with_v1 topic_v2 else with_v1)
    else if storage_protocol == v1
    then ok (add_topic m topic_v1)
    else if storage_protocol == v2
    then ok (add_topic m topic_v2)
    else throws invalid_argument

-- make_magnet_uri(const metafile&, protocol)
unfoldable pub magnet_of_metafile :
    (Metafile → Bytes) → (Metafile → Bytes) → Metafile → ℕ → Run MagnetUri
magnet_of_metafile hex_v1 hex_v2 m wanted = do
  magnet ← add_topics (hex_v1 m) (hex_v2 m) (protocol m.storage) wanted (default_magnet 0)
  ok (
      add_nodes
        (add_web_seeds (add_trackers (set_display_name magnet m.name) m.announce_list) m.web_seeds)
        m.dht_nodes)

-- The topics are written as they are.
unfoldable pub encode_topics : Bool → List Bytes → Bytes
encode_topics first [] = []
encode_topics first (topic ∷ topics) =
    (if first then codes "xt=" else codes "&xt=") ++ topic ++ encode_topics false topics

unfoldable pub encode_all : Bytes → List Bytes → Bytes
encode_all key [] = []
encode_all key (v ∷ vs) = key ++ percent_encode v ++ encode_all key vs

unfoldable pub encode_some : Bytes → Bytes → Bytes
encode_some key [] = []
encode_some key (c ∷ s) = key ++ percent_encode (c ∷ s)

-- The inner loop over the keywords, which does not move on: `none` when the rounds are used up.
unfoldable pub keyword_loop : ℕ → List Bytes → Bytes → Option Bytes
keyword_loop zero it out = none
keyword_loop (suc rounds) [] out = some out
keyword_loop (suc rounds) (kw ∷ it) out =
    keyword_loop rounds (kw ∷ it) (out ++ b'+' ∷ percent_encode kw)

unfoldable pub encode_keywords : ℕ → List Bytes → Option Bytes
encode_keywords rounds [] = some []
encode_keywords rounds (kw ∷ it) = keyword_loop rounds it (percent_encode kw)

-- encode_magnet_uri(magnet), with a number of rounds for the loop over the keywords.
unfoldable pub encode_magnet_uri : ℕ → MagnetUri → Option Bytes
encode_magnet_uri rounds m =
    let before =
      introducer
      ++ encode_topics true m.topics
      ++ encode_some (codes "&dn=") m.display_name
      ++ (if not (m.size == 0) then codes "&xl=" ++ percent_encode (to_decimal m.size) else [])
      ++ encode_all (codes "&tr=") m.trackers
      ++ encode_all (codes "&ws=") m.web_seeds
      ++ encode_all (codes "&as=") m.acceptable_sources
      ++ encode_some (codes "&xs=") m.exact_source in
    let behind =
      encode_some (codes "&mt=") m.manifest ++ encode_all (codes "&x.pe=") m.peer_addresses in
    elim (encode_keywords rounds m.keywords) [
      | none ↦ none
      | some kt ↦ some (before ++ kt ++ behind)
    ]
