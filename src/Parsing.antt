-- ===== src/Parsing.antt =====
-- src/metafile_parsing.cpp: a metafile from a bencode value, field by field. The files and pieces are in
-- Parsing/Files and Parsing/Tree, the whole in Parsing/Torrent. What bencode does is the parameter `B`.
pub mod Paths
pub mod Files
pub mod Tree
pub mod Walk
pub mod Refused
pub mod Torrent
pub mod Trackers
pub mod General
pub mod Entries
pub mod Read
pub mod Pieces
pub mod Layers
pub mod Known
pub mod Whole
pub mod Examples
use dottorrent.Base.{
  negsuc, pos, to_u64, ℤ, ℕ, zero, suc, ◌+◌, ◌%◌, ◌^◌, Bool, true, false, not, ◌||◌, Option, none,
  some, List, [], ◌∷◌, Bytes, codes, length, ltb, leb, ◌==◌, bytes_eq, if◌then◌else◌, Run, ok,
  throws, violation, undefined, expects, ◌>>=◌, ◌>>◌, parse_error,
}
use dottorrent.Attributes.{v1, v2}
use dottorrent.Announce.{AnnounceUrl, contains_url, tier_size, insert}
use dottorrent.InfoHash.{from_data, sha1_size, sha256_size}
use dottorrent.Metafile.{
  Metafile, add_tracker, with_list, set_private, set_comment, set_created_by, add_collection,
  add_http_seed, add_web_seed, add_dht_node, set_creation_date, add_similar_torrent, set_name,
  set_source, member,
}
use dottorrent.Bencode.{
  Dict, Bencode, found, access, catch_access, find_key, insert_or_assign, at_key,
}

abbrev pub is_some {ℓ} : {A : Type ℓ} → Option A → Bool
is_some none = false
is_some (some v) = true

-- `v > 1`, and the conversion to `bool`.
abbrev pub above_one : ℤ → Bool
above_one (pos n) = ltb 1 n
above_one (negsuc n) = false

abbrev pub to_bool : ℤ → Bool
to_bool (pos zero) = false
to_bool _ = true

abbrev pub known_keys : List Bytes
known_keys =
    codes "length"
    ∷ codes "name"
    ∷ codes "files"
    ∷ codes "file tree"
    ∷ codes "piece length"
    ∷ codes "pieces"
    ∷ codes "meta version"
    ∷ codes "private"
    ∷ codes "source"
    ∷ []

-- The trackers behind the new first one, a tier further on.
unfoldable pub insert_shifted : List AnnounceUrl → List AnnounceUrl → Run (List AnnounceUrl)
insert_shifted trackers [] = ok trackers
insert_shifted trackers (t ∷ ts) = do
  trackers' ← insert trackers (record t { tier = t.tier + 1 })
  insert_shifted trackers' ts

-- A url in `announce` that the list does not have goes in front of it, in a tier of its own.
unfoldable pub add_first : Metafile → Bytes → Run Metafile
unfolding insert_shifted
add_first m announce =
    if contains_url m.announce_list announce
    then ok m
    else if leb 1 (tier_size m.announce_list 0)
    then with_list m (do
      first ← insert [] (record { url = announce; tier = 0 })
      insert_shifted first m.announce_list)
    else add_tracker m announce (some 0)

-- An info hash of 20 or of 32 bytes.
unfoldable pub add_infohash : Metafile → Bytes → Run Metafile
add_infohash m hash_string =
    if length hash_string == sha1_size
    then (do hash ← from_data v1 hash_string; ok (add_similar_torrent m hash))
    else if length hash_string == sha256_size
    then (do hash ← from_data v2 hash_string; ok (add_similar_torrent m hash))
    else throws parse_error

module _ {V : Type 0} (B : Bencode V) where
  -- `Expects(holds_dict(data))`, and the dictionary.
  abbrev pub dict_of : V → Run (Dict V)
  dict_of root = found (B.get_dict root) (violation) (λ d. ok d)

  -- The dictionary of `dict.at("info")`, where there is one.
  abbrev pub info_at : Dict V → Run (Dict V)
  info_at d = do info ← at_key (codes "info") d; access (B.get_dict info)

  -- The same behind `Expects(dict.contains("info"))`.
  abbrev pub info_dict : V → Run (Dict V)
  info_dict root = do d ← dict_of root; expects (is_some (find_key (codes "info") d)); info_at d

  -- What follows for a key that is there.
  abbrev pub if_found : Bytes → Dict V → Metafile → (V → Run Metafile) → Run Metafile
  if_found key d m next = found (find_key key d) (ok m) (λ v. next v)

  -- The loop over a list of strings.
  unfoldable pub each_string : (Metafile → Bytes → Run Metafile) → Metafile → List V → Run Metafile
  each_string add m [] = ok m
  each_string add m (c ∷ cs) = do s ← access (B.get_string c); m' ← add m s; each_string add m' cs

  abbrev pub string_list : (Metafile → Bytes → Run Metafile) → Metafile → V → Run Metafile
  string_list add m v = do vs ← access (B.get_list v); each_string add m vs

  unfoldable pub parse_tier : ℕ → Metafile → List V → Run Metafile
  unfolding each_string
  parse_tier tier m urls = each_string (λ m s. add_tracker m s (some tier)) m urls

  unfoldable pub parse_tiers : ℕ → Metafile → List V → Run Metafile
  unfolding parse_tier
  parse_tiers tier m [] = ok m
  parse_tiers tier m (e ∷ es) = do
    urls ← access (B.get_list e)
    m' ← parse_tier tier m urls
    parse_tiers (suc tier) m' es

  unfoldable pub parse_announce : V → Metafile → Run Metafile
  unfolding parse_tiers add_first
  parse_announce root m = do
    d ← dict_of root
    m' ← catch_access (
        if_found (codes "announce-list") d m
          (λ v. do tiers ← access (B.get_list v); parse_tiers 0 m tiers))
    catch_access (
        if_found (codes "announce") d m'
          (λ v. do announce ← access (B.get_string v); add_first m' announce))

  unfoldable pub parse_private : V → Metafile → Run Metafile
  parse_private root m = do
    info ← info_dict root
    catch_access (
        if_found (codes "private") info m (λ v. do
          n ← access (B.get_integer v)
          if above_one n then throws parse_error else ok (set_private m (to_bool n))))

  -- A field that is a string in the given dictionary.
  abbrev pub string_field : Bytes → Dict V → Metafile → (Metafile → Bytes → Metafile) → Run Metafile
  string_field key d m put =
      catch_access (if_found key d m (λ v. do s ← access (B.get_string v); ok (put m s)))

  unfoldable pub parse_comment : V → Metafile → Run Metafile
  parse_comment root m = do d ← dict_of root; string_field (codes "comment") d m set_comment

  unfoldable pub parse_created_by : V → Metafile → Run Metafile
  parse_created_by root m = do
    d ← dict_of root
    string_field (codes "created by") d m set_created_by

  unfoldable pub parse_collections : V → Metafile → Run Metafile
  unfolding each_string
  parse_collections root m = do
    d ← dict_of root
    info ← info_at d
    catch_access (do
      m' ← if_found (codes "collections") info m (string_list (λ m s. ok (add_collection m s)) m)
      if_found (codes "collections") d m' (string_list (λ m s. ok (add_collection m s)) m'))

  unfoldable pub parse_http_seeds : V → Metafile → Run Metafile
  unfolding each_string
  parse_http_seeds root m = do
    d ← dict_of root
    catch_access (if_found (codes "httpseeds") d m (string_list (λ m s. ok (add_http_seed m s)) m))

  unfoldable pub parse_web_seeds : V → Metafile → Run Metafile
  unfolding each_string
  parse_web_seeds root m = do
    d ← dict_of root
    catch_access (if_found (codes "url-list") d m (string_list (λ m s. ok (add_web_seed m s)) m))

  -- A node is a list of a host and a port, which is cut to 16 bits.
  abbrev pub parse_node : Metafile → List V → Run Metafile
  parse_node m (url ∷ port ∷ []) = do
    s ← access (B.get_string url)
    n ← access (B.get_integer port)
    ok (add_dht_node m (record { url = s; port = to_u64 n % 2 ^ 16 }))
  parse_node m _ = violation

  unfoldable pub parse_nodes : Metafile → List V → Run Metafile
  parse_nodes m [] = ok m
  parse_nodes m (c ∷ cs) = do
    tuple ← access (B.get_list c)
    m' ← parse_node m tuple
    parse_nodes m' cs

  unfoldable pub parse_dht_nodes : V → Metafile → Run Metafile
  unfolding parse_nodes
  parse_dht_nodes root m = do
    d ← dict_of root
    catch_access
        (if_found (codes "nodes") d m (λ v. do vs ← access (B.get_list v); parse_nodes m vs))

  unfoldable pub parse_creation_date : V → Metafile → Run Metafile
  parse_creation_date root m = do
    d ← dict_of root
    catch_access (
        if_found (codes "creation date") d m
          (λ v. do n ← access (B.get_integer v); set_creation_date m n))

  unfoldable pub parse_similar_torrents : V → Metafile → Run Metafile
  unfolding each_string add_infohash
  parse_similar_torrents root m = do
    d ← dict_of root
    info ← info_at d
    catch_access (do
      m' ← if_found (codes "similar") info m (string_list add_infohash m)
      if_found (codes "similar") d m' (string_list add_infohash m'))

  unfoldable pub parse_name : V → Metafile → Run Metafile
  parse_name root m = do info ← info_dict root; string_field (codes "name") info m set_name

  unfoldable pub parse_source : V → Metafile → Run Metafile
  parse_source root m = do info ← info_dict root; string_field (codes "source") info m set_source

  -- The fields of `info` that have no place in the metafile.
  unfoldable pub other_fields : Dict V → Dict V → Dict V
  other_fields kept [] = kept
  other_fields kept ((k, v) ∷ d) =
      let without = other_fields kept d in
      let with_it = other_fields (insert_or_assign k v kept) d in
      if member bytes_eq k known_keys then without else with_it

  unfoldable pub parse_other_info_fields : V → Dict V → Run (Dict V)
  unfolding other_fields
  parse_other_info_fields root kept = do info ← info_dict root; ok (other_fields kept info)

  unfoldable pub parse_protocol : V → Run ℕ
  parse_protocol root = do
    info ← info_dict root
    catch_access (
        found (find_key (codes "meta version") info) (ok v1) (λ v. do
          n ← access (B.get_integer v)
          elim n [
            | pos k ↦ ok (if k == 1 then v1 else if k == 2 then v2 else v1)
            | negsuc k ↦ ok v1
          ]))

  unfoldable pub check_if_hybrid : V → Run Bool
  check_if_hybrid root = do
    info ← info_dict root
    found (find_key (codes "pieces") info) (ok false)
        (λ v. do s ← access (B.get_string v); ok (not (length s == 0)))
