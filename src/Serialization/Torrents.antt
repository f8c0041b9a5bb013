-- ===== src/Serialization/Torrents.antt =====
-- src/metafile_serialization.cpp: whole torrents, and the functions of src/metafile.cpp that write them.
use dottorrent.Base.{
  ℕ, not, List, [], ◌∷◌, map, Bytes, codes, ltb, ◌==◌, if◌then◌else◌, Run, ok, throws, ◌>>=◌,
  invalid_argument,
}
use dottorrent.Attributes.{v1, v2, hybrid}
use dottorrent.Entry.{FileEntry, pieces_root}
use dottorrent.Announce.{AnnounceUrl}
use dottorrent.InfoHash.{InfoHash, deref}
use dottorrent.Metafile.{DhtNode, Metafile}
use dottorrent.Bencode.{Dict, Bencode, insert_or_assign}
use dottorrent.Serialization.{
  announce_tiers, make_v2_piece_layers_string, put_if, is_filled, is_some_list, strings, number,
  make_bvalue_infodict_v1, make_bvalue_infodict_v2, make_bvalue_infodict_hybrid,
}

module _ {V : Type 0} (B : Bencode V) where
  -- The first tracker and all of them, if there are any.
  abbrev pub put_trackers : List AnnounceUrl → Dict V → Dict V
  put_trackers [] d = d
  put_trackers (a ∷ announces) d =
      insert_or_assign (codes "announce-list")
        (B.list (map (strings B) (announce_tiers (a ∷ announces))))
        (insert_or_assign (codes "announce") (B.string a.url) d)

  abbrev pub put_strings : Bytes → List Bytes → Dict V → Dict V
  put_strings key ss d = put_if B (is_some_list ss) key (strings B ss) d

  abbrev pub put_string : Bytes → Bytes → Dict V → Dict V
  put_string key s d = put_if B (is_filled s) key (B.string s) d

  -- An info hash is one string or, for a hybrid torrent, two.
  unfoldable pub similar_values : List InfoHash → Run (List V)
  similar_values [] = ok []
  similar_values (k ∷ ks) =
      if k.protocol_version == v1
      then (do h ← deref k.v1_hash; vs ← similar_values ks; ok (B.string h ∷ vs))
      else if k.protocol_version == v2
      then (do h ← deref k.v2_hash; vs ← similar_values ks; ok (B.string h ∷ vs))
      else if k.protocol_version == hybrid
      then (do
        h ← deref k.v1_hash
        h' ← deref k.v2_hash
        vs ← similar_values ks
        ok (B.string h ∷ B.string h' ∷ vs))
      else throws invalid_argument

  unfoldable pub put_similar : List InfoHash → Dict V → Run (Dict V)
  unfolding similar_values
  put_similar [] d = ok d
  put_similar (k ∷ ks) d = do
    vs ← similar_values (k ∷ ks)
    ok (insert_or_assign (codes "similar") (B.list vs) d)

  abbrev pub node_value : DhtNode → V
  node_value n = B.list (B.string n.url ∷ number B n.port ∷ [])

  abbrev pub put_nodes : List DhtNode → Dict V → Dict V
  put_nodes ns d = put_if B (is_some_list ns) (codes "nodes") (B.list (map node_value ns)) d

  unfoldable pub make_bvalue_common : Metafile → Run (Dict V)
  unfolding put_similar
  make_bvalue_common m =
      let tracked = put_trackers m.announce_list [] in
      let commented = put_string (codes "comment") m.comment tracked in
      let created = put_string (codes "created by") m.created_by commented in
      let dated =
        put_if B (not (m.creation_date == 0)) (codes "creation date") (number B m.creation_date)
          created in
      let collected = put_strings (codes "collections") m.collections dated in
      let seeded = put_strings (codes "httpseeds") m.http_seeds collected in
      do
        similar ← put_similar m.similar_torrents seeded
        ok (put_nodes m.dht_nodes (put_strings (codes "url-list") m.web_seeds similar))

  unfoldable pub make_bvalue_v1 : (List AnnounceUrl → Bytes) → Metafile → Dict V → Run V
  unfolding make_bvalue_common
  make_bvalue_v1 cross_seed m other = do
    common ← make_bvalue_common m
    info ← make_bvalue_infodict_v1 B cross_seed m other
    ok (B.dict (insert_or_assign (codes "info") (B.dict info) common))

  -- The layers of the files that are larger than a piece, by their roots.
  unfoldable pub put_layers : ℕ → List FileEntry → Dict V → Run (Dict V)
  unfolding make_v2_piece_layers_string
  put_layers piece_size [] d = ok d
  put_layers piece_size (e ∷ es) d =
      let rest = put_layers piece_size es d in
      if ltb piece_size e.file_size
      then (do
        root ← pieces_root e
        layer ← make_v2_piece_layers_string e
        put_layers piece_size es (insert_or_assign root (B.string layer) d))
      else rest

  unfoldable pub with_layers : Metafile → Dict V → Dict V → Run V
  unfolding put_layers
  with_layers m common info = do
    layers ← put_layers m.storage.piece_size m.storage.files []
    ok (
        B.dict (
          insert_or_assign (codes "piece layers") (B.dict layers)
            (insert_or_assign (codes "info") (B.dict info) common)))

  unfoldable pub make_bvalue_v2 : (List AnnounceUrl → Bytes) → Metafile → Dict V → Run V
  unfolding make_bvalue_common with_layers
  make_bvalue_v2 cross_seed m other = do
    common ← make_bvalue_common m
    info ← make_bvalue_infodict_v2 B cross_seed m other
    with_layers m common info

  unfoldable pub make_bvalue_hybrid : (List AnnounceUrl → Bytes) → Metafile → Dict V → Run V
  unfolding make_bvalue_common with_layers
  make_bvalue_hybrid cross_seed m other = do
    common ← make_bvalue_common m
    info ← make_bvalue_infodict_hybrid B cross_seed m other
    with_layers m common info

  -- write_metafile, with the encoder of bencode.
  unfoldable pub write_metafile :
      (V → Bytes) → (List AnnounceUrl → Bytes) → Metafile → Dict V → ℕ → Run Bytes
  write_metafile encode cross_seed m other version =
      if version == v1
      then (do v ← make_bvalue_v1 cross_seed m other; ok (encode v))
      else if version == v2
      then (do v ← make_bvalue_v2 cross_seed m other; ok (encode v))
      else if version == hybrid
      then (do v ← make_bvalue_hybrid cross_seed m other; ok (encode v))
      else throws invalid_argument
