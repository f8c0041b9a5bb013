-- ===== src/Parsing/Torrent.antt =====
-- src/metafile_parsing.cpp: parse_metafile, which takes the fields in their order.
use dottorrent.Base.{ℕ, false, [], ◌==◌, if◌then◌else◌, Run, ok, ◌>>=◌}
use dottorrent.Attributes.{v1, empty}
use dottorrent.Storage.{FileStorage}
use dottorrent.Metafile.{Metafile}
use dottorrent.Bencode.{Dict, Bencode}
use dottorrent.Parsing.{
  parse_announce, parse_private, parse_comment, parse_created_by, parse_creation_date,
  parse_collections, parse_http_seeds, parse_web_seeds, parse_dht_nodes, parse_similar_torrents,
  parse_name, parse_source, parse_other_info_fields, parse_protocol, check_if_hybrid,
}
use dottorrent.Parsing.Files.{
  parse_file_list_v1, parse_piece_size, parse_pieces_v1, parse_piece_layers_v2,
}
use dottorrent.Parsing.Tree.{parse_file_tree_v2, parse_file_list_and_tree_hybrid}

abbrev pub empty_storage : FileStorage
empty_storage = record {
  total_file_size = 0;
  regular_file_size = 0;
  piece_size = 0;
  root_directory = [];
  mode = empty;
  files = [];
  pieces = [];
  index_valid = false;
}

abbrev pub new_metafile : Metafile
new_metafile = record {
  storage = empty_storage;
  announce_list = [];
  http_seeds = [];
  web_seeds = [];
  dht_nodes = [];
  name = [];
  comment = [];
  creation_date = 0;
  created_by = [];
  is_private = false;
  source = [];
  enable_cross_seeding = false;
  similar_torrents = [];
  collections = [];
}

-- A metafile with its member `other_info_fields_`.
pub record Torrent (V : Type 0) : Type 0 where
  pub metafile : Metafile
  pub other_info_fields : Dict V

module _ {V : Type 0} (B : Bencode V) where
  -- The fields that come first for every protocol, up to the name.
  unfoldable pub parse_general : V → Metafile → Run Metafile
  unfolding parse_announce parse_private parse_comment parse_created_by parse_creation_date
      parse_collections parse_http_seeds parse_web_seeds parse_dht_nodes parse_similar_torrents
      parse_name
  parse_general root m0 = do
    m1 ← parse_announce B root m0
    m2 ← parse_private B root m1
    m3 ← parse_comment B root m2
    m4 ← parse_created_by B root m3
    m5 ← parse_creation_date B root m4
    m6 ← parse_collections B root m5
    m7 ← parse_http_seeds B root m6
    m8 ← parse_web_seeds B root m7
    m9 ← parse_dht_nodes B root m8
    m10 ← parse_similar_torrents B root m9
    parse_name B root m10

  unfoldable pub parse_v1 : V → Run (Torrent V)
  unfolding parse_general
  parse_v1 root = do
    m ← parse_general root new_metafile
    with_files ← parse_file_list_v1 B root m
    sized ← parse_piece_size B root with_files
    hashed ← parse_pieces_v1 B root sized
    sourced ← parse_source B root hashed
    other ← parse_other_info_fields B root []
    ok (record { metafile = sourced; other_info_fields = other })

  unfoldable pub parse_files_v2 : ℕ → V → Metafile → Run Metafile
  parse_files_v2 rounds root m = do
    is_hybrid ← check_if_hybrid B root
    if is_hybrid
        then (do
          with_files ← parse_file_list_and_tree_hybrid B rounds root m
          layered ← parse_piece_layers_v2 B root with_files
          parse_pieces_v1 B root layered)
        else (do
          with_files ← parse_file_tree_v2 B rounds root m
          parse_piece_layers_v2 B root with_files)

  unfoldable pub parse_v2 : ℕ → V → Run (Torrent V)
  unfolding parse_general parse_files_v2
  parse_v2 rounds root = do
    m ← parse_general root new_metafile
    sized ← parse_piece_size B root m
    sourced ← parse_source B root sized
    other ← parse_other_info_fields B root []
    with_files ← parse_files_v2 rounds root sourced
    ok (record { metafile = with_files; other_info_fields = other })

  -- The protocol is v1 or v2; `rounds` are for the loop over the file tree.
  unfoldable pub parse_metafile : ℕ → V → Run (Torrent V)
  unfolding parse_v1 parse_v2
  parse_metafile rounds root = do
    version ← parse_protocol B root
    if version == v1 then parse_v1 root else parse_v2 rounds root
