-- ===== src/Parsing/Examples.antt =====
-- A torrent of two files that is written and read.
use dottorrent.Base.{
  pos, ℕ, ◌≡◌, refl, true, false, Option, none, some, List, [], ◌∷◌, Bytes, codes, replicate, map,
  ok, violation, ◌>>=◌, arith, ◌<◌, ◌^◌, inl, All,
}
use dottorrent.Entry.{
  FileEntry, is_symlink, has_attribute, is_padding_file, make_entry, check_invariants,
}
use dottorrent.Utils.{log2_floor, countl_zero}
use dottorrent.Storage.{set_file_mode, add_files, add_file, piece_count, has_single_bit}
use dottorrent.Announce.Order.{ordered_from}
use dottorrent.InfoHash.{of_v1}
use dottorrent.Metafile.{Metafile}
use dottorrent.Bencode.Examples.{Tree, text, trees, trees-IsBencode}
use dottorrent.Bencode.{Dict}
use dottorrent.Parsing.{parse_announce}
use dottorrent.Parsing.Layers.{HasLayer, without_layer, parse_layers-put_layers}
use dottorrent.Parsing.Refused.{parse_announce-empty_tier}
use dottorrent.Parsing.Torrent.{empty_storage, new_metafile, parse_metafile}
use dottorrent.Parsing.Entries.{IsName, HasFlags, IsPlainEntry}
use dottorrent.Parsing.Read.{IsWritable}
use dottorrent.Checksum.{is_hash_function_name, make_hash_function, find_name}
use dottorrent.Parsing.Paths.{root_directory, path_append, path_elements}
use dottorrent.Parsing.Tree.{components_path, file_tree_entries}
use dottorrent.Parsing.Walk.{Walk, walk_end, walk_file, walk_directory, file_tree_entries-Walk}
use dottorrent.Parsing.Files.{
  parse_file_entry_v2, parse_file_attributes, parse_symlink, parse_checksums, parse_layers,
}
use dottorrent.Parsing.Whole.{IsPlainTorrent, read_metafile, parse_metafile-make_bvalue_v1}
use dottorrent.Serialization.Torrents.{make_bvalue_v1, put_layers}

abbrev file_entry : Bytes → ℕ → Option ℕ → FileEntry
file_entry name size attributes = record {
  path = codes "dir" ∷ name ∷ [];
  file_size = size;
  checksums = [];
  has_v2_data = false;
  root_hash = replicate 32 0;
  layer = [];
  attributes = attributes;
  symlink_path = none;
  last_modified_time = none;
}

abbrev two_files : List FileEntry
two_files = file_entry (codes "a") 20000 none ∷ file_entry (codes "b") 5 (some 2) ∷ []

abbrev written_torrent : Metafile
written_torrent = record {
  storage = record empty_storage {
    total_file_size = 20005;
    regular_file_size = 20005;
    piece_size = 16384;
    root_directory = codes "dir" ∷ [];
    files = two_files;
    pieces = replicate 20 1 ∷ replicate 20 2 ∷ [];
  };
  announce_list =
      record { url = codes "http://a"; tier = 0 }
      ∷ record { url = codes "http://c"; tier = 0 }
      ∷ record { url = codes "http://b"; tier = 1 }
      ∷ [];
  http_seeds = codes "http://seed" ∷ [];
  web_seeds = codes "http://web" ∷ [];
  dht_nodes = record { url = codes "node"; port = 6881 } ∷ [];
  name = codes "two";
  comment = codes "a comment";
  creation_date = 1000;
  created_by = [];
  is_private = true;
  source = codes "src";
  enable_cross_seeding = false;
  similar_torrents = of_v1 (replicate 20 7) ∷ [];
  collections = codes "c" ∷ [];
}

plain_entry :
    (c : ℕ) (size : ℕ) (attributes : Option ℕ)
    → IsName (c ∷ [])
    → size < 2 ^ 63
    → is_symlink (file_entry (c ∷ []) size attributes) ≡ false
    → HasFlags attributes
    → IsPlainEntry (file_entry (c ∷ []) size attributes)
plain_entry c size attributes name small file flags = record {
  names = (refl, (name, tt));
  size = small;
  no_link = file;
  no_target = refl;
  no_checksums = refl;
  no_data = refl;
  no_root = refl;
  no_layer = refl;
  no_time = refl;
  flags = flags;
}

two_files-IsPlainEntry : All IsPlainEntry two_files
unfolding is_symlink has_attribute
two_files-IsPlainEntry = (
  plain_entry (b'a') 20000 none refl (omega arith) refl tt,
  (plain_entry (b'b') 5 (some 2) refl (omega arith) refl (omega arith), tt),
)

written_torrent-IsWritable : IsWritable written_torrent (replicate 20 7 ∷ [])
unfolding ordered_from of_v1
written_torrent-IsWritable = record {
  ordered = refl;
  urls_differ = refl;
  new_http = refl;
  new_web = refl;
  new_collections = refl;
  new_nodes = refl;
  ports = (omega arith, tt);
  similar = refl;
  new_similar = refl;
  digests = (inl refl, tt);
  date = omega arith;
}

written_torrent-IsPlainTorrent : IsPlainTorrent written_torrent (replicate 20 7 ∷ [])
unfolding piece_count add_files add_file has_single_bit log2_floor countl_zero set_file_mode
written_torrent-IsPlainTorrent = record {
  writable = written_torrent-IsWritable;
  two_files = omega arith;
  entries = two_files-IsPlainEntry;
  size_min = omega arith;
  size_power = refl;
  size_max = omega arith;
  digests = (refl, (refl, tt));
  all_pieces = refl;
  no_cross_seeding = refl;
}

parse_metafile-make_bvalue_v1_example :
    make_bvalue_v1 trees (λ announces. []) written_torrent [] >>= parse_metafile trees 0
    ≡ ok (record { metafile = read_metafile written_torrent; other_info_fields = [] })
parse_metafile-make_bvalue_v1_example =
    parse_metafile-make_bvalue_v1 trees trees-IsBencode (λ announces. []) written_torrent
      (replicate 20 7 ∷ []) written_torrent-IsPlainTorrent 0

-- A tree with an empty file in a directory, and a file beside it.
abbrev leaf : Tree
leaf = trees.dict ((codes "length", trees.integer (pos 0)) ∷ [])

abbrev file_at : Tree
file_at = trees.dict (([], leaf) ∷ [])

abbrev small_tree : Dict Tree
small_tree = (codes "d", trees.dict ((codes "x", file_at) ∷ [])) ∷ (codes "y", file_at) ∷ []

abbrev tree_root : Tree
tree_root =
    trees.dict ((codes "info", trees.dict ((codes "file tree", trees.dict small_tree) ∷ [])) ∷ [])

abbrev empty_file : List Bytes → FileEntry
empty_file path = record (file_entry [] 0 none) { path = path }

small_tree-Walk :
    Walk trees small_tree
      (root_directory ∷ [])
      (empty_file (codes "d" ∷ codes "x" ∷ []) ∷ empty_file (codes "y" ∷ []) ∷ [])
      8
unfolding parse_file_entry_v2 path_append path_elements parse_file_attributes parse_symlink
    parse_checksums make_entry check_invariants is_symlink has_attribute components_path
    is_hash_function_name make_hash_function find_name
small_tree-Walk =
    walk_directory refl refl (walk_directory refl refl (walk_file refl refl refl walk_end) walk_end)
      (walk_directory refl refl (walk_file refl refl refl walk_end) walk_end)

file_tree_entries-Walk_example :
    file_tree_entries trees 100 tree_root
    ≡ ok (empty_file (codes "d" ∷ codes "x" ∷ []) ∷ empty_file (codes "y" ∷ []) ∷ [])
file_tree_entries-Walk_example =
    file_tree_entries-Walk trees tree_root 90 refl refl refl small_tree-Walk

abbrev gap_root : Tree
gap_root = trees.dict (
    (codes "announce-list", trees.list (trees.list [] ∷ trees.list (text (codes "u") ∷ []) ∷ []))
    ∷ [])

parse_announce-empty_tier_example : parse_announce trees gap_root new_metafile ≡ violation
parse_announce-empty_tier_example =
    parse_announce-empty_tier trees trees-IsBencode gap_root
      ((codes "announce-list", trees.list (trees.list [] ∷ trees.list (text (codes "u") ∷ []) ∷ []))
        ∷ [])
      new_metafile (codes "u") [] [] refl refl refl

-- A file of three blocks with the layer of its two pieces, and a small one.
abbrev layered_files : List FileEntry
layered_files =
    record (file_entry (codes "a") 40000 none) {
      has_v2_data = true;
      root_hash = replicate 32 3;
      layer = replicate 32 1 ∷ replicate 32 2 ∷ [];
    }
    ∷ record (file_entry (codes "b") 5 none) { has_v2_data = true; root_hash = replicate 32 4 }
    ∷ []

layered_files-HasLayer : All (HasLayer 32768) layered_files
unfolding is_padding_file has_attribute
layered_files-HasLayer = (
  record {
    rooted = λ h. refl;
    small = λ h. absurd (cc h);
    no_padding = refl;
    digests = (refl, (refl, tt));
  },
  (record { rooted = λ h. refl; small = λ h. refl; no_padding = refl; digests = tt }, tt),
)

parse_layers-put_layers_example :
    put_layers trees 32768 layered_files []
      >>= (λ d. parse_layers trees 32768 d (map without_layer layered_files))
    ≡ ok layered_files
parse_layers-put_layers_example =
    parse_layers-put_layers trees trees-IsBencode 32768 layered_files layered_files-HasLayer (
      ((λ h. (refl, refl)), ((λ h. absurd (cc h)), tt)),
      (((λ h. absurd (cc h)), ((λ h. (refl, refl)), tt)), tt),
    )
