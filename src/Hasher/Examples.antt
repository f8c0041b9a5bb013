-- ===== src/Hasher/Examples.antt =====
-- A v2 hasher whose digest is the length of the text.
use dottorrent.Base.{◌≡◌, true, false, none, some, [], ◌∷◌, ◌++◌, map, Bytes, length, arith, ok}
use dottorrent.Base.Split.{split, numbered}
use dottorrent.Attributes.{multi}
use dottorrent.Storage.{FileStorage, add64}
use dottorrent.Hasher.{V2Hasher, hash_v2_chunk, in_file, v2_block_size}
use dottorrent.Hasher.Leaves.{hash_v2_chunk_lem, first_leaf}

abbrev count : Bytes → Bytes
count d = length d ∷ []

abbrev one_file : FileStorage
one_file = record {
  total_file_size = 3;
  regular_file_size = 3;
  piece_size = 16384;
  root_directory = [];
  mode = multi;
  files =
      record {
        path = (97 ∷ []) ∷ [];
        file_size = 3;
        checksums = [];
        has_v2_data = true;
        root_hash = [];
        layer = [];
        attributes = none;
        symlink_path = none;
        last_modified_time = none;
      }
      ∷ [];
  pieces = [];
  index_valid = false;
}

abbrev new_hasher : V2Hasher
new_hasher = record { leaves = []; v1_pieces = []; bytes_done = 0; bytes_hashed = 0 }

abbrev three : Bytes
three = 7 ∷ 8 ∷ 9 ∷ []

hash_v2_chunk_lem_example :
    hash_v2_chunk count count false one_file [] new_hasher 0 0 (some three)
    ≡ ok (record {
      leaves =
          []
          ++ in_file 0 (numbered 1 (first_leaf one_file 0) (map count (split v2_block_size three)));
      v1_pieces = [];
      bytes_done = add64 0 3;
      bytes_hashed = add64 0 3;
    })
hash_v2_chunk_lem_example =
    hash_v2_chunk_lem count count one_file [] new_hasher 0 0 three (omega arith) (omega arith)
      (omega arith) (omega arith) (omega arith)
