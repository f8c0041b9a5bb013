-- ===== src/Reader/Examples.antt =====
-- Readers of small files with pieces of four bytes.
use dottorrent.Base.{
  ℕ, ◌≡◌, refl, true, false, none, List, [], ◌∷◌, ◌++◌, map, Bytes, arith, ok, violation,
}
use dottorrent.Base.Split.{split, numbered}
use dottorrent.Attributes.{multi}
use dottorrent.Entry.{FileEntry, is_padding_file, has_attribute}
use dottorrent.Storage.{FileStorage, piece_count}
use dottorrent.Reader.{V1Reader, run_v1, file}
use dottorrent.Reader.Blocks.{contents, stamped}
use dottorrent.Reader.Files.{ArePresent, join, run_v1_lem}
use dottorrent.Reader.V2.{V2Reader, run_v2, read_v2_file, new_v2_reader}
use dottorrent.Reader.Sizes.{run_v2_multiple, read_v2_file_lem, parts_with_last}

abbrev entry : ℕ → FileEntry
entry size = record {
  path = (97 ∷ []) ∷ [];
  file_size = size;
  checksums = [];
  has_v2_data = true;
  root_hash = [];
  layer = [];
  attributes = none;
  symlink_path = none;
  last_modified_time = none;
}

abbrev storage : List FileEntry → ℕ → FileStorage
storage files total = record {
  total_file_size = total;
  regular_file_size = total;
  piece_size = 4;
  root_directory = [];
  mode = multi;
  files = files;
  pieces = [];
  index_valid = false;
}

abbrev two_files : FileStorage
two_files = storage (entry 5 ∷ entry 6 ∷ []) 11

abbrev texts : List Bytes
texts = (1 ∷ 2 ∷ 3 ∷ 4 ∷ 5 ∷ []) ∷ (6 ∷ 7 ∷ 8 ∷ 9 ∷ 10 ∷ 11 ∷ []) ∷ []

texts_present : ArePresent (entry 5 ∷ entry 6 ∷ []) texts
unfolding is_padding_file has_attribute
texts_present = ((refl, refl), ((refl, refl), tt))

run_v1_lem_example :
    (r : V1Reader) × (run_v1 two_files 8 (map file texts) ≡ ok r)
    × (contents r.pushed ≡ stamped (numbered 2 0 (split 8 (join texts))))
    × (r.bytes_read ≡ 11)
run_v1_lem_example =
    run_v1_lem two_files 8 2 texts texts_present refl (omega arith) (omega arith) (omega arith)
      (omega arith) refl

abbrev one_file : FileStorage
one_file = storage (entry 8 ∷ []) 8

abbrev eight : Bytes
eight = 1 ∷ 2 ∷ 3 ∷ 4 ∷ 5 ∷ 6 ∷ 7 ∷ 8 ∷ []

run_v2_multiple_example : run_v2 one_file 8 (file eight ∷ []) ≡ violation
unfolding is_padding_file has_attribute
run_v2_multiple_example =
    run_v2_multiple one_file 8 2 (entry 8) eight 1 refl refl refl refl (omega arith) (omega arith)
      (omega arith) (omega arith) refl

read_v2_file_lem_example :
    (r : V2Reader) × (read_v2_file 12 two_files 8 2 new_v2_reader (join texts) ≡ ok r)
    × (contents r.pushed ≡ contents [] ++ stamped (numbered 2 0 (parts_with_last 1 8 (join texts))))
unfolding piece_count
read_v2_file_lem_example =
    read_v2_file_lem two_files 8 2 1 12 new_v2_reader (join texts) (omega arith) (omega arith)
      (omega arith) (omega arith) (omega arith)
