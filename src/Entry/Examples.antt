-- ===== src/Entry/Examples.antt =====
-- An entry with one checksum.
use dottorrent.Base.{false, none, [], ◌∷◌, codes, replicate}
use dottorrent.Entry.{FileEntry}

abbrev some_entry : FileEntry
some_entry = record {
  path = codes "a" ∷ [];
  file_size = 5;
  checksums = (codes "md5", 1 ∷ []) ∷ [];
  has_v2_data = false;
  root_hash = replicate 32 0;
  layer = [];
  attributes = none;
  symlink_path = none;
  last_modified_time = none;
}
