-- ===== src/Attributes/Examples.antt =====
-- The letters of some attributes.
use dottorrent.Base.{◌≡◌, codes, ok, throws, invalid_argument, if◌then◌else◌}
use dottorrent.Attributes.{make_file_attributes}
use dottorrent.Attributes.Letters.{make_file_attributes_lem, flags, contains, all_letters}

make_file_attributes_lem_example : make_file_attributes (codes "xlx") ≡ (
    if all_letters (codes "xlx")
    then ok (
        flags
          (contains b'l' (codes "xlx"))
          (contains b'x' (codes "xlx"))
          (contains b'h' (codes "xlx"))
          (contains b'p' (codes "xlx")))
    else throws invalid_argument)
make_file_attributes_lem_example = make_file_attributes_lem (codes "xlx")
