-- ===== src/Checksum/Examples.antt =====
-- A value of the size of a SHA3-384 digest.
use dottorrent.Base.{◌≡◌, refl, codes, replicate, throws, invalid_argument}
use dottorrent.Checksum.{make_checksum}
use dottorrent.Checksum.Names.{make_checksum-sha3_384}

make_checksum-sha3_384_example :
    make_checksum (codes "sha3_384") (replicate 48 1) ≡ throws invalid_argument
make_checksum-sha3_384_example = make_checksum-sha3_384 (replicate 48 1) refl
